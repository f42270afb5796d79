-- ===== src/Sessions/Resolve.antt =====
-- `resolve` of plugin/guest-gateway/sessions.ts: the token that a browser session stands for.
use bb_shared.Base.{
  ℕ, ◌≡◌, refl, ◌∙◌, inl, inr, [], ◌∷◌, Option, none, some, Text, text_eq, Dict, lookup, values,
  ltb, arith, Bool-cases, Option-cases, if◌then◌else◌,
}
use bb_shared.TokenStore.{Perm, read, write, Share, Token, Tokens}
use bb_shared.TokenStore.Grants.{perm_of}
use bb_shared.TokenStore.Invariant.{IsValid}
use bb_shared.Sessions.{Session, Rows, session_of, collect_grants, token_of, resolve}
use bb_shared.Sessions.Strongest.{
  strongest, stronger, collect_grants-perm, collect_grants-IsFiled, perm_of-values,
}

-- The permission on a thread that an optional token gives.
abbrev pub guest_perm : Option Token → Text → Option Perm
guest_perm none x = none
guest_perm (some t) x = perm_of x t.shares

token_of-perm :
    (session : Session) (m : Dict Text Share) (x : Text)
    → guest_perm (token_of session m) x ≡ perm_of x (values m)
unfolding perm_of
token_of-perm session [] x = refl
token_of-perm session (e ∷ m) x = refl

stronger-none : (p : Option Perm) → stronger none p ≡ p
stronger-none none = refl
stronger-none (some read) = refl
stronger-none (some write) = refl

-- What a session should give on a thread: nothing once it has lapsed, and otherwise the strongest
-- of the permissions that the tokens of its grants give now.
abbrev pub session_perm : ℕ → Tokens → Option Session → Text → Option Perm
session_perm now tokens none x = none
session_perm now tokens (some session) x =
    if ltb now session.expires then strongest tokens session.grants x else none

-- On every thread `resolve` gives what the session should give: nothing without a live session, and
-- otherwise the strongest permission among the tokens of its grants as they stand now, so that a
-- revoked token and a removed share give nothing.
pub resolve-session_perm :
    (now : ℕ) (tokens : Tokens) (rows : Rows) (id : Option Text) (x : Text)
    → IsValid tokens
    → guest_perm (resolve now tokens rows id) x ≡ session_perm now tokens (session_of rows id) x
unfolding resolve lookup
resolve-session_perm now tokens rows id x v = elim (Option-cases (session_of rows id)) [
  | inl missing ↦ ground (arith, missing)
  | inr (session, found) ↦ elim (Bool-cases (ltb now session.expires)) [
    | inl live ↦
        let m = collect_grants tokens [] session.grants in
        let (_, filed) = collect_grants-IsFiled tokens [] session.grants (tt, tt) in
        let same_perm : guest_perm (token_of session m) x ≡ strongest tokens session.grants x =
          token_of-perm session m x
          ∙ (perm_of-values m x filed
              ∙ (collect_grants-perm tokens [] session.grants x v
                  ∙ stronger-none (strongest tokens session.grants x))) in
        ground (arith, found, live, same_perm)
    | inr lapsed ↦ ground (arith, found, lapsed)
  ]
]

-- ===== src/Sessions/Strongest.antt =====
-- The union of grants in plugin/guest-gateway/sessions.ts: the strongest permission wins.
use bb_shared.Base.{
  ◌≡◌, refl, ap, ◌∙◌, inl, inr, ◌||◌, not, List, [], ◌∷◌, Option, none, some, Text, text_eq, same,
  same_iff, Dict, lookup, lookup-insert, values, is_some, IsDistinct, insert-IsDistinct, Entries,
  insert-Entries, arith, Bool-cases, if◌then◌else◌,
}
use bb_shared.TokenStore.{Perm, read, write, Share, Token, Tokens, get_token}
use bb_shared.TokenStore.Shares.{HasDistinctThreads}
use bb_shared.TokenStore.Grants.{perm_of, grants, token_perm, perm_of-absent}
use bb_shared.TokenStore.Invariant.{IsValid, lookup-IsSound}
use bb_shared.Sessions.{collect_share, collect_shares, collect_grants, shares_of, is_write}

-- The stronger of two permissions.
abbrev pub stronger : Option Perm → Option Perm → Option Perm
stronger (some write) q = some write
stronger p (some write) = some write
stronger none q = q
stronger p none = p
stronger (some read) (some read) = some read

stronger_assoc : (p q r : Option Perm) → stronger (stronger p q) r ≡ stronger p (stronger q r)
stronger_assoc p q r = ground arith

-- What a set of grants gives on a thread.
unfoldable pub strongest : Tokens → List Text → Text → Option Perm
strongest tokens [] thread_id = none
strongest tokens (g ∷ gs) thread_id =
    stronger (grants tokens g thread_id) (strongest tokens gs thread_id)

abbrev pub entry_perm : Option Share → Option Perm
entry_perm none = none
entry_perm (some s) = some s.perm

collect_share-perm :
    (m : Dict Text Share) (s : Share) (x : Text)
    → entry_perm (lookup x (collect_share m s))
      ≡ stronger (entry_perm (lookup x m)) (if same s.thread_id x then some s.perm else none)
unfolding collect_share
collect_share-perm m s x = ground (arith, lookup-insert s.thread_id x s m, same_iff s.thread_id x)

collect_shares-perm :
    (m : Dict Text Share) (ss : List Share) (x : Text)
    → HasDistinctThreads ss
    → entry_perm (lookup x (collect_shares m ss))
      ≡ stronger (entry_perm (lookup x m)) (perm_of x ss)
unfolding collect_shares perm_of
collect_shares-perm m [] x d = ground arith
collect_shares-perm m (s ∷ ss) x (fresh, d) = ground (
  arith,
  collect_shares-perm (collect_share m s) ss x d,
  collect_share-perm m s x,
  perm_of-absent s.thread_id ss,
  same_iff s.thread_id x,
)

collect_token-perm :
    (m : Dict Text Share) (o : Option Token) (x : Text)
    → ((t : Token) → o ≡ some t → HasDistinctThreads t.shares)
    → entry_perm (lookup x (collect_shares m (shares_of o)))
      ≡ stronger (entry_perm (lookup x m)) (token_perm x o)
unfolding collect_shares
collect_token-perm m none x d = ground arith
collect_token-perm m (some t) x d = collect_shares-perm m t.shares x (d t refl)

pub collect_grants-perm :
    (tokens : Tokens) (m : Dict Text Share) (gs : List Text) (x : Text)
    → IsValid tokens
    → entry_perm (lookup x (collect_grants tokens m gs))
      ≡ stronger (entry_perm (lookup x m)) (strongest tokens gs x)
unfolding collect_grants strongest get_token
collect_grants-perm tokens m [] x v = ground arith
collect_grants-perm tokens m (g ∷ gs) x v =
    let o = lookup g tokens in
    let first = collect_token-perm m o x (λ t found. (lookup-IsSound g t tokens v found).1) in
    collect_grants-perm tokens (collect_shares m (shares_of o)) gs x v
    ∙ (ap (λ p. stronger p (strongest tokens gs x)) first
        ∙ stronger_assoc (entry_perm (lookup x m)) (token_perm x o) (strongest tokens gs x))

-- The collected shares stand under their threads.
abbrev pub IsFiled : Dict Text Share → Type 0
IsFiled m = IsDistinct m × Entries (λ k s. s.thread_id ≡ k) m

collect_share-IsFiled : (m : Dict Text Share) (s : Share) → IsFiled m → IsFiled (collect_share m s)
unfolding collect_share
collect_share-IsFiled m s (d, k) =
    elim (Bool-cases (not (is_some (lookup s.thread_id m)) || is_write s.perm)) [
      | inl kept ↦ rw kept (
        insert-IsDistinct s.thread_id s m d,
        insert-Entries (λ k (u : Share). u.thread_id ≡ k) s.thread_id s m refl k,
      )
      | inr left ↦ rw left (d, k)
    ]

collect_shares-IsFiled :
    (m : Dict Text Share) (ss : List Share) → IsFiled m → IsFiled (collect_shares m ss)
unfolding collect_shares
collect_shares-IsFiled m [] h = h
collect_shares-IsFiled m (s ∷ ss) h =
    collect_shares-IsFiled (collect_share m s) ss (collect_share-IsFiled m s h)

pub collect_grants-IsFiled :
    (tokens : Tokens) (m : Dict Text Share) (gs : List Text)
    → IsFiled m
    → IsFiled (collect_grants tokens m gs)
unfolding collect_grants
collect_grants-IsFiled tokens m [] h = h
collect_grants-IsFiled tokens m (g ∷ gs) h =
    let ss = shares_of (get_token tokens g) in
    collect_grants-IsFiled tokens (collect_shares m ss) gs (collect_shares-IsFiled m ss h)

-- The shares of a file, read as a token's.
pub perm_of-values :
    (m : Dict Text Share) (x : Text)
    → Entries (λ k s. s.thread_id ≡ k) m
    → perm_of x (values m) ≡ entry_perm (lookup x m)
unfolding perm_of lookup
perm_of-values [] x h = refl
perm_of-values ((k, s) ∷ m) x (e, h) = ground (arith, perm_of-values m x h)

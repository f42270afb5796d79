-- ===== src/Sessions/Union.antt =====
-- The grants that `redeem` of plugin/guest-gateway/sessions.ts stores, as permissions.
use bb_shared.Base.{
  ◌≡◌, refl, sym, ◌∙◌, ap, inl, inr, true, List, [], ◌∷◌, ◌++◌, Option, Text, text_eq, same,
  same_iff, is_one_of, filter, lookup, is_some, arith, Bool-cases, Option-cases,
}
use bb_shared.TokenStore.{Perm, Tokens, get_token}
use bb_shared.TokenStore.Grants.{grants}
use bb_shared.Sessions.{valid_grants}
use bb_shared.Sessions.Strongest.{strongest, stronger}

stronger_twice : (p q : Option Perm) → stronger (stronger p q) p ≡ stronger p q
stronger_twice p q = ground arith

stronger_assoc : (p q r : Option Perm) → stronger (stronger p q) r ≡ stronger p (stronger q r)
stronger_assoc p q r = ground arith

strongest-append :
    (tokens : Tokens) (gs : List Text) (g x : Text)
    → strongest tokens (gs ++ g ∷ []) x ≡ stronger (strongest tokens gs x) (grants tokens g x)
unfolding strongest
strongest-append tokens [] g x = ground arith
strongest-append tokens (h ∷ gs) g x =
    ap (stronger (grants tokens h x)) (strongest-append tokens gs g x)
    ∙ sym (stronger_assoc (grants tokens h x) (strongest tokens gs x) (grants tokens g x))

-- A grant that is in the list adds nothing.
strongest-absorb :
    (tokens : Tokens) (gs : List Text) (g x : Text)
    → is_one_of g gs ≡ true
    → stronger (strongest tokens gs x) (grants tokens g x) ≡ strongest tokens gs x
unfolding strongest
strongest-absorb tokens [] g x h = cc
strongest-absorb tokens (k ∷ gs) g x h = elim (Bool-cases (same g k)) [
  | inl hit ↦
      let e : g ≡ k = (same_iff g k).0 hit in
      rw e (stronger_twice (grants tokens k x) (strongest tokens gs x))
  | inr miss ↦
      stronger_assoc (grants tokens k x) (strongest tokens gs x) (grants tokens g x)
      ∙ ap (stronger (grants tokens k x)) (strongest-absorb tokens gs g x (ground arith))
]

-- Nor does a grant of a deleted token.
strongest-filter :
    (tokens : Tokens) (gs : List Text) (x : Text)
    → strongest tokens (filter (λ g. is_some (get_token tokens g)) gs) x ≡ strongest tokens gs x
unfolding strongest get_token
strongest-filter tokens [] x = refl
strongest-filter tokens (g ∷ gs) x = elim (Option-cases (lookup g tokens)) [
  | inl gone ↦ ground (arith, gone, strongest-filter tokens gs x)
  | inr (t, found) ↦ ground (arith, found, strongest-filter tokens gs x)
]

pub strongest-valid_grants :
    (tokens : Tokens) (gs : List Text) (id x : Text)
    → strongest tokens (valid_grants tokens gs id) x
      ≡ stronger (strongest tokens gs x) (grants tokens id x)
unfolding valid_grants
strongest-valid_grants tokens gs id x =
    let valid = filter (λ g. is_some (get_token tokens g)) gs in
    elim (Bool-cases (is_one_of id valid)) [
      | inl there ↦ rw there (
          sym (strongest-absorb tokens valid id x there)
          ∙ ap (λ p. stronger p (grants tokens id x)) (strongest-filter tokens gs x))
      | inr new ↦ rw new (
          strongest-append tokens valid id x
          ∙ ap (λ p. stronger p (grants tokens id x)) (strongest-filter tokens gs x))
    ]

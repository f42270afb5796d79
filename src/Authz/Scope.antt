-- ===== src/Authz/Scope.antt =====
-- `[...new Set(ids)]` in plugin/authz/authz.ts.
use bb_shared.Base.{
  ◌≡◌, ◌↔◌, refl, sym, ap, ◌∙◌, inl, inr, true, false, ◌||◌, List, [], ◌∷◌, ◌++◌, map, Memᴰ, Text,
  same, same_iff, same_refl, is_one_of, arith, Bool-cases,
}
use bb_shared.TokenStore.{Share, Token}
use bb_shared.Authz.{add_id, dedupe, project_scope}

is_one_of-append :
    (x : Text) (xs ys : List Text) → is_one_of x (xs ++ ys) ≡ (is_one_of x xs || is_one_of x ys)
is_one_of-append x [] ys = refl
is_one_of-append x (y ∷ xs) ys = ground (arith, is_one_of-append x xs ys)

is_one_of-add_id :
    (x y : Text) (xs : List Text) → is_one_of x (add_id xs y) ≡ (is_one_of x xs || same x y)
unfolding add_id
is_one_of-add_id x y xs = elim (Bool-cases (is_one_of y xs)) [
  | inl hit ↦ elim (Bool-cases (same x y)) [
    | inl same_id ↦ rw (hit, (same_iff x y).0 same_id) (ground (arith, hit, same_refl y))
    | inr other ↦ ground arith
  ]
  | inr miss ↦ ground (arith, is_one_of-append x xs (y ∷ []))
]

is_one_of-dedupe :
    (x : Text) (seen ids : List Text)
    → is_one_of x (dedupe seen ids) ≡ (is_one_of x seen || is_one_of x ids)
unfolding dedupe
is_one_of-dedupe x seen [] = ground arith
is_one_of-dedupe x seen (id ∷ ids) =
    ground (arith, is_one_of-dedupe x (add_id seen id) ids, is_one_of-add_id x id seen)

-- Every text stands once.
abbrev pub AreDistinct : List Text → Type 0
AreDistinct [] = Unit
AreDistinct (x ∷ xs) = (is_one_of x xs ≡ false) × AreDistinct xs

snoc-AreDistinct :
    (xs : List Text) (y : Text)
    → is_one_of y xs ≡ false
    → AreDistinct xs
    → AreDistinct (xs ++ y ∷ [])
snoc-AreDistinct [] y h d = (refl, tt)
snoc-AreDistinct (x ∷ xs) y h (fresh, d) = (
  ground (arith, is_one_of-append x xs (y ∷ []), same_iff x y, same_iff y x),
  snoc-AreDistinct xs y (ground arith) d,
)

dedupe-AreDistinct : (seen ids : List Text) → AreDistinct seen → AreDistinct (dedupe seen ids)
unfolding dedupe
dedupe-AreDistinct seen [] d = d
dedupe-AreDistinct seen (id ∷ ids) d = elim (Bool-cases (is_one_of id seen)) [
  | inl hit ↦ rw hit (dedupe-AreDistinct seen ids d)
  | inr miss ↦ rw miss (dedupe-AreDistinct (seen ++ id ∷ []) ids (snoc-AreDistinct seen id miss d))
]

pub project_scope-AreDistinct : (t : Token) → AreDistinct (project_scope t)
unfolding project_scope
project_scope-AreDistinct t = dedupe-AreDistinct [] (map (λ (s : Share). s.project_id) t.shares) tt

-- Some share of the list lies in the project.
abbrev pub InProject : Text → List Share → Type 0
InProject id ss = (s : Share) × Memᴰ s ss × (s.project_id ≡ id)

is_one_of-InProject :
    (id : Text) (ss : List Share)
    → is_one_of id (map (λ (s : Share). s.project_id) ss) ≡ true
    → InProject id ss
is_one_of-InProject id [] h = cc
is_one_of-InProject id (s ∷ ss) h = elim (Bool-cases (same id s.project_id)) [
  | inl hit ↦ (s, Memᴰ.head refl, sym ((same_iff id s.project_id).0 hit))
  | inr miss ↦ let (u, m, e) = is_one_of-InProject id ss (ground arith) in (u, Memᴰ.tail m, e)
]

InProject-is_one_of :
    (id : Text) (ss : List Share)
    → InProject id ss
    → is_one_of id (map (λ (s : Share). s.project_id) ss) ≡ true
InProject-is_one_of id [] (s, m, e) = elim m [ ]
InProject-is_one_of id (x ∷ ss) (s, Memᴰ.head here, e) =
    ground (arith, same_iff id x.project_id, ap (λ (u : Share). u.project_id) here)
InProject-is_one_of id (x ∷ ss) (s, Memᴰ.tail m, e) =
    ground (arith, InProject-is_one_of id ss (s, m, e))

-- A project is in a token's scope exactly when some share of the token names it.
pub project_scope_iff :
    (t : Token) (id : Text) → (is_one_of id (project_scope t) ≡ true) ↔ InProject id t.shares
unfolding project_scope
project_scope_iff t id = (
  λ h.
      is_one_of-InProject id t.shares
        (sym (is_one_of-dedupe id [] (map (λ (s : Share). s.project_id) t.shares)) ∙ h),
  λ p.
      is_one_of-dedupe id [] (map (λ (s : Share). s.project_id) t.shares)
      ∙ InProject-is_one_of id t.shares p,
)

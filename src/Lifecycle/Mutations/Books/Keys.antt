-- ===== src/Lifecycle/Mutations/Books/Keys.antt =====
-- The books of plugin/worker-lifecycle/worker-lifecycle.ts, in which every record stands under its id.
use mathlib.Core.Logic.{inl, inr}
use bb_shared.Base.{
  ◌≡◌, append_nil, append_assoc, map-append, refl, sym, subst, ap, ◌∙◌, true, false, List, [], ◌∷◌,
  ◌++◌, none, Text, same, same_iff, same_refl, is_one_of, text_eq, Dict, Entries, insert-Entries,
  values, lookup, insert, insert_new, arith, Bool-cases,
}
use bb_shared.Connections.{ConnectionRecord, all_distinct, ids}
use bb_shared.Lifecycle.Mutations.Books.{enter_all}

-- Every entry stands under its id.
unfoldable pub IsUnder : Text → ConnectionRecord → Type 0
IsUnder k r = k ≡ r.id

abbrev pub AreKeyed : Dict Text ConnectionRecord → Type 0
AreKeyed m = Entries IsUnder m

values-append :
    (m : Dict Text ConnectionRecord) (k : Text) (r : ConnectionRecord)
    → values (m ++ (k, r) ∷ []) ≡ values m ++ r ∷ []
values-append [] k r = refl
values-append ((j, w) ∷ m) k r = ap (λ t. w ∷ t) (values-append m k r)

pub is_one_of-middle : (k : Text) (ks more : List Text) → is_one_of k (ks ++ k ∷ more) ≡ true
is_one_of-middle k [] more = ground (arith, same_refl k)
is_one_of-middle k (j ∷ ks) more = ground (arith, is_one_of-middle k ks more)

-- A text in a list of distinct ones is not among those in front of it.
middle_is_new :
    (k : Text) (ks more : List Text) → all_distinct (ks ++ k ∷ more) ≡ true → is_one_of k ks ≡ false
unfolding all_distinct
middle_is_new k [] more h = refl
middle_is_new k (j ∷ ks) more h = elim (Bool-cases (same k j)) [
  | inl e ↦
      let alike : k ≡ j = (same_iff k j).0 e in
      let repeated =
        subst (λ x. is_one_of x (ks ++ k ∷ more) ≡ true) alike (is_one_of-middle k ks more) in
      absurd (ground (arith, repeated))
  | inr e ↦ ground (arith, e, middle_is_new k ks more)
]

lookup-ids :
    (k : Text) (m : Dict Text ConnectionRecord)
    → AreKeyed m
    → is_one_of k (ids (values m)) ≡ false
    → lookup k m ≡ none
unfolding lookup IsUnder
lookup-ids k [] a h = refl
lookup-ids k ((j, r) ∷ m) (e, a) h = elim (Bool-cases (same j k)) [
  | inl found ↦
      let alike : k ≡ r.id = sym ((same_iff j k).0 found) ∙ e in
      absurd (ground (arith, subst (λ x. same k x ≡ true) alike (same_refl k)))
  | inr other ↦ rw other (lookup-ids k m a (ground arith))
]

-- A record whose id is new comes last.
pub values-insert :
    (r : ConnectionRecord) (m : Dict Text ConnectionRecord) (more : List ConnectionRecord)
    → AreKeyed m
    → all_distinct (ids (values m ++ r ∷ more)) ≡ true
    → values (insert r.id r m) ≡ values m ++ r ∷ []
values-insert r m more a h =
    let new = middle_is_new r.id (ids (values m)) (ids more) (
      subst (λ ks. all_distinct ks ≡ true)
        (map-append (λ (x : ConnectionRecord). x.id) (values m) (r ∷ more)) h) in
    ap values (insert_new r.id r m (lookup-ids r.id m a new)) ∙ values-append m r.id r

pub enter_all-AreKeyed :
    (rs : List ConnectionRecord) (m : Dict Text ConnectionRecord)
    → AreKeyed m
    → AreKeyed (enter_all rs m)
unfolding IsUnder
enter_all-AreKeyed [] m a = a
enter_all-AreKeyed (r ∷ rs) m a =
    enter_all-AreKeyed rs (insert r.id r m) (insert-Entries IsUnder r.id r m refl a)

pub values-enter_all :
    (rs : List ConnectionRecord) (m : Dict Text ConnectionRecord)
    → AreKeyed m
    → all_distinct (ids (values m ++ rs)) ≡ true
    → values (enter_all rs m) ≡ values m ++ rs
unfolding IsUnder
values-enter_all [] m a h = sym (append_nil (values m))
values-enter_all (r ∷ rs) m a h =
    let placed : values (insert r.id r m) ++ rs ≡ values m ++ r ∷ rs =
      ap (λ t. t ++ rs) (values-insert r m rs a h) ∙ append_assoc (values m) (r ∷ []) rs in
    values-enter_all rs (insert r.id r m) (insert-Entries IsUnder r.id r m refl a)
      (subst (λ t. all_distinct (ids t) ≡ true) (sym placed) h)
    ∙ placed

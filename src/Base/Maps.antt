-- ===== src/Base/Maps.antt =====
-- A JavaScript `Map`: entries in the order of insertion, each key once.
use mathlib.Core.Path.{◌≡◌, refl, sym, subst}
use mathlib.Core.Logic.{◌↔◌, inl, inr}
use mathlib.Core.Bool.{Bool, true}
use mathlib.Core.List.{List, [], ◌∷◌, ◌++◌, map, Memᴰ}
use mathlib.Core.Option.{Option, none, some}
use Prim.Native.Nat.{ℕ, suc}
use native.Mathlib.Omega.{arith}
use bb_shared.Base.Tests.{if◌then◌else◌, ◌==◌, ==_iff, Bool-cases, is_some}
use bb_shared.Base.Lists.{length, All}
use bb_shared.Base.Strings.{Text, same, same_iff}

-- The keys: `===` on a type whose values it tells apart.
pub record Eq {ℓ} (A : Type ℓ) : Type ℓ where
  pub beq : A → A → Bool
  pub beq_iff : (a b : A) → (beq a b ≡ true) ↔ (a ≡ b)

instance abbrev pub text_eq : Eq Text
text_eq = record { beq = same; beq_iff = same_iff }

instance abbrev pub nat_eq : Eq ℕ
nat_eq = record { beq = ◌==◌; beq_iff = ==_iff }

abbrev pub Dict {ℓ κ} : Type ℓ → Type κ → Type (ℓ ⊔ κ)
Dict K V = List (K × V)

abbrev pub values {ℓ κ} : {K : Type ℓ} {V : Type κ} → Dict K V → List V
values m = map (λ e. e.1) m

abbrev pub keys {ℓ κ} : {K : Type ℓ} {V : Type κ} → Dict K V → List K
keys m = map (λ e. e.0) m

module _ {ℓ κ} {K : Type ℓ} {V : Type κ} ⦃e : Eq K⦄ where
  unfoldable pub lookup : K → Dict K V → Option V
  lookup k [] = none
  lookup k ((j, v) ∷ m) = if e.beq j k then some v else lookup k m

  -- `set`: a present key keeps its place, a new one goes to the end.
  unfoldable pub insert : K → V → Dict K V → Dict K V
  insert k v [] = (k, v) ∷ []
  insert k v ((j, w) ∷ m) = if e.beq j k then (j, v) ∷ m else (j, w) ∷ insert k v m

  -- `delete`.
  unfoldable pub erase : K → Dict K V → Dict K V
  erase k [] = []
  erase k ((j, w) ∷ m) = if e.beq j k then erase k m else (j, w) ∷ erase k m

  abbrev pub has : K → Dict K V → Bool
  has k m = is_some (lookup k m)

  -- Every key stands once.
  abbrev pub IsDistinct : Dict K V → Type κ
  IsDistinct [] = Unit
  IsDistinct ((k, v) ∷ m) = (lookup k m ≡ none) × IsDistinct m

  pub lookup-insert :
      (k j : K) (v : V) (m : Dict K V)
      → lookup j (insert k v m) ≡ (if e.beq k j then some v else lookup j m)
  unfolding lookup insert
  lookup-insert k j v [] = refl
  lookup-insert k j v ((i, w) ∷ m) =
      ground (arith, e.beq_iff k j, e.beq_iff i k, e.beq_iff i j, lookup-insert k j v m)

  pub lookup-insert_self : (k : K) (v : V) (m : Dict K V) → lookup k (insert k v m) ≡ some v
  lookup-insert_self k v m = rw (lookup-insert k k v m, (e.beq_iff k k).1 refl)

  pub lookup-erase :
      (k j : K) (m : Dict K V) → lookup j (erase k m) ≡ (if e.beq k j then none else lookup j m)
  unfolding lookup erase
  lookup-erase k j [] = ground arith
  lookup-erase k j ((i, w) ∷ m) =
      ground (arith, e.beq_iff k j, e.beq_iff i k, e.beq_iff i j, lookup-erase k j m)

  pub lookup-erase_self : (k : K) (m : Dict K V) → lookup k (erase k m) ≡ none
  lookup-erase_self k m = rw (lookup-erase k k m, (e.beq_iff k k).1 refl)

  pub insert-IsDistinct : (k : K) (v : V) (m : Dict K V) → IsDistinct m → IsDistinct (insert k v m)
  unfolding lookup insert
  insert-IsDistinct k v [] h = (refl, tt)
  insert-IsDistinct k v ((j, w) ∷ m) (fresh, h) = elim (Bool-cases (e.beq j k)) [
    | inl hit ↦ rw hit (fresh, h)
    | inr miss ↦ rw miss (
      ground (arith, lookup-insert k j v m, e.beq_iff k j, e.beq_iff j k),
      insert-IsDistinct k v m h,
    )
  ]

  pub erase-IsDistinct : (k : K) (m : Dict K V) → IsDistinct m → IsDistinct (erase k m)
  unfolding erase
  erase-IsDistinct k [] h = tt
  erase-IsDistinct k ((j, w) ∷ m) (fresh, h) = elim (Bool-cases (e.beq j k)) [
    | inl hit ↦ rw hit (erase-IsDistinct k m h)
    | inr miss ↦ rw miss (ground (arith, lookup-erase k j m), erase-IsDistinct k m h)
  ]

  -- A predicate on the entries survives.
  module _ {ι} (P : K → V → Type ι) where
    abbrev pub Entries : Dict K V → Type ι
    Entries m = All (λ (p : K × V). P p.0 p.1) m

    pub insert-Entries : (k : K) (v : V) (m : Dict K V) → P k v → Entries m → Entries (insert k v m)
    unfolding insert
    insert-Entries k v [] p h = (p, tt)
    insert-Entries k v ((j, w) ∷ m) p (q, h) = elim (Bool-cases (e.beq j k)) [
      | inl hit ↦ rw hit (subst (λ i. P i v) (sym ((e.beq_iff j k).0 hit)) p, h)
      | inr miss ↦ rw miss (q, insert-Entries k v m p h)
    ]

    pub erase-Entries : (k : K) (m : Dict K V) → Entries m → Entries (erase k m)
    unfolding erase
    erase-Entries k [] h = tt
    erase-Entries k ((j, w) ∷ m) (q, h) = elim (Bool-cases (e.beq j k)) [
      | inl hit ↦ rw hit (erase-Entries k m h)
      | inr miss ↦ rw miss (q, erase-Entries k m h)
    ]

    pub lookup-Entries : (k : K) {v : V} (m : Dict K V) → Entries m → lookup k m ≡ some v → P k v
    unfolding lookup
    lookup-Entries k [] h found = cc
    lookup-Entries k {v} ((j, w) ∷ m) (q, h) found = elim (Bool-cases (e.beq j k)) [
      | inl hit ↦
          let same_key : j ≡ k = (e.beq_iff j k).0 hit in
          let same_value : w ≡ v = ground arith in
          subst (P k) same_value (subst (λ i. P i w) same_key q)
      | inr miss ↦ lookup-Entries k {v = v} m h (rw miss at found)
    ]

  pub length-insert_new :
      (k : K) (v : V) (m : Dict K V) → lookup k m ≡ none → length (insert k v m) ≡ suc (length m)
  unfolding lookup insert
  length-insert_new k v [] h = refl
  length-insert_new k v ((j, w) ∷ m) h = ground (arith, length-insert_new k v m)

  pub insert_new :
      (k : K) (v : V) (m : Dict K V) → lookup k m ≡ none → insert k v m ≡ m ++ (k, v) ∷ []
  unfolding lookup insert
  insert_new k v [] h = refl
  insert_new k v ((j, w) ∷ m) h = ground (arith, insert_new k v m)

  -- An entry of the map is what its key finds.
  pub lookup_of_mem :
      (k : K) (v : V) (m : Dict K V) → IsDistinct m → Memᴰ (k, v) m → lookup k m ≡ some v
  unfolding lookup
  lookup_of_mem k v [] d h = elim h [ ]
  lookup_of_mem k v ((j, w) ∷ m) d (Memᴰ.head same_entry) = ground (arith, e.beq_iff j k)
  lookup_of_mem k v ((j, w) ∷ m) (fresh, d) (Memᴰ.tail h) =
      ground (arith, e.beq_iff j k, lookup_of_mem k v m d h)

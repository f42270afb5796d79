-- ===== src/Base/Fill.antt =====
-- A `Map` that is filled from the entries of another in their order.
use mathlib.Core.Path.{◌≡◌, refl, sym, ap, ◌∙◌}
use mathlib.Core.List.{[], ◌∷◌, ◌++◌}
use mathlib.Core.Option.{none, some}
use native.Mathlib.Omega.{arith}
use bb_shared.Base.Tests.{if◌then◌else◌}
use bb_shared.Base.Lists.{All}
use bb_shared.Base.Maps.{Eq, Dict, lookup, insert, IsDistinct, insert_new}

module _ {ℓ κ} {K : Type ℓ} {V : Type κ} ⦃e : Eq K⦄ where
  unfoldable pub fill : Dict K V → Dict K V → Dict K V
  fill m [] = m
  fill m ((k, v) ∷ more) = fill (insert k v m) more

  -- No key of `more` stands in `m`.
  abbrev IsApart : Dict K V → Dict K V → Type κ
  IsApart m more = All (λ (p : K × V). lookup p.0 m ≡ none) more

  append_one_assoc :
      (m : Dict K V) (p : K × V) (more : Dict K V) → (m ++ p ∷ []) ++ more ≡ m ++ p ∷ more
  append_one_assoc [] p more = refl
  append_one_assoc (q ∷ m) p more = ap (◌∷◌ q) (append_one_assoc m p more)

  lookup-append_one :
      (j k : K) (v : V) (m : Dict K V)
      → lookup j (m ++ (k, v) ∷ [])
        ≡ (elim (lookup j m) [ none ↦ if e.beq k j then some v else none | some w ↦ some w ])
  unfolding lookup
  lookup-append_one j k v [] = refl
  lookup-append_one j k v ((i, w) ∷ m) = ground (arith, lookup-append_one j k v m)

  IsApart-step :
      (m : Dict K V) (k : K) (v : V) (more : Dict K V)
      → lookup k more ≡ none
      → IsApart m more
      → IsApart (m ++ (k, v) ∷ []) more
  unfolding lookup
  IsApart-step m k v [] fresh h = tt
  IsApart-step m k v ((j, w) ∷ more) fresh (p, h) = (
    ground (arith, p, lookup-append_one j k v m, e.beq_iff k j, e.beq_iff j k),
    IsApart-step m k v more (ground (arith, fresh)) h,
  )

  append_none : (m : Dict K V) → m ++ [] ≡ m
  append_none [] = refl
  append_none (p ∷ m) = ap (◌∷◌ p) (append_none m)

  fill-append : (m more : Dict K V) → IsApart m more → IsDistinct more → fill m more ≡ m ++ more
  unfolding fill
  fill-append m [] h d = sym (append_none m)
  fill-append m ((k, v) ∷ more) (p, h) (fresh, d) =
      ap (λ x. fill x more) (insert_new k v m p)
      ∙ (fill-append (m ++ (k, v) ∷ []) more (IsApart-step m k v more fresh h) d
          ∙ append_one_assoc m (k, v) more)

  all-IsApart : (m : Dict K V) → IsApart [] m
  unfolding lookup
  all-IsApart [] = tt
  all-IsApart (p ∷ m) = (refl, all-IsApart m)

  pub fill-nil : (m : Dict K V) → IsDistinct m → fill [] m ≡ m
  fill-nil m d = fill-append [] m (all-IsApart m) d

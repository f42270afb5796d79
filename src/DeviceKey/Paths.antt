-- ===== src/DeviceKey/Paths.antt =====
-- `getByPath` and `setByPath` of plugin/lib/device-key/record-crypto.ts, where the path leads to a
-- value: what is set is read, the last setting stays, and setting what is there changes nothing.
use bb_shared.Base.{
  ◌≡◌, refl, ap, List, [], ◌∷◌, some, Text, same, same_refl, inl, inr, arith, Bool-cases,
  Option-cases,
}
use bb_shared.Base.Json.{
  Json, null, obj, Fields, field, end, get_field, set_field, get_field-set_field,
}
use bb_shared.DeviceKey.{get_by_path, set_by_path}

set_field-set_field :
    (key : Text) (v w : Json) (fs : Fields)
    → set_field key v (set_field key w fs) ≡ set_field key v fs
unfolding set_field
set_field-set_field key v w end = ground (arith, same_refl key)
set_field-set_field key v w (field k x fs) = elim (Bool-cases (same k key)) [
  | inl hit ↦ rw (hit, hit) refl
  | inr miss ↦ rw (miss, miss) (ap (field k x) (set_field-set_field key v w fs))
]

set_field-get_field :
    (key : Text) (v : Json) (fs : Fields) → get_field key fs ≡ some v → set_field key v fs ≡ fs
unfolding get_field set_field
set_field-get_field key v end h = cc
set_field-get_field key v (field k x fs) h = elim (Bool-cases (same k key)) [
  | inl hit ↦ ground (arith, hit)
  | inr miss ↦ rw miss (ap (field k x) (set_field-get_field key v fs (rw miss at h)))
]

get_field_set : (key : Text) (v : Json) (fs : Fields) → get_field key (set_field key v fs) ≡ some v
get_field_set key v fs = rw (get_field-set_field key key v fs, same_refl key)

pub get_by_path-set_by_path :
    (segs : List Text) (new v : Json) {w : Json}
    → get_by_path segs v ≡ some w
    → get_by_path segs (set_by_path segs new v) ≡ some new
unfolding get_by_path set_by_path
get_by_path-set_by_path [] new v h = refl
get_by_path-set_by_path (seg ∷ []) new (obj fs) h = ground (arith, get_field_set seg new fs)
get_by_path-set_by_path (seg ∷ next ∷ segs) new (obj fs) {w} h =
    elim (Option-cases (get_field seg fs)) [
      | inl missing ↦ ground (arith, missing)
      | inr (x, found) ↦ ground (
        arith,
        found,
        get_field_set seg (set_by_path (next ∷ segs) new x) fs,
        get_by_path-set_by_path (next ∷ segs) new x {w = w},
      )
    ]
get_by_path-set_by_path (seg ∷ []) new null h = cc
get_by_path-set_by_path (seg ∷ []) new _ h = cc
get_by_path-set_by_path (seg ∷ next ∷ segs) new null h = cc
get_by_path-set_by_path (seg ∷ next ∷ segs) new _ h = cc

pub set_by_path-set_by_path :
    (segs : List Text) (a b v : Json) {w : Json}
    → get_by_path segs v ≡ some w
    → set_by_path segs a (set_by_path segs b v) ≡ set_by_path segs a v
unfolding get_by_path set_by_path
set_by_path-set_by_path [] a b v h = refl
set_by_path-set_by_path (seg ∷ []) a b (obj fs) h = ap obj (set_field-set_field seg a b fs)
set_by_path-set_by_path (seg ∷ next ∷ segs) a b (obj fs) {w} h =
    elim (Option-cases (get_field seg fs)) [
      | inl missing ↦ ground (arith, missing)
      | inr (x, found) ↦ ground (
        arith,
        found,
        get_field_set seg (set_by_path (next ∷ segs) b x) fs,
        set_by_path-set_by_path (next ∷ segs) a b x {w = w},
        set_field-set_field seg (set_by_path (next ∷ segs) a x) (set_by_path (next ∷ segs) b x) fs,
      )
    ]
set_by_path-set_by_path (seg ∷ []) a b null h = cc
set_by_path-set_by_path (seg ∷ []) a b _ h = cc
set_by_path-set_by_path (seg ∷ next ∷ segs) a b null h = cc
set_by_path-set_by_path (seg ∷ next ∷ segs) a b _ h = cc

pub set_by_path-get_by_path :
    (segs : List Text) (w v : Json) → get_by_path segs v ≡ some w → set_by_path segs w v ≡ v
unfolding get_by_path set_by_path
set_by_path-get_by_path [] w v h = ground arith
set_by_path-get_by_path (seg ∷ []) w (obj fs) h =
    ap obj (set_field-get_field seg w fs (ground arith))
set_by_path-get_by_path (seg ∷ next ∷ segs) w (obj fs) h = elim (Option-cases (get_field seg fs)) [
  | inl missing ↦ ground (arith, missing)
  | inr (x, found) ↦
      ground (arith, found, set_by_path-get_by_path (next ∷ segs) w x, set_field-get_field seg x fs)
]
set_by_path-get_by_path (seg ∷ []) w null h = cc
set_by_path-get_by_path (seg ∷ []) w _ h = cc
set_by_path-get_by_path (seg ∷ next ∷ segs) w null h = cc
set_by_path-get_by_path (seg ∷ next ∷ segs) w _ h = cc

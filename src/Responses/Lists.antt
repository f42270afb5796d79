-- ===== src/Responses/Lists.antt =====
-- Lists of JSON values, as plugin/guest-gateway/responses.ts filters and maps them.
use bb_shared.Base.{◌≡◌, refl, ap, ◌∙◌, Bool, true, ◌&&◌, inl, inr, arith, Bool-cases}
use bb_shared.Base.Json.{Json, Items, nil, cons}
use bb_shared.Responses.{filter_items, map_items}

abbrev pub all_items : (Json → Bool) → Items → Bool
all_items p nil = true
all_items p (cons v vs) = p v && all_items p vs

pub all_items-filter_items : (p : Json → Bool) (vs : Items) → all_items p (filter_items p vs) ≡ true
unfolding filter_items
all_items-filter_items p nil = refl
all_items-filter_items p (cons v vs) = elim (Bool-cases (p v)) [
  | inl kept ↦ ground (arith, kept, all_items-filter_items p vs)
  | inr left ↦ ground (arith, left, all_items-filter_items p vs)
]

-- What holds after the map, from what holds before it.
pub all_items-map_items :
    (p q : Json → Bool) (f : Json → Json) (vs : Items)
    → ((v : Json) → p v ≡ true → q (f v) ≡ true)
    → all_items p vs ≡ true
    → all_items q (map_items f vs) ≡ true
unfolding map_items
all_items-map_items p q f nil keep h = refl
all_items-map_items p q f (cons v vs) keep h =
    ground (arith, keep v, all_items-map_items p q f vs keep)

-- A value stands in the list.
pub data InItems (v : Json) : Items → Type 0 where
  here : {w : Json} {vs : Items} → w ≡ v → InItems v (cons w vs)
  later : {w : Json} {vs : Items} → InItems v vs → InItems v (cons w vs)

pub InItems-filter_items :
    (p : Json → Bool) (v : Json) (vs : Items)
    → p v ≡ true
    → InItems v vs
    → InItems v (filter_items p vs)
unfolding filter_items
InItems-filter_items p v nil h m = elim m [ ]
InItems-filter_items p v (cons w vs) h (here e) =
    let kept : p w ≡ true = ap p e ∙ h in rw kept (here e)
InItems-filter_items p v (cons w vs) h (later m) = elim (Bool-cases (p w)) [
  | inl kept ↦ rw kept (later (InItems-filter_items p v vs h m))
  | inr left ↦ rw left (InItems-filter_items p v vs h m)
]

pub InItems-map_items :
    (f : Json → Json) (v : Json) (vs : Items) → InItems v vs → InItems (f v) (map_items f vs)
unfolding map_items
InItems-map_items f v nil m = elim m [ ]
InItems-map_items f v (cons w vs) (here e) = here (ap f e)
InItems-map_items f v (cons w vs) (later m) = later (InItems-map_items f v vs m)

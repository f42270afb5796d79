-- ===== src/TokenStore/Labels.antt =====
-- plugin/lib/token-store.ts: the random labels of new tokens.
-- `rng()` is a sequence of draws, each a fraction `r / 2 ^ 53`, so that `Math.floor(rng() * n)` is
-- `r * n / 2 ^ 53`. The unbounded suffix loop takes fuel; the laws show how much is enough.
pub mod Laws
use bb_shared.Base.{
  ℕ, zero, suc, ◌+◌, ◌*◌, ◌/◌, ◌%◌, ◌^◌, List, [], ◌∷◌, ◌++◌, Option, none, some, Text, codes,
  get_or, length, is_one_of, if◌then◌else◌, ltb,
}

abbrev adjectives : List Text
adjectives =
    codes "brave"
    ∷ codes "silver"
    ∷ codes "gentle"
    ∷ codes "swift"
    ∷ codes "curious"
    ∷ codes "clever"
    ∷ codes "bright"
    ∷ codes "quiet"
    ∷ codes "sunny"
    ∷ codes "amber"
    ∷ codes "hazel"
    ∷ codes "cosy"
    ∷ codes "sturdy"
    ∷ codes "nimble"
    ∷ codes "eager"
    ∷ codes "merry"
    ∷ codes "keen"
    ∷ codes "warm"
    ∷ codes "olive"
    ∷ codes "azure"
    ∷ codes "ruby"
    ∷ codes "coral"
    ∷ codes "misty"
    ∷ codes "sleepy"
    ∷ []

abbrev animals : List Text
animals =
    codes "otter"
    ∷ codes "fox"
    ∷ codes "badger"
    ∷ codes "heron"
    ∷ codes "wren"
    ∷ codes "hare"
    ∷ codes "lynx"
    ∷ codes "owl"
    ∷ codes "seal"
    ∷ codes "mole"
    ∷ codes "stoat"
    ∷ codes "raven"
    ∷ codes "finch"
    ∷ codes "moth"
    ∷ codes "toad"
    ∷ codes "newt"
    ∷ codes "shrew"
    ∷ codes "sparrow"
    ∷ codes "beetle"
    ∷ codes "crow"
    ∷ codes "magpie"
    ∷ codes "gull"
    ∷ codes "kite"
    ∷ codes "vole"
    ∷ []

-- `Math.floor(rng() * n)`.
pub floor_scaled : ℕ → ℕ → ℕ
floor_scaled r n = r * n / 2 ^ 53

-- A read past the end is `undefined`, which the template prints.
pub random_label : ℕ → ℕ → Text
unfolding floor_scaled
random_label r s =
    get_or adjectives (floor_scaled r (length adjectives)) (codes "undefined")
    ++ (codes "-" ++ get_or animals (floor_scaled s (length animals)) (codes "undefined"))

-- `String(n)`.
digits : ℕ → ℕ → Text
digits zero n = []
digits (suc f) n =
    let high = digits f (n / 10) in if ltb n 10 then (48 + n) ∷ [] else high ++ (48 + n % 10) ∷ []

unfoldable pub decimal : ℕ → Text
unfolding digits
decimal n = digits (suc n) n

abbrev pub candidate : Text → ℕ → Text
candidate base i = base ++ (codes "-" ++ decimal i)

-- `for (let i = 2; ; i++)`; `none` when the fuel runs out.
unfoldable pub suffix_loop : ℕ → List Text → Text → ℕ → Option Text
suffix_loop zero taken base i = none
suffix_loop (suc f) taken base i =
    let rest = suffix_loop f taken base (i + 1) in
    if is_one_of (candidate base i) taken then rest else some (candidate base i)

-- The first loop: `left` attempts remain, and `k` draws are spent.
unfoldable pub attempt_loop : ℕ → List Text → (ℕ → ℕ) → ℕ → Option Text
attempt_loop zero taken rng k =
    suffix_loop (suc (length taken)) taken (random_label (rng k) (rng (k + 1))) 2
attempt_loop (suc left) taken rng k =
    let rest = attempt_loop left taken rng (k + 2) in
    let label = random_label (rng k) (rng (k + 1)) in
    if is_one_of label taken then rest else some label

unfoldable pub pick_unique_label : List Text → (ℕ → ℕ) → Option Text
unfolding attempt_loop suffix_loop random_label decimal
pick_unique_label taken rng = attempt_loop 32 taken rng 0

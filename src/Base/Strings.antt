-- ===== src/Base/Strings.antt =====
-- A JavaScript string is the list of its UTF-16 code units.
use Prim.Native.Nat.{ℕ}
use Prim.Native.Char.{code}
use Prim.Native.String.{String}
use mathlib.Core.Path.{◌≡◌, refl, sym, subst}
use mathlib.Core.Logic.{◌≢◌, ◌↔◌, inl, inr}
use mathlib.Core.Bool.{Bool, true, false, ◌&&◌, ◌||◌}
use mathlib.Core.List.{List, [], ◌∷◌}
use native.Mathlib.Omega.{arith}
use bb_shared.Base.Tests.{◌==◌, Bool-cases}
use bb_shared.Base.Lists.{All}

abbrev pub Text : Type 0
Text = List ℕ

-- A literal. All literals of the program are ASCII.
abbrev pub codes : String → Text
codes String.[] = []
codes (String.◌∷◌ c s) = code c ∷ codes s

-- `a === b`.
unfoldable pub same : Text → Text → Bool
same [] [] = true
same (a ∷ s) (b ∷ t) = (a == b) && same s t
same _ _ = false

pub same_iff : (s t : Text) → (same s t ≡ true) ↔ (s ≡ t)
unfolding same
same_iff [] [] = ground arith
same_iff [] (b ∷ t) = ground arith
same_iff (a ∷ s) [] = ground arith
same_iff (a ∷ s) (b ∷ t) = ground (arith, same_iff s t)

pub same_refl : (s : Text) → same s s ≡ true
same_refl s = (same_iff s s).1 refl

pub same-false : (s t : Text) → same s t ≡ false → s ≢ t
same-false s t h = ground (arith, same_iff s t)

-- `[...].includes(s)` and `new Set([...]).has(s)`.
abbrev pub is_one_of : Text → List Text → Bool
is_one_of s [] = false
is_one_of s (t ∷ ts) = same s t || is_one_of s ts

-- What holds of each entry holds of a text that is one of them.
pub is_one_of-All {κ} :
    (P : Text → Type κ) (s : Text) (ts : List Text) → All P ts → is_one_of s ts ≡ true → P s
is_one_of-All P s [] h m = cc
is_one_of-All P s (t ∷ ts) (p, h) m = elim (Bool-cases (same s t)) [
  | inl here ↦ subst P (sym ((same_iff s t).0 here)) p
  | inr elsewhere ↦ is_one_of-All P s ts h (ground arith)
]

-- `s.startsWith(p)`.
unfoldable pub starts_with : Text → Text → Bool
starts_with s [] = true
starts_with [] (b ∷ p) = false
starts_with (a ∷ s) (b ∷ p) = (a == b) && starts_with s p

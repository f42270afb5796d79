-- ===== src/Base/Chars.antt =====
-- The character classes and the string methods of JavaScript that the program calls.
use Prim.Native.Nat.{ℕ, ◌+◌, ◌-◌}
use mathlib.Core.Bool.{Bool, ◌&&◌, ◌||◌}
use mathlib.Core.List.{List, [], ◌∷◌, ◌++◌}
use bb_shared.Base.Tests.{leb, ◌==◌, if◌then◌else◌}
use bb_shared.Base.Lists.{length, drop}
use bb_shared.Base.Strings.{Text, codes, same}

-- White space and line terminators, as `trim` takes them.
pub is_space : ℕ → Bool
is_space c =
    (leb 9 c && leb c 13)
    || c == 32
    || c == 160
    || c == 0x1680
    || (leb 0x2000 c && leb c 0x200a)
    || c == 0x2028
    || c == 0x2029
    || c == 0x202f
    || c == 0x205f
    || c == 0x3000
    || c == 0xfeff

abbrev pub is_line_end : ℕ → Bool
is_line_end c = c == 10 || c == 13 || c == 0x2028 || c == 0x2029

pub drop_start : (ℕ → Bool) → Text → Text
drop_start p [] = []
drop_start p (c ∷ s) = if p c then drop_start p s else c ∷ s

abbrev pub cons_kept : (ℕ → Bool) → ℕ → Text → Text
cons_kept p c [] = if p c then [] else c ∷ []
cons_kept p c (d ∷ s) = c ∷ d ∷ s

-- Without the longest end on which `p` holds.
unfoldable pub drop_end : (ℕ → Bool) → Text → Text
drop_end p [] = []
drop_end p (c ∷ s) = cons_kept p c (drop_end p s)

unfoldable pub trim : Text → Text
unfolding drop_start drop_end is_space
trim s = drop_end is_space (drop_start is_space s)

-- The part before the first character of the class.
unfoldable pub until : (ℕ → Bool) → Text → Text
until p [] = []
until p (c ∷ s) = if p c then [] else c ∷ until p s

-- `toUpperCase`, exactly where the result is ASCII: the letters, and the few other characters whose
-- capitals are ASCII letters (the long s, the dotless i, the sharp s and the ligatures).
upper_unit : ℕ → Text
upper_unit c =
    if leb b'a' c && leb c b'z'
    then (c - 32) ∷ []
    else if c == 0x17f
    then codes "S"
    else if c == 0x131
    then codes "I"
    else if c == 0xdf
    then codes "SS"
    else if c == 0xfb00
    then codes "FF"
    else if c == 0xfb01
    then codes "FI"
    else if c == 0xfb02
    then codes "FL"
    else if c == 0xfb03
    then codes "FFI"
    else if c == 0xfb04
    then codes "FFL"
    else if c == 0xfb05 || c == 0xfb06
    then codes "ST"
    else c ∷ []

unfoldable pub to_upper_case : Text → Text
unfolding upper_unit
to_upper_case [] = []
to_upper_case (c ∷ s) = upper_unit c ++ to_upper_case s

-- A letter under the flag `i` of a regular expression: no other character folds to an ASCII letter.
abbrev pub fold_case : ℕ → ℕ
fold_case c = if leb b'A' c && leb c b'Z' then c + 32 else c

-- `s.endsWith(e)`.
unfoldable pub ends_with : Text → Text → Bool
ends_with s e = leb (length e) (length s) && same (drop (length s - length e) s) e

-- A letter or digit of base64url.
abbrev pub is_base64url : ℕ → Bool
is_base64url c =
    (leb b'A' c && leb c b'Z')
    || (leb b'a' c && leb c b'z')
    || (leb b'0' c && leb c b'9')
    || c == b'_'
    || c == b'-'

abbrev pub cons_head : ℕ → List Text → List Text
cons_head c [] = (c ∷ []) ∷ []
cons_head c (part ∷ parts) = (c ∷ part) ∷ parts

-- `s.split(c)` at one character.
unfoldable pub split : ℕ → Text → List Text
split at [] = [] ∷ []
split at (c ∷ s) = if c == at then [] ∷ split at s else cons_head c (split at s)

-- `parts.join(c)`.
unfoldable pub join : ℕ → List Text → Text
join at [] = []
join at (part ∷ []) = part
join at (part ∷ next ∷ parts) = part ++ (at ∷ join at (next ∷ parts))

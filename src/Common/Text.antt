-- ===== src/Common/Text.antt =====
-- `str` methods of the standard library, on native texts. White space is Unicode's White_Space.
use Prim.Native.Char.{Char, code}
use Prim.Native.Nat.{ℕ, ◌+◌}
use Prim.Native.String.{String, [], ◌∷◌}
use mathlib.Core.Bool.{Bool, true, false, ◌||◌, ◌&&◌}
use mathlib.Core.Option.{Option, none, some}
use mathlib.Core.Path.{◌≡◌, refl}
use helius.Common.Test.{leb, nat_beq, if◌then◌else◌}

-- char::is_whitespace
pub is_whitespace : Char → Bool
is_whitespace ch =
    let c = code ch in
    (leb 9 c && leb c 13)
    || nat_beq c 0x20
    || nat_beq c 0x85
    || nat_beq c 0xa0
    || nat_beq c 0x1680
    || (leb 0x2000 c && leb c 0x200a)
    || nat_beq c 0x2028
    || nat_beq c 0x2029
    || nat_beq c 0x202f
    || nat_beq c 0x205f
    || nat_beq c 0x3000

abbrev pub is_empty : String → Bool
is_empty [] = true
is_empty (c ∷ s) = false

trim_start : String → String
trim_start [] = []
trim_start (c ∷ s) = if is_whitespace c then trim_start s else c ∷ s

trim_end : String → String
trim_end [] = []
trim_end (c ∷ s) =
    let rest = trim_end s in if is_empty rest && is_whitespace c then [] else c ∷ rest

unfoldable pub trim : String → String
unfolding trim_start trim_end is_whitespace
trim s = trim_end (trim_start s)

unfoldable pub strip_prefix : String → String → Option String
strip_prefix [] s = some s
strip_prefix (p ∷ ps) [] = none
strip_prefix (p ∷ ps) (c ∷ s) = if nat_beq (code p) (code c) then strip_prefix ps s else none

-- The text of `{a}{b}` in a format string.
unfoldable pub append : String → String → String
append [] t = t
append (c ∷ s) t = c ∷ append s t

to_ascii_lowercase : Char → ℕ
to_ascii_lowercase ch = let c = code ch in if leb 65 c && leb c 90 then c + 32 else c

unfoldable pub eq_ignore_ascii_case : String → String → Bool
unfolding to_ascii_lowercase
eq_ignore_ascii_case [] [] = true
eq_ignore_ascii_case [] (c ∷ s) = false
eq_ignore_ascii_case (c ∷ s) [] = false
eq_ignore_ascii_case (c ∷ s) (d ∷ t) =
    nat_beq (to_ascii_lowercase c) (to_ascii_lowercase d) && eq_ignore_ascii_case s t

trim_both : trim " \tkey \n" ≡ "key"
unfolding trim
trim_both = refl

strip_bearer : strip_prefix "Bearer " "Bearer abc" ≡ some "abc"
unfolding strip_prefix
strip_bearer = refl

same_header : eq_ignore_ascii_case "X-Api-Key" "x-api-key" ≡ true
unfolding eq_ignore_ascii_case
same_header = refl

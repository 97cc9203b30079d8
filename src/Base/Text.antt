-- ===== src/Base/Text.antt =====
-- What the source uses of `str`, over the native text: the characters are Unicode scalar values.
pub mod Split
pub mod Decimal
pub mod Unsigned
pub mod Trim
use Prim.Native.Nat.{ℕ}
use Prim.Native.Char.{Char, code}
use Prim.Native.String.{String, ◌++◌}
use mathlib.Core.Bool.{Bool, true, false, ◌||◌, ◌&&◌}
use mathlib.Core.Option.{Option, none, some}
use mesh_pad.Base.Tests.{nat_beq, leb, if◌then◌else◌}

-- str::is_empty
abbrev pub is_empty : String → Bool
is_empty String.[] = true
is_empty (String.◌∷◌ c s) = false

-- whether a text has the character NUL
unfoldable pub has_nul : String → Bool
has_nul String.[] = false
has_nul (String.◌∷◌ c s) = nat_beq (code c) 0 || has_nul s

-- the concatenation that `format!` makes
abbrev pub concat : String → String → String
concat s t = s ++ t

abbrev cons_left : Char → Option (String × String) → Option (String × String)
cons_left c none = none
cons_left c (some (a, b)) = some (String.◌∷◌ c a, b)

-- str::split_once with a character, given by its code
unfoldable pub split_once : String → ℕ → Option (String × String)
split_once String.[] sep = none
split_once (String.◌∷◌ c s) sep =
    if nat_beq (code c) sep then some ("", s) else cons_left c (split_once s sep)

-- char::is_whitespace: the property White_Space of Unicode
unfoldable pub is_whitespace : ℕ → Bool
is_whitespace c =
    leb 0x9 c && leb c 0xd
    || nat_beq c 0x20
    || nat_beq c 0x85
    || nat_beq c 0xa0
    || nat_beq c 0x1680
    || leb 0x2000 c && leb c 0x200a
    || nat_beq c 0x2028
    || nat_beq c 0x2029
    || nat_beq c 0x202f
    || nat_beq c 0x205f
    || nat_beq c 0x3000

-- str::trim_start
unfoldable pub trim_start : String → String
trim_start String.[] = ""
trim_start (String.◌∷◌ c s) =
    let rest = trim_start s in if is_whitespace (code c) then rest else String.◌∷◌ c s

abbrev pub trim_cons : Char → String → String
trim_cons c String.[] = if is_whitespace (code c) then "" else String.◌∷◌ c ""
trim_cons c (String.◌∷◌ d s) = String.◌∷◌ c (String.◌∷◌ d s)

-- str::trim_end
unfoldable pub trim_end : String → String
trim_end String.[] = ""
trim_end (String.◌∷◌ c s) = trim_cons c (trim_end s)

-- str::trim
unfoldable pub trim : String → String
unfolding trim_start trim_end is_whitespace
trim s = trim_end (trim_start s)

-- str::strip_prefix
unfoldable pub strip_prefix : String → String → Option String
strip_prefix s String.[] = some s
strip_prefix String.[] (String.◌∷◌ p ps) = none
strip_prefix (String.◌∷◌ c s) (String.◌∷◌ p ps) =
    let rest = strip_prefix s ps in if nat_beq (code c) (code p) then rest else none

-- str::ends_with with a character
unfoldable pub ends_with : String → ℕ → Bool
ends_with String.[] sep = false
ends_with (String.◌∷◌ c String.[]) sep = nat_beq (code c) sep
ends_with (String.◌∷◌ c (String.◌∷◌ d s)) sep = ends_with (String.◌∷◌ d s) sep

-- ===== src/Base/Text/Trim.antt =====
-- What `trim` gives: a text that has no white space at its ends, which `trim` leaves as it is.
use Prim.Native.Char.{Char, code}
use Prim.Native.String.{String}
use mathlib.Core.Path.{◌≡◌, refl, ◌∙◌, ap}
use mathlib.Core.Logic.{inl, inr}
use mathlib.Core.Bool.{true, false}
use text.Mathlib.TextLemmas.{cons-append}
use mesh_pad.Base.Tests.{Bool-cases}
use mesh_pad.Base.Text.{concat, is_whitespace, trim_start, trim_cons, trim_end, trim, ends_with}

abbrev pub StartsSolid : String → Type 0
StartsSolid String.[] = Unit
StartsSolid (String.◌∷◌ c s) = is_whitespace (code c) ≡ false

abbrev pub EndsSolid : String → Type 0
EndsSolid String.[] = Unit
EndsSolid (String.◌∷◌ c String.[]) = is_whitespace (code c) ≡ false
EndsSolid (String.◌∷◌ c (String.◌∷◌ d s)) = EndsSolid (String.◌∷◌ d s)

trim_start-StartsSolid : (s : String) → StartsSolid (trim_start s)
unfolding trim_start
trim_start-StartsSolid String.[] = tt
trim_start-StartsSolid (String.◌∷◌ c s) = elim (Bool-cases (is_whitespace (code c))) [
  | inl white ↦ rw white (trim_start-StartsSolid s)
  | inr solid ↦ rw solid solid
]

trim_cons-EndsSolid : (c : Char) (s : String) → EndsSolid s → EndsSolid (trim_cons c s)
trim_cons-EndsSolid c String.[] h = elim (Bool-cases (is_whitespace (code c))) [
  | inl white ↦ rw white tt
  | inr solid ↦ rw solid solid
]
trim_cons-EndsSolid c (String.◌∷◌ d s) h = h

trim_end-EndsSolid : (s : String) → EndsSolid (trim_end s)
unfolding trim_end
trim_end-EndsSolid String.[] = tt
trim_end-EndsSolid (String.◌∷◌ c s) = trim_cons-EndsSolid c (trim_end s) (trim_end-EndsSolid s)

trim_cons-StartsSolid :
    (c : Char) (s : String) → is_whitespace (code c) ≡ false → StartsSolid (trim_cons c s)
trim_cons-StartsSolid c String.[] h = rw h h
trim_cons-StartsSolid c (String.◌∷◌ d s) h = h

trim_end-StartsSolid : (s : String) → StartsSolid s → StartsSolid (trim_end s)
unfolding trim_end
trim_end-StartsSolid String.[] h = tt
trim_end-StartsSolid (String.◌∷◌ c s) h = trim_cons-StartsSolid c (trim_end s) h

pub trim-StartsSolid : (s : String) → StartsSolid (trim s)
unfolding trim
trim-StartsSolid s = trim_end-StartsSolid (trim_start s) (trim_start-StartsSolid s)

pub trim-EndsSolid : (s : String) → EndsSolid (trim s)
unfolding trim
trim-EndsSolid s = trim_end-EndsSolid (trim_start s)

trim_start_solid : (s : String) → StartsSolid s → trim_start s ≡ s
unfolding trim_start
trim_start_solid String.[] h = refl
trim_start_solid (String.◌∷◌ c s) h = rw h refl

trim_end_solid : (s : String) → EndsSolid s → trim_end s ≡ s
unfolding trim_end
trim_end_solid String.[] h = refl
trim_end_solid (String.◌∷◌ c String.[]) h = rw h refl
trim_end_solid (String.◌∷◌ c (String.◌∷◌ d s)) h =
    ap (trim_cons c) (trim_end_solid (String.◌∷◌ d s) h)

pub trim_solid : (s : String) → StartsSolid s → EndsSolid s → trim s ≡ s
unfolding trim
trim_solid s h k = ap trim_end (trim_start_solid s h) ∙ trim_end_solid s k

-- A text with a slash behind it.
pub StartsSolid-concat : (s : String) → StartsSolid s → StartsSolid (concat s "/")
unfolding is_whitespace
StartsSolid-concat String.[] h = refl
StartsSolid-concat (String.◌∷◌ c s) h = rw cons-append h

pub EndsSolid-concat : (s : String) → EndsSolid (concat s "/")
unfolding is_whitespace
EndsSolid-concat String.[] = refl
EndsSolid-concat (String.◌∷◌ c String.[]) = rw cons-append refl
EndsSolid-concat (String.◌∷◌ c (String.◌∷◌ d s)) =
    let rest = EndsSolid-concat (String.◌∷◌ d s) in
    rw cons-append (rw cons-append (rw cons-append at rest))

pub ends_with-concat : (s : String) → ends_with (concat s "/") b'/' ≡ true
unfolding ends_with
ends_with-concat String.[] = refl
ends_with-concat (String.◌∷◌ c String.[]) = rw cons-append refl
ends_with-concat (String.◌∷◌ c (String.◌∷◌ d s)) =
    let rest = ends_with-concat (String.◌∷◌ d s) in
    rw cons-append (rw cons-append (rw cons-append at rest))

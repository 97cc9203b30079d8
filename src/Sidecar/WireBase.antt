-- ===== src/Sidecar/WireBase.antt =====
-- sidecar.rs: normalize_wire_base.
use mesh_pad.Base.{◌≡◌, refl, String, true, if◌then◌else◌, Bool-cases, inl, inr}
use mesh_pad.Base.Text.{concat, trim, ends_with}
use mesh_pad.Base.Text.Trim.{
  StartsSolid-concat, EndsSolid-concat, trim-StartsSolid, trim-EndsSolid, trim_solid,
  ends_with-concat,
}

unfoldable pub normalize_wire_base : String → String
unfolding trim ends_with
normalize_wire_base base =
    let trimmed = trim base in if ends_with trimmed b'/' then trimmed else concat trimmed "/"

-- A normalized base ends with a slash, and to normalize it again changes nothing.
pub normalize_wire_base_lem :
    (base : String)
    → (ends_with (normalize_wire_base base) b'/' ≡ true)
      × (normalize_wire_base (normalize_wire_base base) ≡ normalize_wire_base base)
unfolding normalize_wire_base
normalize_wire_base_lem base = elim (Bool-cases (ends_with (trim base) b'/')) [
  | inl slash ↦ rw slash (
    slash,
    rw (trim_solid (trim base) (trim-StartsSolid base) (trim-EndsSolid base)) (rw slash refl),
  )
  | inr plain ↦ rw plain (
    ends_with-concat (trim base),
    rw
        (trim_solid (concat (trim base) "/")
          (StartsSolid-concat (trim base) (trim-StartsSolid base)) (EndsSolid-concat (trim base)))
        (rw (ends_with-concat (trim base)) refl),
  )
]

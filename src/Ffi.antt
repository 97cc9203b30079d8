-- ===== src/Ffi.antt =====
-- ffi.rs: what its calls share. A C string is its text, or bytes that are not UTF-8; a pointer that
-- may be null is an option.
pub mod Direct
pub mod Embedded
use mesh_pad.Base.{ℕ, ◌≡◌, String, Bool, Option, none, some, [], ◌∷◌, is_some, if◌then◌else◌}
use mesh_pad.Base.Text.{has_nul, strip_prefix}
use mesh_pad.External.Json.{Json}
use mesh_pad.External.JsonText.{JsonText}

-- `i32`, for the return codes
pub data ℤ : Type 0 where
  pos negsuc : ℕ → ℤ

pub data CText : Type 0 where
  text : String → CText
  invalid : CText

-- meshpad_ffi_version
abbrev pub version : String
version = "meshpad_p2p_native/0.1.0"

unfoldable pub version_check : Option CText → ℤ
unfolding strip_prefix
version_check none = negsuc 0
version_check (some invalid) = negsuc 0
version_check (some (text s)) =
    if is_some (strip_prefix s "meshpad_p2p_native/") then pos 0 else negsuc 0

-- `CString::new(text).map(|c| c.into_raw()).unwrap_or(null_mut())`
unfoldable pub into_raw : String → Option String
unfolding has_nul
into_raw s = if has_nul s then none else some s

module _ ⦃json : Json⦄ ⦃texts : JsonText json.Value⦄ where
  open json use {Value, object, string}

  unfoldable pub json_ptr : Value → Option String
  unfolding into_raw
  json_ptr value = into_raw (texts.to_text value)

  abbrev pub error_value : String → Value
  error_value message = object (("error", string message) ∷ [])

  unfoldable pub error_ptr : String → Option String
  unfolding json_ptr
  error_ptr message = json_ptr (error_value message)

  -- A value that is handed out is never null: no text that serde_json prints has a NUL.
  pub json_ptr_text : (value : Value) → json_ptr value ≡ some (texts.to_text value)
  unfolding json_ptr into_raw
  json_ptr_text value = rw (texts.to_text-no_nul value)

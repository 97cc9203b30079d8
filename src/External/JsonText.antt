-- ===== src/External/JsonText.antt =====
-- serde_json: the text of a value, and the value of a text or what the error prints. The printer escapes control characters: no text has a NUL.
use mesh_pad.Base.{◌≡◌, String, false, Result}
use mesh_pad.Base.Text.{has_nul}

pub record JsonText (Value : Type 0) : Type 0 where
  pub to_text : Value → String
  pub from_text : String → Result Value String
  pub to_text-no_nul : (v : Value) → has_nul (to_text v) ≡ false

-- ===== src/External/Base64.antt =====
-- The `base64` crate: the engine `STANDARD`. Its errors are not looked at by the source.
use mesh_pad.Base.{ℕ, ◌<◌, ◌≡◌, String, Option, some, List, []}

-- u8
pub record Byte : Type 0 where
  pub value : ℕ
  pub in_range : value < 256

pub record Base64 : Type 0 where
  pub encode : List Byte → String
  pub decode : String → Option (List Byte)
  -- the text of no bytes is empty, and a text decodes to what it encodes
  pub decode-encode : (bytes : List Byte) → decode (encode bytes) ≡ some bytes
  pub encode-nil : encode [] ≡ ""

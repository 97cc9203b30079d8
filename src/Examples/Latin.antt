-- ===== src/Examples/Latin.antt =====
-- A codec that meets the laws of the interface: one character for each byte.
use Prim.Native.Nat.{compare, Ordering}
use Prim.Native.Char.{Char, code, IsScalar}
use native.Mathlib.Bridge.{le_prop}
use native.Mathlib.Decide.{dec_lt}
use mesh_pad.Base.{ℕ, ◌<◌, ◌≡◌, refl, ap, String, Option, none, some, List, [], ◌∷◌, arith}
use mesh_pad.External.Base64.{Byte, Base64}

abbrev pub byte : (n : ℕ) → n < 256 → Byte
byte n h = record { value = n; in_range = h }

pub scalar : (n : ℕ) → n < 256 → IsScalar n
scalar n h = let small : compare n 55296 ≡ Ordering.lt = ground arith in rw small tt

abbrev pub letter : Byte → Char
letter b = Char.char b.value (scalar b.value b.in_range)

abbrev pub latin_encode : List Byte → String
latin_encode [] = ""
latin_encode (b ∷ bytes) = String.◌∷◌ (letter b) (latin_encode bytes)

abbrev pub byte_at : (n : ℕ) → Dec (n < 256) → Option Byte
byte_at n (yes h) = some (byte n h)
byte_at n (no _) = none

abbrev pub push_byte : Option Byte → Option (List Byte) → Option (List Byte)
push_byte none rest = none
push_byte (some b) none = none
push_byte (some b) (some bytes) = some (b ∷ bytes)

abbrev pub latin_decode : String → Option (List Byte)
latin_decode String.[] = some []
latin_decode (String.◌∷◌ c s) = push_byte (byte_at (code c) (dec_lt (code c) 256)) (latin_decode s)

pub byte_at-letter : (b : Byte) (d : Dec (b.value < 256)) → byte_at b.value d ≡ some b
byte_at-letter b (yes h) = ap (λ (p : b.value < 256). some (byte b.value p)) (le_prop h b.in_range)
byte_at-letter b (no h) = absurd (h b.in_range)

pub latin_law : (bytes : List Byte) → latin_decode (latin_encode bytes) ≡ some bytes
latin_law [] = refl
latin_law (b ∷ bytes) = rw (byte_at-letter b (dec_lt b.value 256), latin_law bytes)

instance abbrev pub latin : Base64
latin = record {
  encode = latin_encode;
  decode = latin_decode;
  decode-encode = latin_law;
  encode-nil = refl;
}

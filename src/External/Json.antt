-- ===== src/External/Json.antt =====
-- serde_json: the type `Value` with what the source uses of it. `null`, `bool`, `number`, `string`,
-- `array` and `object` are what `json!` builds; a key that is repeated in an object keeps its last
-- value.
use mesh_pad.Base.{
  ℕ, ◌^◌, ◌<◌, ◌≡◌, String, Bool, Option, none, some, List, [], ◌∷◌, ◌==◌, string_key,
  if◌then◌else◌, or_else,
}

module _ {V : Type 0} where
  abbrev pub field : String → List (String × V) → Option V
  field k [] = none
  field k ((j, v) ∷ fs) = or_else (field k fs) (if j == k then some v else none)

pub record Json : Type 1 where
  pub Value : Type 0
  -- `serde_json::Map`
  pub Fields : Type 0
  pub null : Value
  pub bool : Bool → Value
  pub number : ℕ → Value
  pub string : String → Value
  pub array : List Value → Value
  pub object : List (String × Value) → Value
  pub get : Value → String → Option Value
  pub as_str : Value → Option String
  pub as_u64 : Value → Option ℕ
  pub as_array : Value → Option (List Value)
  pub as_object : Value → Option Fields
  pub fields_of : List (String × Value) → Fields
  pub get_field : Fields → String → Option Value
  pub get-object : (fs : List (String × Value)) (k : String) → get (object fs) k ≡ field k fs
  pub as_object-object : (fs : List (String × Value)) → as_object (object fs) ≡ some (fields_of fs)
  pub get_field-fields_of :
      (fs : List (String × Value)) (k : String) → get_field (fields_of fs) k ≡ field k fs
  pub as_str-string : (s : String) → as_str (string s) ≡ some s
  pub as_u64-number : (n : ℕ) → n < 2 ^ 64 → as_u64 (number n) ≡ some n
  pub as_array-array : (vs : List Value) → as_array (array vs) ≡ some vs

-- ===== src/WireProtocol/Encoding.antt =====
-- wire_protocol.rs: the JSON of the messages, by their attributes: `tag = "op"` and
-- `rename_all = "snake_case"`. A field that the message does not have is not looked at.
use mesh_pad.Base.{
  ℕ, ◌<◌, ◌≡◌, refl, String, Option, none, some, List, [], ◌∷◌, map, ◌>>=◌, ◌==◌, string_key,
  if◌then◌else◌, ltb, u32_mod, arith,
}
use mesh_pad.External.Json.{Json}
use mesh_pad.WireProtocol.{WireRequest, WireResponse}

module _ ⦃json : Json⦄ where
  open json use {Value, string, number, array, object, get, as_str, as_u64, as_array}

  -- A message: its tag, and its fields.
  abbrev tagged : String → List (String × Value) → Value
  tagged op fields = object (("op", string op) ∷ fields)

  unfoldable pub request_json : WireRequest Value → Value
  request_json (WireRequest.hello peer_id display_name) =
      tagged "hello" (("peer_id", string peer_id) ∷ ("display_name", string display_name) ∷ [])
  request_json WireRequest.get_catalog = tagged "get_catalog" []
  request_json (WireRequest.pull note_ids) =
      tagged "pull" (("note_ids", array (map string note_ids)) ∷ [])
  request_json (WireRequest.push snapshot) = tagged "push" (("snapshot", snapshot) ∷ [])
  request_json WireRequest.get_batch = tagged "get_batch" []
  request_json (WireRequest.push_batch batch) = tagged "push_batch" (("batch", batch) ∷ [])

  unfoldable pub response_json : WireResponse Value → Value
  response_json WireResponse.hello_ack = tagged "hello_ack" []
  response_json (WireResponse.catalog heads) = tagged "catalog" (("heads", array heads) ∷ [])
  response_json (WireResponse.pull notes) = tagged "pull" (("notes", array notes) ∷ [])
  response_json WireResponse.push_ack = tagged "push_ack" []
  response_json (WireResponse.batch batch) = tagged "batch" (("batch", batch) ∷ [])
  response_json (WireResponse.batch_ack imported) =
      tagged "batch_ack" (("imported", number imported) ∷ [])
  response_json (WireResponse.error message) = tagged "error" (("message", string message) ∷ [])

  abbrev text_of : Value → String → Option String
  text_of v name = do f ← get v name; as_str f

  abbrev with_text : Option String → Option (List String) → Option (List String)
  with_text none rest = none
  with_text (some s) none = none
  with_text (some s) (some rest) = some (s ∷ rest)

  abbrev texts_of : List Value → Option (List String)
  texts_of [] = some []
  texts_of (v ∷ vs) = with_text (as_str v) (texts_of vs)

  -- a `u32`
  abbrev u32_of : ℕ → Option ℕ
  u32_of n = if ltb n u32_mod then some n else none

  abbrev request_tagged : Value → String → Option (WireRequest Value)
  request_tagged v op =
      if op == "hello"
      then (do
        peer_id ← text_of v "peer_id"
        display_name ← text_of v "display_name"
        some (WireRequest.hello peer_id display_name))
      else if op == "get_catalog"
      then some WireRequest.get_catalog
      else if op == "pull"
      then (do
        f ← get v "note_ids"
        vs ← as_array f
        ids ← texts_of vs
        some (WireRequest.pull ids))
      else if op == "push"
      then (do snapshot ← get v "snapshot"; some (WireRequest.push snapshot))
      else if op == "get_batch"
      then some WireRequest.get_batch
      else if op == "push_batch"
      then (do batch ← get v "batch"; some (WireRequest.push_batch batch))
      else none

  unfoldable pub request_of : Value → Option (WireRequest Value)
  request_of v = do op ← text_of v "op"; request_tagged v op

  abbrev response_tagged : Value → String → Option (WireResponse Value)
  response_tagged v op =
      if op == "hello_ack"
      then some WireResponse.hello_ack
      else if op == "catalog"
      then (do f ← get v "heads"; heads ← as_array f; some (WireResponse.catalog heads))
      else if op == "pull"
      then (do f ← get v "notes"; notes ← as_array f; some (WireResponse.pull notes))
      else if op == "push_ack"
      then some WireResponse.push_ack
      else if op == "batch"
      then (do batch ← get v "batch"; some (WireResponse.batch batch))
      else if op == "batch_ack"
      then (do
        f ← get v "imported"
        n ← as_u64 f
        imported ← u32_of n
        some (WireResponse.batch_ack imported))
      else if op == "error"
      then (do message ← text_of v "message"; some (WireResponse.error message))
      else none

  unfoldable pub response_of : Value → Option (WireResponse Value)
  response_of v = do op ← text_of v "op"; response_tagged v op

  texts_of_strings : (ids : List String) → texts_of (map string ids) ≡ some ids
  texts_of_strings [] = refl
  texts_of_strings (id ∷ ids) = rw (json.as_str-string id, texts_of_strings ids) refl

  -- A request is read back from its JSON.
  pub request_of-request_json : (r : WireRequest Value) → request_of (request_json r) ≡ some r
  unfolding request_of request_json
  request_of-request_json (WireRequest.hello peer_id display_name) =
      simp (json.get-object, json.as_str-string)
  request_of-request_json WireRequest.get_catalog = simp (json.get-object, json.as_str-string)
  request_of-request_json (WireRequest.pull ids) =
      simp (json.get-object, json.as_str-string, json.as_array-array, texts_of_strings)
  request_of-request_json (WireRequest.push snapshot) = simp (json.get-object, json.as_str-string)
  request_of-request_json WireRequest.get_batch = simp (json.get-object, json.as_str-string)
  request_of-request_json (WireRequest.push_batch batch) =
      simp (json.get-object, json.as_str-string)

  -- The number of a BatchAck is a `u32`; any other response is as it is.
  abbrev pub IsSent : WireResponse Value → Type 0
  IsSent (WireResponse.batch_ack imported) = imported < u32_mod
  IsSent _ = Unit

  u32_of-lt : (n : ℕ) → n < u32_mod → u32_of n ≡ some n
  u32_of-lt n h = ground (arith, h)

  -- A response is read back from its JSON, where its count is a 32-bit number.
  pub response_of-response_json :
      (r : WireResponse Value) → IsSent r → response_of (response_json r) ≡ some r
  unfolding response_of response_json
  response_of-response_json WireResponse.hello_ack h = simp (json.get-object, json.as_str-string)
  response_of-response_json (WireResponse.catalog heads) h =
      simp (json.get-object, json.as_str-string, json.as_array-array)
  response_of-response_json (WireResponse.pull notes) h =
      simp (json.get-object, json.as_str-string, json.as_array-array)
  response_of-response_json WireResponse.push_ack h = simp (json.get-object, json.as_str-string)
  response_of-response_json (WireResponse.batch batch) h =
      simp (json.get-object, json.as_str-string)
  response_of-response_json (WireResponse.batch_ack n) h =
      simp (
        json.get-object,
        json.as_str-string,
        json.as_u64-number n (omega (arith, h)),
        u32_of-lt n h,
      )
  response_of-response_json (WireResponse.error message) h =
      simp (json.get-object, json.as_str-string)

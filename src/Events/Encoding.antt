-- ===== src/Events/Encoding.antt =====
-- events.rs: the JSON of an event, by its attributes: `kind` is renamed to `type`, and an optional
-- field that is none is skipped.
use mesh_pad.Base.{
  ℕ, ◌≡◌, refl, sym, ◌∙◌, String, Option, none, some, List, [], ◌∷◌, or_else, or_else-none, ◌==◌,
  string_key, if◌then◌else◌, Bool-cases, inl, inr,
}
use mesh_pad.External.Json.{Json, field}
use mesh_pad.Events.{SidecarEvent}

module _ ⦃json : Json⦄ where
  open json use {Value, string, number, object}

  -- the fields that are not skipped
  unfoldable pub written : List (String × Option Value) → List (String × Value)
  written [] = []
  written ((name, none) ∷ rest) = written rest
  written ((name, some v) ∷ rest) = (name, v) ∷ written rest

  abbrev pub text : Option String → Option Value
  text none = none
  text (some s) = some (string s)

  abbrev pub count : Option ℕ → Option Value
  count none = none
  count (some n) = some (number n)

  abbrev pub event_fields : SidecarEvent → List (String × Option Value)
  event_fields e =
      ("type", some (string e.kind))
      ∷ ("peer_id", text e.peer_id)
      ∷ ("display_name", text e.display_name)
      ∷ ("note_count", count e.note_count)
      ∷ ("message", text e.message)
      ∷ ("lan_host", text e.lan_host)
      ∷ ("http_port", count e.http_port)
      ∷ ("tls_port", count e.tls_port)
      ∷ ("wire_base", text e.wire_base)
      ∷ []

  unfoldable pub event_json : SidecarEvent → Value
  unfolding written
  event_json e = object (written (event_fields e))

  abbrev listed : String → List (String × Option Value) → Option Value
  listed name [] = none
  listed name ((n, v) ∷ rest) =
      let later = listed name rest in if n == name then or_else later v else later

  field-written :
      (name : String) (fields : List (String × Option Value))
      → field name (written fields) ≡ listed name fields
  unfolding written
  field-written name [] = refl
  field-written name ((n, none) ∷ rest) = elim (Bool-cases (n == name)) [
    | inl same ↦ rw (same, field-written name rest) (sym (or_else-none (listed name rest)))
    | inr other ↦ rw (other, field-written name rest) refl
  ]
  field-written name ((n, some v) ∷ rest) = elim (Bool-cases (n == name)) [
    | inl same ↦ rw (same, field-written name rest) refl
    | inr other ↦ rw (other, field-written name rest) (or_else-none (listed name rest))
  ]

  -- A client reads from the JSON of an event its kind under `type`, and each other field under its
  -- name where the event has it; where not, it reads nothing there.
  pub get-event_json :
      (e : SidecarEvent)
      → (json.get (event_json e) "type" ≡ some (string e.kind))
        × (json.get (event_json e) "kind" ≡ none)
        × (json.get (event_json e) "peer_id" ≡ text e.peer_id)
        × (json.get (event_json e) "display_name" ≡ text e.display_name)
        × (json.get (event_json e) "note_count" ≡ count e.note_count)
        × (json.get (event_json e) "message" ≡ text e.message)
        × (json.get (event_json e) "lan_host" ≡ text e.lan_host)
        × (json.get (event_json e) "http_port" ≡ count e.http_port)
        × (json.get (event_json e) "tls_port" ≡ count e.tls_port)
        × (json.get (event_json e) "wire_base" ≡ text e.wire_base)
  unfolding event_json
  get-event_json e =
      let fields = event_fields e in
      let read : (name : String) → json.get (event_json e) name ≡ listed name fields =
        λ name. json.get-object (written fields) name ∙ field-written name fields in
      (
        read "type",
        read "kind",
        read "peer_id",
        read "display_name",
        read "note_count",
        read "message",
        read "lan_host",
        read "http_port",
        read "tls_port",
        read "wire_base",
      )

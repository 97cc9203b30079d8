-- ===== src/SidecarApi/Router/Extraction.antt =====
-- axum's extractor `Json` beside the parse of a body in dispatch_json.
use mesh_pad.Base.{
  Bool, true, ◌&&◌, leb, ◌≡◌, refl, String, false, Option, none, some, Result, ok, err, ok_or_else,
  string_key, arith, inl, inr, Bool-cases,
}
use mesh_pad.External.Json.{Json}
use mesh_pad.External.Base64.{Base64}
use mesh_pad.External.Libp2p.{Libp2p}
use mesh_pad.External.Http.{Http}
use mesh_pad.External.Serde.{Serde}
use mesh_pad.External.Tokio.{Tokio}
use mesh_pad.External.Axum.{Axum, HttpBody, read_ok, read_value}
use mesh_pad.Sidecar.{System, Async, Outcome, done, waiting}
use mesh_pad.SidecarApi.Dispatch.{parse_body, with_body}
use mesh_pad.SidecarApi.Router.{Handler, Response, answered, no_handler, rejected, extracted}

module _ ⦃json : Json⦄ ⦃base64 : Base64⦄ ⦃libp2p : Libp2p json.Value⦄ ⦃http : Http json.Value⦄
    ⦃serde : Serde⦄ ⦃tokio : Tokio⦄ where
  open json use {Value}

  -- A response has the value of a result, or both are refusals.
  abbrev pub SameReply : Response Value → Result Value String → Type 0
  SameReply (answered code v) (ok w) = v ≡ w
  SameReply no_handler (err e) = Unit
  SameReply rejected (err e) = Unit
  SameReply _ _ = ⊥

  -- Both end with the same reply, or both wait; the sidecar and the world are the same after both.
  abbrev pub SameOutcome : Outcome (Response Value) → Outcome (Result Value String) → Type 0
  SameOutcome (done r s) (done q s') = SameReply r q × (s ≡ s')
  SameOutcome (waiting s) (waiting s') = s ≡ s'
  SameOutcome _ _ = ⊥

  -- What a body comes to, where it is read and where it is refused.
  abbrev pub AnswersAlike :
      Bool → System → Outcome (Response Value) → Outcome (Result Value String) → Type 0
  AnswersAlike true s o o' = SameOutcome o o'
  AnswersAlike false s o o' = o ≡ done rejected s

  pub alike :
      (fits : Bool) (s : System) (o : Outcome (Response Value)) (o' : Outcome (Result Value String))
      → (fits ≡ true → SameOutcome o o')
      → (fits ≡ false → o ≡ done rejected s)
      → AnswersAlike fits s o o'
  alike true s o o' same refused = same refl
  alike false s o o' same refused = refused refl

  -- what `Json` does not refuse at once
  abbrev pub is_read : HttpBody Value → Bool
  is_read body = body.json_type && leb body.bytes 2097152

  extracted-with_body :
      {T : Type 0} (r : Result T String) (f : T → Async (Response Value))
      (g : T → Async (Result Value String)) (s : System)
      → ((b : T) → SameOutcome (f b s) (g b s))
      → SameOutcome (extracted (read_ok r) f s) (with_body r g s)
  extracted-with_body (ok b) f g s h = h b
  extracted-with_body (err e) f g s h = (tt, refl)

  read_value-parse_body :
      {T : Type 0} (read : Value → Result T String) (value : Option Value)
      → read_value read value ≡ read_ok (parse_body read value)
  read_value-parse_body read none = refl
  read_value-parse_body read (some v) = refl

  read_value-ok :
      (value : Option Value) (missing : String)
      → read_value ok value ≡ read_ok {T = Value} (ok_or_else value missing)
  read_value-ok none missing = refl
  read_value-ok (some v) missing = refl

  module _ ⦃axum : Axum Value Handler⦄ where
    pub read-with_body :
        {T : Type 0} (read : Value → Result T String) (body : HttpBody Value)
        (f : T → Async (Response Value)) (g : T → Async (Result Value String)) (s : System)
        → is_read body ≡ true
        → ((b : T) → SameOutcome (f b s) (g b s))
        → SameOutcome
            (extracted (axum.extract read body) f s)
            (with_body (parse_body read body.value) g s)
    read-with_body read body f g s fits h =
        rw (axum.extract-read read body (ground (arith, fits)) (ground (arith, fits))) (
          rw (read_value-parse_body read body.value)
            (extracted-with_body (parse_body read body.value) f g s h))

    pub batch-with_body :
        (body : HttpBody Value) (missing : String) (f : Value → Async (Response Value))
        (g : Value → Async (Result Value String)) (s : System)
        → is_read body ≡ true
        → ((b : Value) → SameOutcome (f b s) (g b s))
        → SameOutcome
            (extracted (axum.extract ok body) f s)
            (with_body (ok_or_else body.value missing) g s)
    batch-with_body body missing f g s fits h =
        rw (axum.extract-read ok body (ground (arith, fits)) (ground (arith, fits))) (
          rw (read_value-ok body.value missing)
            (extracted-with_body (ok_or_else body.value missing) f g s h))

    extract-none :
        {T : Type 0} (read : Value → Result T String) (body : HttpBody Value)
        → is_read body ≡ false
        → axum.extract read body ≡ none
    extract-none read body refused = elim (Bool-cases body.json_type) [
      | inl typed ↦ axum.extract-large read body (ground (arith, refused, typed))
      | inr untyped ↦ axum.extract-untyped read body untyped
    ]

    pub unread :
        {T : Type 0} (read : Value → Result T String) (body : HttpBody Value)
        (f : T → Async (Response Value)) (s : System)
        → is_read body ≡ false
        → extracted (axum.extract read body) f s ≡ done rejected s
    unread read body f s refused = rw (extract-none read body refused) refl

-- ===== src/SidecarApi/RoundTrip.antt =====
-- What a client pushes by one request it pulls by another.
use mesh_pad.Base.{
  ◌≤◌, ◌≡◌, ◌≢◌, refl, ◌∙◌, unwrap_or, filter_map, ap, String, none, some, List, [], ◌∷◌, map,
  Result, ok, arith, string_key, length,
}
use mesh_pad.External.Json.{Json}
use mesh_pad.External.Base64.{Byte, Base64}
use mesh_pad.External.Libp2p.{Libp2p}
use mesh_pad.External.Http.{Http}
use mesh_pad.External.Serde.{Serde}
use mesh_pad.External.Tokio.{Tokio}
use mesh_pad.HashMap.Laws.{get-insert_self}
use mesh_pad.WireStore
use mesh_pad.WireStore.{note_id_from_snapshot}
use mesh_pad.AttachmentStore
use mesh_pad.AttachmentStore.{max_attachment_bytes}
use mesh_pad.AttachmentStore.Upsert.{is_empty_iff}
use mesh_pad.Sidecar.{System, Outcome, system_of, done}
use mesh_pad.SidecarApi.{
  wire_push_json, wire_pull_json, wire_attachment_push_json, wire_attachment_pull_json,
}
use mesh_pad.SidecarApi.Sync.{Environment}
use mesh_pad.SidecarApi.Dispatch.{post, handle, dispatch_json}

module _ ⦃json : Json⦄ ⦃base64 : Base64⦄ ⦃libp2p : Libp2p json.Value⦄ ⦃http : Http json.Value⦄
    ⦃serde : Serde⦄ ⦃tokio : Tokio⦄ where
  open json use {Value, object, array, string}

  abbrev pub push_body : Value → Value
  push_body snapshot = object (("snapshot", snapshot) ∷ [])

  abbrev pub pull_body : List String → Value
  pull_body ids = object (("note_ids", array (map string ids)) ∷ [])

  -- A snapshot with an id that a client pushes comes back when it pulls that id, and the pull
  -- changes nothing.
  pub pull-push :
      (env : Environment) (s : System) (snapshot : Value) (id : String)
      → note_id_from_snapshot snapshot ≡ some id
      → let s' = system_of (dispatch_json env post "/v1/wire/push" (some (push_body snapshot)) s) in
        (v : Value) × (dispatch_json env post "/v1/wire/pull" (some (pull_body (id ∷ []))) s'
          ≡ done (ok v) s')
        × (json.get v "notes" ≡ some (array (snapshot ∷ [])))
  unfolding dispatch_json handle wire_push_json wire_pull_json WireStore.upsert WireStore.pull
      filter_map
  pull-push env s snapshot id e =
      rw (serde.wire_push-object (("snapshot", snapshot) ∷ []) snapshot refl refl) (
        rw
          (serde.wire_pull-object (("note_ids", array (map string (id ∷ []))) ∷ []) (id ∷ []) refl
            refl)
          (rw e (_, refl, rw (json.get-object, get-insert_self))))

  abbrev pub attachment_push_body : String → String → String → Value
  attachment_push_body note_id name text =
      object
        (("note_id", string note_id) ∷ ("name", string name) ∷ ("bytes_base64", string text) ∷ [])

  abbrev pub attachment_pull_body : String → String → Value
  attachment_pull_body note_id name =
      object (("note_id", string note_id) ∷ ("name", string name) ∷ [])

  -- Two requests: the push of a text as an attachment, and the pull of that attachment.
  module _ (env : Environment) (s : System) (note_id name text : String) where
    abbrev pub pushed_attachment : System
    pushed_attachment = system_of (
        dispatch_json env post "/v1/wire/attachment/push"
          (some (attachment_push_body note_id name text)) s)

    abbrev pub pulled_attachment : Outcome (Result Value String)
    pulled_attachment =
        dispatch_json env post "/v1/wire/attachment/pull" (some (attachment_pull_body note_id name))
          pushed_attachment

  stored_attachment :
      (env : Environment) (s : System) (note_id name text : String) (bytes : List Byte)
      → note_id ≢ ""
      → name ≢ ""
      → length bytes ≤ max_attachment_bytes
      → unwrap_or (base64.decode text) [] ≡ bytes
      → AttachmentStore.get
          (pushed_attachment env s note_id name text).state.attachments
          note_id
          name
        ≡ some bytes
  unfolding dispatch_json handle wire_attachment_push_json AttachmentStore.get
      AttachmentStore.upsert
  stored_attachment env s note_id name text bytes filled named small decoded =
      rw
        (serde.attachment_push-object
          (("note_id", string note_id) ∷ ("name", string name) ∷ ("bytes_base64", string text) ∷ [])
          note_id name text refl refl refl refl)
        (rw decoded (
          ground (
            arith,
            is_empty_iff note_id,
            is_empty_iff name,
            get-insert_self s.state.attachments.blobs (AttachmentStore.attachment_key note_id name)
                bytes,
          )))

  pulled_lem :
      (env : Environment) (s : System) (note_id name text : String) (bytes : List Byte)
      → AttachmentStore.get
          (pushed_attachment env s note_id name text).state.attachments
          note_id
          name
        ≡ some bytes
      → (v : Value) × (pulled_attachment env s note_id name text
          ≡ done (ok v) (pushed_attachment env s note_id name text))
        × (json.get v "bytes_base64" ≡ some (string (base64.encode bytes)))
  unfolding dispatch_json handle wire_attachment_pull_json
  pulled_lem env s note_id name text bytes stored =
      rw
        (serde.attachment_pull-object (("note_id", string note_id) ∷ ("name", string name) ∷ [])
          note_id name refl refl refl)
        (rw stored (_, refl, rw json.get-object refl))

  -- Bytes that a client pushes as an attachment with a note id and a name, at most 16 MiB of them,
  -- come back in their base64 text when it pulls that attachment, and the pull changes nothing.
  pub attachment_pull-push :
      (env : Environment) (s : System) (note_id name : String) (bytes : List Byte)
      → note_id ≢ ""
      → name ≢ ""
      → length bytes ≤ max_attachment_bytes
      → let text = base64.encode bytes in
        (v : Value) × (pulled_attachment env s note_id name text
          ≡ done (ok v) (pushed_attachment env s note_id name text))
        × (json.get v "bytes_base64" ≡ some (string text))
  attachment_pull-push env s note_id name bytes filled named small =
      pulled_lem env s note_id name (base64.encode bytes) bytes (
        stored_attachment env s note_id name (base64.encode bytes) bytes filled named small
          (ap (λ o. unwrap_or o []) (base64.decode-encode bytes)))

  -- A text that is not base64, pushed as an attachment with a note id and a name, takes the place of
  -- the bytes that were stored: a pull then gives the text of no bytes.
  pub attachment_pull-push_undecodable :
      (env : Environment) (s : System) (note_id name text : String)
      → note_id ≢ ""
      → name ≢ ""
      → base64.decode text ≡ none
      → (v : Value) × (pulled_attachment env s note_id name text
          ≡ done (ok v) (pushed_attachment env s note_id name text))
        × (json.get v "bytes_base64" ≡ some (string ""))
  attachment_pull-push_undecodable env s note_id name text filled named broken =
      let (v, pulled, bytes) = pulled_lem env s note_id name text [] (
        stored_attachment env s note_id name text [] filled named (omega arith)
          (ap (λ o. unwrap_or o []) broken)) in
      (v, pulled, bytes ∙ ap (λ t. some (string t)) base64.encode-nil)

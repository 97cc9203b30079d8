-- ===== src/SidecarApi.antt =====
-- sidecar_api.rs: the routes of the sidecar, as functions from JSON to JSON.
pub mod Sync
pub mod Dispatch
pub mod Keyed
pub mod Exchange
pub mod SyncHttp
pub mod RoundTrip
pub mod Router
pub mod Lifecycle
pub mod SyncLibp2p
pub mod NoSwarm
pub mod Stall
use mesh_pad.Base.{
  ℕ, String, Bool, true, false, Option, none, some, List, [], ◌∷◌, map, Result, ok, err, unwrap_or,
  is_some, if◌then◌else◌,
}
use mesh_pad.External.Json.{Json}
use mesh_pad.External.Base64.{Byte, Base64}
use mesh_pad.External.Libp2p.{Libp2p}
use mesh_pad.WireStore
use mesh_pad.AttachmentStore
use mesh_pad.WireBatch.{import_batch, export_batch}
use mesh_pad.P2p.{P2pConfig}
use mesh_pad.P2p.Loop.{Input}
use mesh_pad.Sidecar.{P2pController, RuntimeState, SidecarState, default_tls_port}
use mesh_pad.Sidecar.Requests.{
  StartRequest, WirePushRequest, WirePullRequest, WireAttachmentPushRequest,
  WireAttachmentPullRequest,
}
use mesh_pad.Sidecar.Ports.{default_lan_http_port}
use mesh_pad.Sidecar.Controller.{Await, spawn, controller_stop}

module _ ⦃json : Json⦄ where
  open json use {Value, null, string}

  -- an `Option<String>` in `json!`
  abbrev pub optional : Option String → Value
  optional none = null
  optional (some s) = string s

-- `if accepted { "accepted" } else { "ignored" }`
abbrev pub accepted_text : Bool → String
accepted_text accepted = if accepted then "accepted" else "ignored"

module _ ⦃json : Json⦄ ⦃base64 : Base64⦄ ⦃libp2p : Libp2p json.Value⦄ where
  open json use {Value, bool, number, string, array, object}
  open base64 use {encode, decode}
  open libp2p use {Swarm}

  unfoldable pub health_json : SidecarState → Value
  health_json s = object (
      ("status", string "ok")
      ∷ ("backend", string "rust-libp2p")
      ∷ ("running", bool s.inner.running)
      ∷ ("wire_notes", number (WireStore.len s.wire))
      ∷ ("wire_attachments", number (AttachmentStore.len s.attachments))
      ∷ ("libp2p", bool (is_some s.inner.p2p))
      ∷ ("http_port", number s.http_port)
      ∷ ("transport", string "ffi_direct")
      ∷ [])

  -- The P2pConfig of a start; `variable` is MESHPAD_DEFAULT_PEER_WIRE_PORT.
  abbrev pub start_config : SidecarState → Option String → P2pConfig
  start_config s variable = record {
    http_listen_port = s.http_port;
    default_lan_http_port = default_lan_http_port variable;
    default_tls_port = default_tls_port;
  }

  -- A controller that was there is dropped, and its loop ends with it.
  unfoldable pub start_json :
      (String → Option Swarm) → Option String → SidecarState → StartRequest → Value × SidecarState
  unfolding spawn default_lan_http_port
  start_json build variable s body = (
    object (("status", string "started") ∷ ("libp2p", bool true) ∷ []),
    record s {
      inner = record {
        peer_id = some body.peer_id;
        display_name = body.display_name;
        running = true;
        p2p = some (spawn build s body.peer_id body.display_name (start_config s variable));
      };
    },
  )

  unfoldable pub stop_json : List Input → SidecarState → Value × SidecarState
  unfolding controller_stop
  stop_json meanwhile s = (
    object (("status", string "stopped") ∷ []),
    controller_stop meanwhile s.inner.p2p
        (record s { inner = record s.inner { running = false; p2p = none } }),
  )

  unfoldable pub wire_catalog_json : SidecarState → Value
  wire_catalog_json s = array (WireStore.catalog_heads s.wire)

  unfoldable pub wire_push_json : SidecarState → WirePushRequest Value → Value × SidecarState
  wire_push_json s body =
      let (accepted, wire') = WireStore.upsert s.wire body.snapshot in
      (
        object (
            ("status", string (accepted_text accepted))
            ∷ ("backend", string "rust-libp2p")
            ∷ ("lan_fallback", bool false)
            ∷ ("peer_id", optional body.peer_id)
            ∷ []),
        record s { wire = wire' },
      )

  unfoldable pub wire_pull_json : SidecarState → WirePullRequest → Value
  wire_pull_json s body = object (
      ("status", string "ok")
      ∷ ("backend", string "rust-libp2p")
      ∷ ("lan_fallback", bool false)
      ∷ ("peer_id", optional body.peer_id)
      ∷ ("note_ids", array (map string body.note_ids))
      ∷ ("notes", array (WireStore.pull s.wire body.note_ids))
      ∷ [])

  unfoldable pub wire_batch_export_json : SidecarState → Value
  wire_batch_export_json s = export_batch s.wire s.attachments

  unfoldable pub wire_batch_import_json : SidecarState → Value → Value × SidecarState
  wire_batch_import_json s body =
      let r = import_batch body s.wire s.attachments in
      (
        object (
            ("status", string "ok")
            ∷ ("backend", string "rust-libp2p")
            ∷ ("lan_fallback", bool false)
            ∷ ("imported", number r.count)
            ∷ []),
        record s { wire = r.wire; attachments = r.attachments },
      )

  unfoldable pub wire_attachment_push_json :
      SidecarState → WireAttachmentPushRequest → Value × SidecarState
  wire_attachment_push_json s body =
      let bytes = unwrap_or (decode body.bytes_base64) [] in
      let (accepted, attachments') =
        AttachmentStore.upsert s.attachments body.note_id body.name bytes in
      (
        object (
            ("status", string (accepted_text accepted))
            ∷ ("backend", string "rust-libp2p")
            ∷ ("lan_fallback", bool false)
            ∷ ("peer_id", optional body.peer_id)
            ∷ []),
        record s { attachments = attachments' },
      )

  abbrev pub attachment_reply : WireAttachmentPullRequest → Option (List Byte) → Value
  attachment_reply body none = object (
      ("status", string "not_found")
      ∷ ("backend", string "rust-libp2p")
      ∷ ("lan_fallback", bool false)
      ∷ [])
  attachment_reply body (some bytes) = object (
      ("status", string "ok")
      ∷ ("backend", string "rust-libp2p")
      ∷ ("lan_fallback", bool false)
      ∷ ("note_id", string body.note_id)
      ∷ ("name", string body.name)
      ∷ ("bytes_base64", string (encode bytes))
      ∷ [])

  unfoldable pub wire_attachment_pull_json :
      SidecarState → WireAttachmentPullRequest → Result Value String
  wire_attachment_pull_json s body =
      ok (attachment_reply body (AttachmentStore.get s.attachments body.note_id body.name))

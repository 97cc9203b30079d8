-- ===== src/External/Serde.antt =====
-- serde: the deserializers that `derive` makes for the bodies of requests, and what their errors
-- print. A field of type `Option` or with a default may be missing.
use mesh_pad.Base.{◌≡◌, String, none, some, List, map, Result, ok}
use mesh_pad.External.Json.{Json, field}
use mesh_pad.Sidecar.Requests.{
  StartRequest, SyncRequest, WirePushRequest, WirePullRequest, WireAttachmentPushRequest,
  WireAttachmentPullRequest, default_display_name,
}

pub record Serde ⦃json : Json⦄ : Type 1 where
  pub start_request : json.Value → Result StartRequest String
  pub sync_request : json.Value → Result SyncRequest String
  pub wire_push_request : json.Value → Result (WirePushRequest json.Value) String
  pub wire_pull_request : json.Value → Result WirePullRequest String
  pub attachment_push_request : json.Value → Result WireAttachmentPushRequest String
  pub attachment_pull_request : json.Value → Result WireAttachmentPullRequest String
  -- `Vec<Value>`
  pub values : json.Value → Result (List json.Value) String
  pub values-array : (vs : List json.Value) → values (json.array vs) ≡ ok vs
  pub start-object :
      (fs : List (String × json.Value)) (id : String)
      → field "peer_id" fs ≡ some (json.string id)
      → field "display_name" fs ≡ none
      → start_request (json.object fs)
        ≡ ok (record { peer_id = id; display_name = default_display_name })
  pub wire_push-object :
      (fs : List (String × json.Value)) (v : json.Value)
      → field "peer_id" fs ≡ none
      → field "snapshot" fs ≡ some v
      → wire_push_request (json.object fs) ≡ ok (record { peer_id = none; snapshot = v })
  pub wire_pull-object :
      (fs : List (String × json.Value)) (ids : List String)
      → field "peer_id" fs ≡ none
      → field "note_ids" fs ≡ some (json.array (map json.string ids))
      → wire_pull_request (json.object fs) ≡ ok (record { peer_id = none; note_ids = ids })
  pub attachment_push-object :
      (fs : List (String × json.Value)) (note_id name text : String)
      → field "peer_id" fs ≡ none
      → field "note_id" fs ≡ some (json.string note_id)
      → field "name" fs ≡ some (json.string name)
      → field "bytes_base64" fs ≡ some (json.string text)
      → attachment_push_request (json.object fs)
        ≡ ok (record { peer_id = none; note_id = note_id; name = name; bytes_base64 = text })
  pub attachment_pull-object :
      (fs : List (String × json.Value)) (note_id name : String)
      → field "peer_id" fs ≡ none
      → field "note_id" fs ≡ some (json.string note_id)
      → field "name" fs ≡ some (json.string name)
      → attachment_pull_request (json.object fs)
        ≡ ok (record { peer_id = none; note_id = note_id; name = name })

-- ===== src/Sidecar/Requests.antt =====
-- sidecar.rs: the bodies of the requests.
use mesh_pad.Base.{String, Option, List}

pub record StartRequest : Type 0 where
  pub peer_id : String
  pub display_name : String

pub record SyncRequest : Type 0 where
  pub peer_id : Option String
  pub remote_wire_base : Option String

pub record WirePushRequest (Value : Type 0) : Type 0 where
  pub peer_id : Option String
  pub snapshot : Value

pub record WirePullRequest : Type 0 where
  pub peer_id : Option String
  pub note_ids : List String

pub record WireAttachmentPushRequest : Type 0 where
  pub peer_id : Option String
  pub note_id : String
  pub name : String
  pub bytes_base64 : String

pub record WireAttachmentPullRequest : Type 0 where
  pub peer_id : Option String
  pub note_id : String
  pub name : String

abbrev pub default_display_name : String
default_display_name = "MeshPad"

-- ===== src/Events.antt =====
-- events.rs: what the sidecar reports to its clients.
pub mod Encoding
pub mod Receiver
use mesh_pad.Base.{ℕ, String, Option, none, some}

pub record SidecarEvent : Type 0 where
  pub kind : String
  pub peer_id : Option String
  pub display_name : Option String
  pub note_count : Option ℕ
  pub message : Option String
  pub lan_host : Option String
  pub http_port : Option ℕ
  pub tls_port : Option ℕ
  pub wire_base : Option String

abbrev pub sync_completed : String → ℕ → SidecarEvent
sync_completed peer_id note_count = record {
  kind = "sync_completed";
  peer_id = some peer_id;
  display_name = none;
  note_count = some note_count;
  message = none;
  lan_host = none;
  http_port = none;
  tls_port = none;
  wire_base = none;
}

abbrev pub peer_discovered :
    String → String → Option String → Option ℕ → Option ℕ → Option String → SidecarEvent
peer_discovered peer_id display_name lan_host http_port tls_port wire_base = record {
  kind = "peer_discovered";
  peer_id = some peer_id;
  display_name = some display_name;
  note_count = none;
  message = none;
  lan_host = lan_host;
  http_port = http_port;
  tls_port = tls_port;
  wire_base = wire_base;
}

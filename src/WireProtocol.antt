-- ===== src/WireProtocol.antt =====
-- wire_protocol.rs: the messages that two sidecars exchange over libp2p.
pub mod Encoding
use mesh_pad.Base.{ℕ, String, List}

-- WIRE_PROTOCOL
abbrev pub wire_protocol : String
wire_protocol = "/meshpad/wire/1.0.0"

pub data WireRequest (Value : Type 0) : Type 0 where
  hello : String → String → WireRequest Value
  get_catalog : WireRequest Value
  pull : List String → WireRequest Value
  push : Value → WireRequest Value
  get_batch : WireRequest Value
  push_batch : Value → WireRequest Value

pub data WireResponse (Value : Type 0) : Type 0 where
  hello_ack : WireResponse Value
  catalog : List Value → WireResponse Value
  pull : List Value → WireResponse Value
  push_ack : WireResponse Value
  batch : Value → WireResponse Value
  batch_ack : ℕ → WireResponse Value
  error : String → WireResponse Value

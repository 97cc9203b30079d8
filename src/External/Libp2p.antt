-- ===== src/External/Libp2p.antt =====
-- libp2p: the swarm with its request-response behaviour. The swarm is opaque; its operations return
-- the new swarm, and a result that the source drops (`.ok()`) is not returned.
use mesh_pad.Base.{HashKey, String, List}
use mesh_pad.WireProtocol.{WireRequest, WireResponse}

-- A component of a multiaddress; an IP address is given as it is printed.
pub data Protocol : Type 0 where
  ip4 : String → Protocol
  ip6 : String → Protocol
  other : Protocol

pub record Libp2p (Value : Type 0) : Type 1 where
  pub PeerId : Type 0
  pub peer_key : HashKey PeerId
  -- OutboundRequestId
  pub RequestId : Type 0
  pub request_key : HashKey RequestId
  -- ResponseChannel
  pub Channel : Type 0
  pub Multiaddr : Type 0
  pub Swarm : Type 0
  pub protocols : Multiaddr → List Protocol
  pub with_p2p : Multiaddr → PeerId → Multiaddr
  pub connected_addresses : Swarm → PeerId → List Multiaddr
  pub dial : Swarm → Multiaddr → Swarm
  pub send_request : Swarm → PeerId → WireRequest Value → RequestId × Swarm
  pub send_response : Swarm → Channel → WireResponse Value → Swarm
  -- The request ids that the swarm has given out. An id is given out once.
  pub Issued : Swarm → RequestId → Type 0
  pub send_request-fresh :
      (s : Swarm) (p : PeerId) (r : WireRequest Value) → ¬ Issued s (send_request s p r).0
  pub send_request-issues :
      (s : Swarm) (p : PeerId) (r : WireRequest Value)
      → Issued (send_request s p r).1 (send_request s p r).0
  pub send_request-keeps :
      (s : Swarm) (p : PeerId) (r : WireRequest Value) (id : RequestId)
      → Issued s id
      → Issued (send_request s p r).1 id
  pub dial-keeps : (s : Swarm) (a : Multiaddr) (id : RequestId) → Issued s id → Issued (dial s a) id
  pub send_response-keeps :
      (s : Swarm) (c : Channel) (r : WireResponse Value) (id : RequestId)
      → Issued s id
      → Issued (send_response s c r) id

-- ===== src/Examples/Network.antt =====
-- A swarm that meets the laws of the interface: the number of the next request is all of it, a peer is
-- a number, and every peer has one address.
use mesh_pad.Base.{ℕ, ◌+◌, ◌<◌, [], ◌∷◌, nat_key, arith}
use mesh_pad.External.Libp2p.{Libp2p, ip4, other}
use mesh_pad.Examples.Trees.{Tree}

instance abbrev pub network : Libp2p Tree
network = record {
  PeerId = ℕ;
  peer_key = nat_key;
  RequestId = ℕ;
  request_key = nat_key;
  Channel = ℕ;
  Multiaddr = ℕ;
  Swarm = ℕ;
  protocols = λ a. other ∷ ip4 "10.0.0.7" ∷ [];
  with_p2p = λ a p. a;
  connected_addresses = λ s p. p ∷ [];
  dial = λ s a. s;
  send_request = λ s p r. (s, s + 1);
  send_response = λ s c r. s;
  Issued = λ s id. id < s;
  send_request-fresh = λ s p r h. omega (arith, h);
  send_request-issues = λ s p r. omega arith;
  send_request-keeps = λ s p r id h. omega (arith, h);
  dial-keeps = λ s a id h. h;
  send_response-keeps = λ s c r id h. h;
}

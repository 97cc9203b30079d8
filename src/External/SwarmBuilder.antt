-- ===== src/External/SwarmBuilder.antt =====
-- libp2p: the stages of a swarm's construction, up to the address that it listens on. An error is
-- what it prints.
use mesh_pad.Base.{ℕ, String, Result}

pub record SwarmBuilder (Swarm : Type 0) : Type 1 where
  pub Keypair : Type 0
  -- a builder with an identity, tokio, tcp, noise and yamux
  pub Tcp : Type 0
  pub Mdns : Type 0
  pub Identify : Type 0
  -- the request-response behaviour of a protocol, in both directions
  pub Wire : Type 0
  pub with_tcp : Keypair → Result Tcp String
  pub mdns : Keypair → Result Mdns String
  pub identify : String → Keypair → Identify
  pub wire : String → Wire
  -- the build with a behaviour and a timeout in seconds for idle connections
  pub build : Tcp → Mdns → Identify → Wire → ℕ → Swarm
  pub listen_on : Swarm → String → Result Swarm String

-- ===== src/Examples/Builders.antt =====
-- The construction of a swarm: a concrete function for each stage. A key is whether mDNS works with
-- it, and a swarm is the number of its next request.
use mesh_pad.Base.{ℕ, ◌≡◌, refl, String, Bool, true, false, none, some, inr, Result, ok, err}
use mesh_pad.External.SwarmBuilder.{SwarmBuilder}
use mesh_pad.P2p.Build.{build_swarm, built, built-none}

abbrev mdns_of : Bool → Result Bool String
mdns_of true = ok true
mdns_of false = err "no network interface"

instance abbrev pub stages : SwarmBuilder ℕ
stages = record {
  Keypair = Bool;
  Tcp = Bool;
  Mdns = Bool;
  Identify = String;
  Wire = String;
  with_tcp = ok;
  mdns = mdns_of;
  identify = λ agent_version key. agent_version;
  wire = λ protocol. protocol;
  build = λ tcp mdns identify wire timeout. 0;
  listen_on = λ swarm address. ok swarm;
}

builds : built {Swarm = ℕ} true "meshpad/peer-a/A" ≡ some 0
unfolding built build_swarm
builds = refl

fails : (agent_version : String) → built {Swarm = ℕ} false agent_version ≡ none
fails agent_version = built-none false agent_version "no network interface" (inr refl)

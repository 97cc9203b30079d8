-- ===== src/P2p/Build.antt =====
-- p2p.rs: the construction of the swarm in run_swarm. The key pair that `generate_ed25519` draws is
-- given.
use mesh_pad.Base.{◌≡◌, ◌⊎◌, inl, inr, refl, String, Option, none, some, Result, ok, err}
use mesh_pad.Base.Try.{◌>>=◌}
use mesh_pad.External.SwarmBuilder.{SwarmBuilder}
use mesh_pad.WireProtocol.{wire_protocol}

pub record MeshpadBehaviour (Mdns Identify Wire : Type 0) : Type 0 where
  pub mdns : Mdns
  pub identify : Identify
  pub wire : Wire

module _ (Swarm : Type 0) ⦃builder : SwarmBuilder Swarm⦄ where
  open builder use {Keypair, Mdns, Identify, Wire}

  -- the closure of `with_behaviour`
  abbrev pub behaviour : String → Keypair → Result (MeshpadBehaviour Mdns Identify Wire) String
  behaviour agent_version key = do
    mdns ← builder.mdns key
    ok (record {
      mdns = mdns;
      identify = builder.identify agent_version key;
      wire = builder.wire wire_protocol;
    })

module _ {Swarm : Type 0} ⦃builder : SwarmBuilder Swarm⦄ where
  open builder use {Keypair}

  unfoldable pub build_swarm : Keypair → String → Result Swarm String
  build_swarm key agent_version = do
    tcp ← builder.with_tcp key
    b ← behaviour Swarm agent_version key
    builder.listen_on (builder.build tcp b.mdns b.identify b.wire 90) "/ip4/0.0.0.0/tcp/0"

  abbrev swarm_of : Result Swarm String → Option Swarm
  swarm_of (ok swarm) = some swarm
  swarm_of (err e) = none

  -- The swarm that the loop runs with, if any: an error is logged, and the task of the loop ends.
  unfoldable pub built : Keypair → String → Option Swarm
  unfolding build_swarm
  built key agent_version = swarm_of (build_swarm key agent_version)

  -- No swarm, where TCP or mDNS cannot be set up.
  pub built-none :
      (key : Keypair) (agent_version error : String)
      → (builder.with_tcp key ≡ err error) ⊎ (builder.mdns key ≡ err error)
      → built key agent_version ≡ none
  unfolding built build_swarm
  built-none key agent_version error (inl e) = rw e
  built-none key agent_version error (inr e) = at_tcp (builder.with_tcp key)
    where
      at_tcp :
          (tcp : Result builder.Tcp String)
          → swarm_of (
              tcp >>= λ t. behaviour Swarm agent_version key >>= λ b.
              builder.listen_on (builder.build t b.mdns b.identify b.wire 90) "/ip4/0.0.0.0/tcp/0")
            ≡ none
      at_tcp (ok t) = rw e
      at_tcp (err m) = refl

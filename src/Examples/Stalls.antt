-- ===== src/Examples/Stalls.antt =====
-- A sync that has no end, at a concrete sidecar.
use mesh_pad.Base.{◌≡◌, refl, some, none, [], ◌∷◌, List, false, err, string_key}
use mesh_pad.Base.Text.{concat}
use mesh_pad.HashMap
use mesh_pad.WireProtocol.{WireResponse}
use mesh_pad.P2p.{Node, batch_sync_with_meshpad_peer, outbound_failure}
use mesh_pad.P2p.Loop.{
  Input, command, event, run_swarm, handle_command, handle_swarm_event, handle_failure,
}
use mesh_pad.P2p.Loop.{breaks}
use mesh_pad.Sidecar.{System, done, waiting, system_of}
use mesh_pad.Sidecar.Controller.{lend, counted_for, synced_for, controller_batch_sync}
use mesh_pad.SidecarApi.Sync.{Environment, sync_json, stores_of}
use mesh_pad.SidecarApi.SyncLibp2p.{returned}
use mesh_pad.SidecarApi.Stall.{to_catalog, sync_json_stalls}
use mesh_pad.Examples.Trees.{trees}
use mesh_pad.Examples.Latin.{latin}
use mesh_pad.Examples.Network.{network}
use mesh_pad.Examples.Requests.{derived, channels, host}
use mesh_pad.Examples.Swarms.{config, local}
use mesh_pad.Examples.Sidecars.{env, running, asked}

abbrev inputs : List Input
inputs =
    command (batch_sync_with_meshpad_peer "peer-b" 1) ∷ event (outbound_failure 0 "timeout") ∷ []

-- The loop after the batch sync has failed.
abbrev idle : Node
idle = run_swarm config (lend running.state local) inputs

abbrev after : System
after = record running { state = returned config running.state idle false }

-- The request for the batch fails, and the one for the catalog is answered by an acknowledgement.
abbrev stalling : Environment
stalling = record env {
  batch_sync = record { reply = 1; meanwhile = event (outbound_failure 0 "timeout") ∷ [] };
  pull = record { reply = 2; meanwhile = to_catalog idle 7 WireResponse.push_ack ∷ [] };
}

failed :
    controller_batch_sync stalling.batch_sync "peer-b" running
    ≡ done (err (concat "libp2p batch sync failure: " "timeout")) after
unfolding controller_batch_sync run_swarm handle_command handle_swarm_event handle_failure
    HashMap.get HashMap.insert breaks synced_for
failed = refl

knows : HashMap.get ⦃e = string_key⦄ idle.meshpad_peers "peer-b" ≡ some 7
unfolding run_swarm handle_command handle_swarm_event handle_failure HashMap.get HashMap.insert
knows = refl

unanswered : counted_for 2 idle.answers ≡ none
unfolding run_swarm handle_command handle_swarm_event handle_failure HashMap.get counted_for
    HashMap.insert
unanswered = refl

sync_json_stalls_example :
    let s' = system_of (sync_json stalling asked running) in
    (sync_json stalling asked running ≡ waiting s') × (stores_of s'.state ≡ stores_of after.state)
sync_json_stalls_example =
    sync_json_stalls stalling running after (record { config = config; node = some local }) "peer-b"
      (concat "libp2p batch sync failure: " "timeout") config idle 7 WireResponse.push_ack refl
      failed refl knows unanswered tt refl

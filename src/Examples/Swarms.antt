-- ===== src/Examples/Swarms.antt =====
-- The libp2p loop at a concrete swarm, with concrete peers, notes and callers.
use mesh_pad.Base.{
  filter_map, ◌+◌, ◌≡◌, refl, String, some, List, [], ◌∷◌, ok, arith, or_else, string_key, nat_key,
  if◌then◌else◌, is_some,
}
use mesh_pad.Base.Text.{is_empty}
use mesh_pad.HashMap
use mesh_pad.WireProtocol.{WireRequest, WireResponse}
use mesh_pad.WireStore.{all_snapshots, upsert, note_id_from_snapshot}
use mesh_pad.WireStore.Upsert.{note}
use mesh_pad.AttachmentStore
use mesh_pad.WireBatch.{import_batch, export_batch}
use mesh_pad.WireBatch.Exchange.{batch_sync}
use mesh_pad.P2p.{
  P2pConfig, stop, pull_from_meshpad_peer, push_to_meshpad_peer, batch_sync_with_meshpad_peer,
  counted, synced, wire_request, wire_response, Node,
}
use mesh_pad.P2p.Respond.{handle_request, answer_request, contains}
use mesh_pad.P2p.Loop.{
  start_node, Input, command, event, run_swarm, handle_command, handle_response,
}
use mesh_pad.P2p.Agent.{agent_version, parse_meshpad_agent}
use mesh_pad.P2p.Agent.RoundTrip.{parse_meshpad_agent-agent_version}
use mesh_pad.P2p.Pending.{IsConsistent}
use mesh_pad.P2p.Ledger.{pending, answered}
use mesh_pad.P2p.Ledger.Run.{start_node-IsConsistent, asked, run_swarm_once}
use mesh_pad.P2p.Conversation.{stores, conversation, conversation-batch_sync}
use mesh_pad.P2p.Push.{deliver, deliver-push_to_meshpad_peer}
use mesh_pad.P2p.Peers.Loop.{run_swarm_announced}
use mesh_pad.P2p.Pull.{pull_conversation, pull_conversation_lem}
use mesh_pad.WireStore.{catalog_heads, import_snapshots}
use mesh_pad.WireStore.Catalog.{ids_of_heads}
use mesh_pad.P2p.Peers.{peer_of}
use mesh_pad.WireBatch.Arrivals.{Arrival, replay}
use mesh_pad.P2p.Replies.{handle_pull_response}
use mesh_pad.P2p.Log.Loop.{run_brings, stores-run_swarm}
use mesh_pad.Examples.Trees.{trees}
use mesh_pad.Examples.Latin.{latin}
use mesh_pad.Examples.Network.{network}
use mesh_pad.Examples.Batches.{
  snapshot, left_wire, right_wire, left_files, left_wire-IsKeyed, right_wire-IsKeyed,
}

abbrev pub config : P2pConfig
config = record { http_listen_port = 8080; default_lan_http_port = 8080; default_tls_port = 8443 }

abbrev pub fresh : Node
fresh = start_node 0 left_wire left_files

-- A node that knows the peer 7 as `peer-b`.
abbrev pub local : Node
local = record fresh {
  meshpad_peers = record { entries = ("peer-b", 7) ∷ [] };
  announced = "peer-b" ∷ [];
}

abbrev pub remote : Node
remote = start_node 0 right_wire AttachmentStore.empty_store

fresh-IsConsistent : IsConsistent fresh
fresh-IsConsistent = start_node-IsConsistent 0 left_wire left_files

pub local-IsConsistent : IsConsistent local
local-IsConsistent = record {
  pulls = fresh-IsConsistent.pulls;
  pushes = fresh-IsConsistent.pushes;
  batch_syncs = fresh-IsConsistent.batch_syncs;
  apart = fresh-IsConsistent.apart;
}

pub connected : HashMap.get ⦃e = string_key⦄ local.meshpad_peers "peer-b" ≡ some 7
unfolding HashMap.get
connected = refl

-- A hello, a push that is acknowledged, a batch sync that is pending, one with an unknown peer, and
-- commands after the last.
abbrev pub inputs : List Input
inputs =
    event (wire_request 7 (WireRequest.hello "peer-b" "B") 0)
    ∷ command (push_to_meshpad_peer "peer-b" 1)
    ∷ event (wire_response 0 WireResponse.push_ack)
    ∷ command (batch_sync_with_meshpad_peer "peer-b" 1)
    ∷ command (batch_sync_with_meshpad_peer "peer-c" 1)
    ∷ command stop
    ∷ command (pull_from_meshpad_peer "peer-b" 1)
    ∷ []

run_swarm_once_example :
    let node = run_swarm config fresh inputs in
    pending 1 node + answered 1 node.answers ≡ asked 1 inputs
run_swarm_once_example = run_swarm_once config 0 left_wire left_files inputs 1

asked_three : asked 1 inputs ≡ 3
unfolding asked
asked_three = refl

conversation-batch_sync_example :
    let (local', remote') = conversation config local remote 7 5 "peer-b" 1 in
    let batch = export_batch right_wire AttachmentStore.empty_store in
    let got = import_batch batch left_wire left_files in
    let given =
      import_batch (export_batch got.wire got.attachments) right_wire AttachmentStore.empty_store in
    (stores local' ≡ (batch_sync (stores local) (stores remote)).0)
    × (stores remote' ≡ (batch_sync (stores local) (stores remote)).1)
    × (local'.answers ≡ synced 1 (ok (record { imported = got.count; pushed = given.count })) ∷ [])
conversation-batch_sync_example =
    conversation-batch_sync config local remote 7 5 "peer-b" 1 local-IsConsistent connected

left_snapshots : all_snapshots left_wire ≡ snapshot "a" "one" ∷ []
unfolding all_snapshots upsert HashMap.insert note_id_from_snapshot
left_snapshots = refl

deliver-push_to_meshpad_peer_example :
    let (local', remote') =
      deliver config 7 5 [] 0
        (snapshot "a" "one")
        (handle_command local (push_to_meshpad_peer "peer-b" 1))
        remote in
    ((i : String) → note remote'.wire i ≡ or_else (note left_wire i) (note right_wire i))
    × (local'.answers ≡ counted 1 (ok 1) ∷ [])
deliver-push_to_meshpad_peer_example =
    deliver-push_to_meshpad_peer config local remote 7 5 "peer-b" 1 (snapshot "a" "one") []
      local-IsConsistent left_wire-IsKeyed connected left_snapshots (omega arith)

parse_meshpad_agent-agent_version_example :
    parse_meshpad_agent (agent_version "peer-a" "My Device")
    ≡ some ("peer-a", if is_empty "My Device" then "MeshPad" else "My Device")
unfolding parse_meshpad_agent
parse_meshpad_agent-agent_version_example =
    parse_meshpad_agent-agent_version "peer-a" "My Device" refl refl (ground arith)

right_ids : ids_of_heads (catalog_heads right_wire) ≡ "a" ∷ "b" ∷ []
unfolding ids_of_heads catalog_heads filter_map upsert HashMap.insert note_id_from_snapshot
right_ids = refl

pull_conversation_lem_example :
    let (local', remote') = pull_conversation config local remote 7 5 "peer-b" 1 in
    ((i : String) → note local'.wire i ≡ or_else (note right_wire i) (note left_wire i))
    × (remote' ≡ remote)
    × (local'.answers
        ≡ counted 1 (ok (import_snapshots left_wire (all_snapshots right_wire)).0) ∷ [])
pull_conversation_lem_example =
    pull_conversation_lem config local remote 7 5 "peer-b" 1 "a" ("b" ∷ []) right_wire-IsKeyed
      connected right_ids

run_swarm_announced_example :
    let node = run_swarm config fresh inputs in
    contains node.announced "peer-b" ≡ is_some (peer_of node "peer-b")
run_swarm_announced_example = run_swarm_announced config 0 left_wire left_files inputs "peer-b"

-- A peer pushes a note before and after it answers a pull, and once more after the loop stopped.
abbrev deliveries : List Input
deliveries =
    event (wire_request 7 (WireRequest.push (snapshot "c" "x")) 0)
    ∷ command (pull_from_meshpad_peer "peer-b" 1)
    ∷ event (wire_response 0 (WireResponse.catalog (catalog_heads right_wire)))
    ∷ event (wire_response 1 (WireResponse.pull (snapshot "a" "two" ∷ [])))
    ∷ event (wire_request 7 (WireRequest.push (snapshot "a" "y")) 1)
    ∷ event (wire_response 1 (WireResponse.pull (snapshot "d" "late" ∷ [])))
    ∷ command stop
    ∷ event (wire_request 7 (WireRequest.push (snapshot "e" "z")) 2)
    ∷ []

stores-run_swarm_example :
    stores (run_swarm config local deliveries)
    ≡ replay (stores local) (run_brings config local deliveries)
stores-run_swarm_example = stores-run_swarm config deliveries local

brought :
    run_brings config local deliveries
    ≡ Arrival.snapshot (snapshot "c" "x")
      ∷ Arrival.snapshots (snapshot "a" "two" ∷ [])
      ∷ Arrival.snapshot (snapshot "a" "y")
      ∷ []
unfolding run_brings HashMap.get answer_request handle_request HashMap.insert handle_response
    handle_pull_response ids_of_heads filter_map catalog_heads upsert note_id_from_snapshot
    HashMap.remove
brought = refl

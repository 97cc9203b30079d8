-- ===== src/P2p/Loop.antt =====
-- handle_swarm_event and run_swarm: the loop over commands and swarm events.
use mesh_pad.Base.{
  Bool, true, false, String, Option, none, some, List, [], ◌∷◌, ok, err, string_key, if◌then◌else◌,
}
use mesh_pad.Base.Text.{concat}
use mesh_pad.External.Json.{Json}
use mesh_pad.External.Base64.{Base64}
use mesh_pad.External.Libp2p.{Libp2p}
use mesh_pad.HashMap
use mesh_pad.WireProtocol.{WireRequest, WireResponse}
use mesh_pad.WireStore.{WireStore, all_snapshots}
use mesh_pad.AttachmentStore.{WireAttachmentStore}
use mesh_pad.P2p.{
  Sender, P2pCommand, stop, pull_from_meshpad_peer, push_to_meshpad_peer,
  batch_sync_with_meshpad_peer, awaiting_catalog, awaiting_remote_batch, counted, synced, P2pConfig,
  PullCtx, PushCtx, BatchSyncCtx, SwarmEvent, mdns_discovered, mdns_expired, identify_received,
  wire_request, wire_response, outbound_failure, new_listen_addr, other, Node, send,
}
use mesh_pad.P2p.Agent.{parse_meshpad_agent}
use mesh_pad.P2p.Replies.{
  id_key, handle_pull_response, handle_push_response, handle_batch_sync_response,
}
use mesh_pad.P2p.Respond.{meet, expire_all, dial_all, handle_request, answer_request}

module _ ⦃json : Json⦄ ⦃libp2p : Libp2p json.Value⦄ where
  open libp2p use {PeerId}

  -- an identify event, with what its agent string gave
  abbrev pub identified : P2pConfig → Node → PeerId → Option (String × String) → Node
  identified config node peer none = node
  identified config node peer (some (meshpad_id, peer_name)) =
      meet config node peer meshpad_id peer_name

module _ ⦃json : Json⦄ ⦃base64 : Base64⦄ ⦃libp2p : Libp2p json.Value⦄ where
  open json use {Value}
  open libp2p use {PeerId, RequestId, Swarm, send_request}

  -- a response of a peer, by the map that has its request
  unfoldable pub handle_response : Node → RequestId → WireResponse Value → Node
  handle_response node request_id response =
      if HashMap.contains_key node.pulls request_id
      then handle_pull_response node request_id response
      else if HashMap.contains_key node.pushes request_id
      then handle_push_response node request_id response
      else if HashMap.contains_key node.batch_syncs request_id
      then handle_batch_sync_response node request_id response
      else node

  -- an outbound failure, with what the three maps have for the request
  abbrev pub failed :
      Node → RequestId → String → Option PullCtx → Option PushCtx → Option BatchSyncCtx → Node
  failed node request_id error (some ctx) _ _ =
      send (record node { pulls = HashMap.remove node.pulls request_id })
        (counted ctx.reply (err (concat "libp2p outbound failure: " error)))
  failed node request_id error none (some ctx) _ =
      send (record node { pushes = HashMap.remove node.pushes request_id })
        (counted ctx.reply (err (concat "libp2p push failure: " error)))
  failed node request_id error none none (some ctx) =
      send (record node { batch_syncs = HashMap.remove node.batch_syncs request_id })
        (synced ctx.reply (err (concat "libp2p batch sync failure: " error)))
  failed node request_id error none none none = node

  unfoldable pub handle_failure : Node → RequestId → String → Node
  handle_failure node request_id error =
      failed node request_id error (HashMap.get node.pulls request_id)
        (HashMap.get node.pushes request_id) (HashMap.get node.batch_syncs request_id)

  unfoldable pub handle_swarm_event : P2pConfig → Node → SwarmEvent → Node
  handle_swarm_event config node (mdns_discovered list) = dial_all node list
  handle_swarm_event config node (mdns_expired list) = expire_all node list
  handle_swarm_event config node (identify_received peer_id agent_version) =
      identified config node peer_id (parse_meshpad_agent agent_version)
  handle_swarm_event config node (wire_request peer request channel) =
      let (response, node') = handle_request config node peer request in
      answer_request node' channel response
  handle_swarm_event config node (wire_response request_id response) =
      handle_response node request_id response
  handle_swarm_event config node (outbound_failure request_id error) =
      handle_failure node request_id error
  handle_swarm_event config node (new_listen_addr address) = node
  handle_swarm_event config node other = node

  -- the three commands of a caller, with the peer that its MeshPad id stands for
  abbrev pub start_pull : Node → String → Sender → Option PeerId → Node
  start_pull node meshpad_peer_id reply none = send node (
      counted reply
        (err (concat "libp2p peer " (concat meshpad_peer_id " not connected (mdns/identify)"))))
  start_pull node meshpad_peer_id reply (some peer) =
      let (req_id, swarm') = send_request node.swarm peer WireRequest.get_catalog in
      record node {
        swarm = swarm';
        pulls =
            HashMap.insert node.pulls req_id
              (record { peer = peer; reply = reply; step = awaiting_catalog });
      }

  abbrev pub not_connected : String → String
  not_connected meshpad_peer_id = concat "libp2p peer " (concat meshpad_peer_id " not connected")

  abbrev pub push_first : Node → PeerId → Sender → List Value → Node
  push_first node peer reply [] = send node (counted reply (ok 0))
  push_first node peer reply (first ∷ rest) =
      let (req_id, swarm') = send_request node.swarm peer (WireRequest.push first) in
      record node {
        swarm = swarm';
        pushes =
            HashMap.insert node.pushes req_id
              (record { peer = peer; reply = reply; remaining = rest; pushed = 0 });
      }

  abbrev pub start_push : Node → String → Sender → Option PeerId → Node
  start_push node meshpad_peer_id reply none =
      send node (counted reply (err (not_connected meshpad_peer_id)))
  start_push node meshpad_peer_id reply (some peer) =
      push_first node peer reply (all_snapshots node.wire)

  abbrev pub start_batch_sync : Node → String → Sender → Option PeerId → Node
  start_batch_sync node meshpad_peer_id reply none =
      send node (synced reply (err (not_connected meshpad_peer_id)))
  start_batch_sync node meshpad_peer_id reply (some peer) =
      let (req_id, swarm') = send_request node.swarm peer WireRequest.get_batch in
      record node {
        swarm = swarm';
        batch_syncs =
            HashMap.insert node.batch_syncs req_id
              (record { peer = peer; reply = reply; step = awaiting_remote_batch; imported = 0 });
      }

  -- A command that does not stop the loop.
  unfoldable pub handle_command : Node → P2pCommand → Node
  handle_command node stop = node
  handle_command node (pull_from_meshpad_peer id reply) =
      start_pull node id reply (HashMap.get ⦃e = string_key⦄ node.meshpad_peers id)
  handle_command node (push_to_meshpad_peer id reply) =
      start_push node id reply (HashMap.get ⦃e = string_key⦄ node.meshpad_peers id)
  handle_command node (batch_sync_with_meshpad_peer id reply) =
      start_batch_sync node id reply (HashMap.get ⦃e = string_key⦄ node.meshpad_peers id)

  -- The variables of the loop before its first round.
  abbrev pub start_node : Swarm → WireStore Value → WireAttachmentStore → Node
  start_node swarm wire attachments = record {
    swarm = swarm;
    wire = wire;
    attachments = attachments;
    meshpad_peers = HashMap.empty;
    announced = [];
    pulls = HashMap.empty;
    pushes = HashMap.empty;
    batch_syncs = HashMap.empty;
    answers = [];
    events = [];
  }

  -- What `tokio::select!` hands the loop: a command, the end of the commands, or a swarm event.
  pub data Input : Type 0 where
    command : P2pCommand → Input
    closed : Input
    event : SwarmEvent → Input

  -- The loop, over what it is handed until it breaks: the variables that it leaves. `breaks` tells
  -- whether it has ended.
  unfoldable pub run_swarm : P2pConfig → Node → List Input → Node
  run_swarm config node [] = node
  run_swarm config node (command stop ∷ rest) = node
  run_swarm config node (closed ∷ rest) = node
  run_swarm config node (command (pull_from_meshpad_peer id reply) ∷ rest) =
      run_swarm config (handle_command node (pull_from_meshpad_peer id reply)) rest
  run_swarm config node (command (push_to_meshpad_peer id reply) ∷ rest) =
      run_swarm config (handle_command node (push_to_meshpad_peer id reply)) rest
  run_swarm config node (command (batch_sync_with_meshpad_peer id reply) ∷ rest) =
      run_swarm config (handle_command node (batch_sync_with_meshpad_peer id reply)) rest
  run_swarm config node (event e ∷ rest) = run_swarm config (handle_swarm_event config node e) rest

  -- The loop meets the command to stop, or the end of the channel.
  unfoldable pub breaks : List Input → Bool
  breaks [] = false
  breaks (command stop ∷ rest) = true
  breaks (closed ∷ rest) = true
  breaks (_ ∷ rest) = breaks rest

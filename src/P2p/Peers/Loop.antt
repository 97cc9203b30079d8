-- ===== src/P2p/Peers/Loop.antt =====
-- Whole runs of the loop: the announced ids stay those of the known peers.
use mesh_pad.Base.{◌≡◌, refl, String, Option, none, some, List, [], ◌∷◌, string_key, is_some}
use mesh_pad.External.Json.{Json}
use mesh_pad.External.Base64.{Base64}
use mesh_pad.External.Libp2p.{Libp2p}
use mesh_pad.HashMap
use mesh_pad.HashMap.{HashMap}
use mesh_pad.HashMap.Distinct.{Distinct-empty}
use mesh_pad.WireProtocol.{WireRequest}
use mesh_pad.WireStore.{WireStore, all_snapshots}
use mesh_pad.AttachmentStore.{WireAttachmentStore}
use mesh_pad.P2p.{
  P2pCommand, stop, pull_from_meshpad_peer, push_to_meshpad_peer, batch_sync_with_meshpad_peer,
  P2pConfig, Node, Sender, SwarmEvent, mdns_discovered, mdns_expired, identify_received,
  wire_request, wire_response, outbound_failure, new_listen_addr, other,
}
use mesh_pad.P2p.Agent.{parse_meshpad_agent}
use mesh_pad.P2p.Respond.{contains, dial_all, handle_request, answer_request}
use mesh_pad.P2p.Replies.{id_key}
use mesh_pad.P2p.Loop.{
  start_node, Input, command, closed, event, run_swarm, handle_command, handle_swarm_event,
  handle_failure, identified, start_pull, start_push, push_first, start_batch_sync,
}
use mesh_pad.P2p.Peers.Replies.{known, known-failed, known-handle_response, IsAnnounced-known}
use mesh_pad.P2p.Peers.{peer_of, IsAnnounced, meet_lem, expire_all_lem}

module _ ⦃json : Json⦄ ⦃base64 : Base64⦄ ⦃libp2p : Libp2p json.Value⦄ where
  open json use {Value}
  open libp2p use {PeerId, RequestId, Channel, Multiaddr, Swarm}

  known-dial_all :
      (list : List (PeerId × Multiaddr)) (node : Node) → known (dial_all node list) ≡ known node
  unfolding dial_all
  known-dial_all [] node = refl
  known-dial_all ((peer, addr) ∷ rest) node = known-dial_all rest _

  identified-IsAnnounced :
      (config : P2pConfig) (node : Node) (peer : PeerId) (agent : Option (String × String))
      → IsAnnounced node
      → IsAnnounced (identified config node peer agent)
  identified-IsAnnounced config node peer none h = h
  identified-IsAnnounced config node peer (some (id, name)) h =
      (meet_lem config node peer id name h).1

  handle_request-IsAnnounced :
      (config : P2pConfig) (node : Node) (peer : PeerId) (request : WireRequest Value)
      → IsAnnounced node
      → IsAnnounced (handle_request config node peer request).1
  unfolding handle_request
  handle_request-IsAnnounced config node peer (WireRequest.hello id name) h =
      (meet_lem config node peer id name h).1
  handle_request-IsAnnounced config node peer WireRequest.get_catalog h = h
  handle_request-IsAnnounced config node peer (WireRequest.pull ids) h = h
  handle_request-IsAnnounced config node peer (WireRequest.push snapshot) h =
      IsAnnounced-known node _ refl h
  handle_request-IsAnnounced config node peer WireRequest.get_batch h = h
  handle_request-IsAnnounced config node peer (WireRequest.push_batch batch) h =
      IsAnnounced-known node _ refl h

  handle_swarm_event-IsAnnounced :
      (config : P2pConfig) (node : Node) (e : SwarmEvent)
      → IsAnnounced node
      → IsAnnounced (handle_swarm_event config node e)
  unfolding handle_swarm_event handle_failure answer_request
  handle_swarm_event-IsAnnounced config node (mdns_discovered list) h =
      IsAnnounced-known node _ (known-dial_all list node) h
  handle_swarm_event-IsAnnounced config node (mdns_expired list) h = (expire_all_lem list node h).1
  handle_swarm_event-IsAnnounced config node (identify_received peer agent) h =
      identified-IsAnnounced config node peer (parse_meshpad_agent agent) h
  handle_swarm_event-IsAnnounced config node (wire_request peer request channel) h =
      IsAnnounced-known (handle_request config node peer request).1 _ refl
        (handle_request-IsAnnounced config node peer request h)
  handle_swarm_event-IsAnnounced config node (wire_response id r) h =
      IsAnnounced-known node _ (known-handle_response node id r) h
  handle_swarm_event-IsAnnounced config node (outbound_failure id error) h =
      IsAnnounced-known node _ (known-failed node id error _ _ _) h
  handle_swarm_event-IsAnnounced config node (new_listen_addr a) h = h
  handle_swarm_event-IsAnnounced config node other h = h

  known-push_first :
      (node : Node) (peer : PeerId) (reply : Sender) (l : List Value)
      → known (push_first node peer reply l) ≡ known node
  known-push_first node peer reply [] = refl
  known-push_first node peer reply (first ∷ rest) = refl

  known-handle_command : (node : Node) (c : P2pCommand) → known (handle_command node c) ≡ known node
  unfolding handle_command
  known-handle_command node stop = refl
  known-handle_command node (pull_from_meshpad_peer id reply) = pull_by (peer_of node id)
    where
      pull_by : (o : Option PeerId) → known (start_pull node id reply o) ≡ known node
      pull_by none = refl
      pull_by (some peer) = refl
  known-handle_command node (push_to_meshpad_peer id reply) = push_by (peer_of node id)
    where
      push_by : (o : Option PeerId) → known (start_push node id reply o) ≡ known node
      push_by none = refl
      push_by (some peer) = known-push_first node peer reply (all_snapshots node.wire)
  known-handle_command node (batch_sync_with_meshpad_peer id reply) = batch_by (peer_of node id)
    where
      batch_by : (o : Option PeerId) → known (start_batch_sync node id reply o) ≡ known node
      batch_by none = refl
      batch_by (some peer) = refl

  handle_command-IsAnnounced :
      (node : Node) (c : P2pCommand) → IsAnnounced node → IsAnnounced (handle_command node c)
  handle_command-IsAnnounced node c h = IsAnnounced-known node _ (known-handle_command node c) h

  run_swarm-IsAnnounced :
      (config : P2pConfig) (inputs : List Input) (node : Node)
      → IsAnnounced node
      → IsAnnounced (run_swarm config node inputs)
  unfolding run_swarm
  run_swarm-IsAnnounced config [] node h = h
  run_swarm-IsAnnounced config (closed ∷ rest) node h = h
  run_swarm-IsAnnounced config (command stop ∷ rest) node h = h
  run_swarm-IsAnnounced config (command (pull_from_meshpad_peer id reply) ∷ rest) node h =
      run_swarm-IsAnnounced config rest _
        (handle_command-IsAnnounced node (pull_from_meshpad_peer id reply) h)
  run_swarm-IsAnnounced config (command (push_to_meshpad_peer id reply) ∷ rest) node h =
      run_swarm-IsAnnounced config rest _
        (handle_command-IsAnnounced node (push_to_meshpad_peer id reply) h)
  run_swarm-IsAnnounced config (command (batch_sync_with_meshpad_peer id reply) ∷ rest) node h =
      run_swarm-IsAnnounced config rest _
        (handle_command-IsAnnounced node (batch_sync_with_meshpad_peer id reply) h)
  run_swarm-IsAnnounced config (event e ∷ rest) node h =
      run_swarm-IsAnnounced config rest _ (handle_swarm_event-IsAnnounced config node e h)

  start_node-IsAnnounced :
      (swarm : Swarm) (wire : WireStore Value) (attachments : WireAttachmentStore)
      → IsAnnounced (start_node swarm wire attachments)
  unfolding contains HashMap.get
  start_node-IsAnnounced swarm wire attachments = record {
    distinct = Distinct-empty ⦃e = string_key⦄;
    same_ids = λ id. refl;
  }

  -- After any run of the loop from its start, the MeshPad ids that count as announced are exactly
  -- those that stand for a known peer.
  pub run_swarm_announced :
      (config : P2pConfig) (swarm : Swarm) (wire : WireStore Value)
      (attachments : WireAttachmentStore) (inputs : List Input) (id : String)
      → let node = run_swarm config (start_node swarm wire attachments) inputs in
        contains node.announced id ≡ is_some (peer_of node id)
  run_swarm_announced config swarm wire attachments inputs =
      (run_swarm-IsAnnounced config inputs _
        (start_node-IsAnnounced swarm wire attachments)).same_ids

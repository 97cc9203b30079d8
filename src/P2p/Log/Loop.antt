-- ===== src/P2p/Log/Loop.antt =====
-- Whole runs of the loop: its stores are those before it, with all that was brought to it.
use mesh_pad.Base.{
  ◌≡◌, refl, sym, ap, ◌∙◌, ◌++◌, String, Option, none, some, List, [], ◌∷◌, Bool-cases, inl, inr,
}
use mesh_pad.External.Json.{Json}
use mesh_pad.External.Base64.{Base64}
use mesh_pad.External.Libp2p.{Libp2p}
use mesh_pad.WireProtocol.{WireRequest}
use mesh_pad.WireStore.{all_snapshots}
use mesh_pad.WireProtocol.{WireResponse}
use mesh_pad.P2p.{
  P2pCommand, stop, pull_from_meshpad_peer, push_to_meshpad_peer, batch_sync_with_meshpad_peer,
  P2pConfig, Node, Sender, SwarmEvent, mdns_discovered, mdns_expired, identify_received,
  wire_request, wire_response, outbound_failure, new_listen_addr, other,
}
use mesh_pad.P2p.Agent.{parse_meshpad_agent}
use mesh_pad.P2p.Respond.{
  contains, meet, expire, expire_all, dial_all, handle_request, answer_request,
}
use mesh_pad.P2p.Replies.{id_key}
use mesh_pad.P2p.Loop.{
  Input, command, closed, event, run_swarm, handle_command, handle_swarm_event, handle_failure,
  identified, start_pull, start_push, push_first, start_batch_sync,
}
use mesh_pad.P2p.Peers.{peer_of}
use mesh_pad.WireBatch.Arrivals.{Arrival, snapshot, batch, replay, replay-append}
use mesh_pad.P2p.Conversation.{stores}
use mesh_pad.P2p.Log.{Brings, response_brings, failed-Brings, handle_response-Brings}

module _ ⦃json : Json⦄ ⦃base64 : Base64⦄ ⦃libp2p : Libp2p json.Value⦄ where
  open json use {Value}
  open libp2p use {PeerId, RequestId, Multiaddr}

  -- What the request of a peer brings.
  abbrev pub request_brings : WireRequest Value → List Arrival
  request_brings (WireRequest.push v) = snapshot v ∷ []
  request_brings (WireRequest.push_batch b) = batch b ∷ []
  request_brings _ = []

  abbrev pub event_brings : Node → SwarmEvent → List Arrival
  event_brings node (wire_request peer request channel) = request_brings request
  event_brings node (wire_response id r) = response_brings node id r
  event_brings node _ = []

  -- All that a run brings, in its order.
  unfoldable pub run_brings : P2pConfig → Node → List Input → List Arrival
  unfolding handle_command handle_swarm_event response_brings
  run_brings config node [] = []
  run_brings config node (closed ∷ rest) = []
  run_brings config node (command stop ∷ rest) = []
  run_brings config node (command (pull_from_meshpad_peer id reply) ∷ rest) =
      run_brings config (handle_command node (pull_from_meshpad_peer id reply)) rest
  run_brings config node (command (push_to_meshpad_peer id reply) ∷ rest) =
      run_brings config (handle_command node (push_to_meshpad_peer id reply)) rest
  run_brings config node (command (batch_sync_with_meshpad_peer id reply) ∷ rest) =
      run_brings config (handle_command node (batch_sync_with_meshpad_peer id reply)) rest
  run_brings config node (event e ∷ rest) =
      event_brings node e ++ run_brings config (handle_swarm_event config node e) rest

  stores-dial_all :
      (list : List (PeerId × Multiaddr)) (node : Node) → stores (dial_all node list) ≡ stores node
  unfolding dial_all
  stores-dial_all [] node = refl
  stores-dial_all ((peer, addr) ∷ rest) node = stores-dial_all rest _

  stores-expire_all :
      (list : List (PeerId × Multiaddr)) (node : Node) → stores (expire_all node list) ≡ stores node
  unfolding expire_all expire
  stores-expire_all [] node = refl
  stores-expire_all ((peer, addr) ∷ rest) node = stores-expire_all rest (expire node peer)

  stores-meet :
      (config : P2pConfig) (node : Node) (peer : PeerId) (id name : String)
      → stores (meet config node peer id name) ≡ stores node
  unfolding meet
  stores-meet config node peer id name = elim (Bool-cases (contains node.announced id)) [
    | inl old ↦ rw old refl
    | inr new ↦ rw new refl
  ]

  stores-identified :
      (config : P2pConfig) (node : Node) (peer : PeerId) (agent : Option (String × String))
      → stores (identified config node peer agent) ≡ stores node
  stores-identified config node peer none = refl
  stores-identified config node peer (some (id, name)) = stores-meet config node peer id name

  handle_request-Brings :
      (config : P2pConfig) (node : Node) (peer : PeerId) (request : WireRequest Value)
      → Brings (request_brings request) node (handle_request config node peer request).1
  unfolding handle_request replay
  handle_request-Brings config node peer (WireRequest.hello id name) =
      stores-meet config node peer id name
  handle_request-Brings config node peer WireRequest.get_catalog = refl
  handle_request-Brings config node peer (WireRequest.pull ids) = refl
  handle_request-Brings config node peer (WireRequest.push v) = refl
  handle_request-Brings config node peer WireRequest.get_batch = refl
  handle_request-Brings config node peer (WireRequest.push_batch b) = refl

  handle_swarm_event-Brings :
      (config : P2pConfig) (node : Node) (e : SwarmEvent)
      → Brings (event_brings node e) node (handle_swarm_event config node e)
  unfolding handle_swarm_event handle_failure answer_request replay
  handle_swarm_event-Brings config node (mdns_discovered list) = stores-dial_all list node
  handle_swarm_event-Brings config node (mdns_expired list) = stores-expire_all list node
  handle_swarm_event-Brings config node (identify_received peer agent) =
      stores-identified config node peer (parse_meshpad_agent agent)
  handle_swarm_event-Brings config node (wire_request peer request channel) =
      handle_request-Brings config node peer request
  handle_swarm_event-Brings config node (wire_response id r) = handle_response-Brings node id r
  handle_swarm_event-Brings config node (outbound_failure id error) =
      failed-Brings node id WireResponse.hello_ack error _ _ _
  handle_swarm_event-Brings config node (new_listen_addr a) = refl
  handle_swarm_event-Brings config node other = refl

  stores-push_first :
      (node : Node) (peer : PeerId) (reply : Sender) (l : List Value)
      → stores (push_first node peer reply l) ≡ stores node
  stores-push_first node peer reply [] = refl
  stores-push_first node peer reply (first ∷ rest) = refl

  stores-handle_command :
      (node : Node) (c : P2pCommand) → stores (handle_command node c) ≡ stores node
  unfolding handle_command
  stores-handle_command node stop = refl
  stores-handle_command node (pull_from_meshpad_peer id reply) = pull_by (peer_of node id)
    where
      pull_by : (o : Option PeerId) → stores (start_pull node id reply o) ≡ stores node
      pull_by none = refl
      pull_by (some peer) = refl
  stores-handle_command node (push_to_meshpad_peer id reply) = push_by (peer_of node id)
    where
      push_by : (o : Option PeerId) → stores (start_push node id reply o) ≡ stores node
      push_by none = refl
      push_by (some peer) = stores-push_first node peer reply (all_snapshots node.wire)
  stores-handle_command node (batch_sync_with_meshpad_peer id reply) = batch_by (peer_of node id)
    where
      batch_by : (o : Option PeerId) → stores (start_batch_sync node id reply o) ≡ stores node
      batch_by none = refl
      batch_by (some peer) = refl

  -- After any run of the loop from any state, its stores are those before the run after all that the
  -- run brought, in that order: each note and each batch that a peer pushed before the loop stopped,
  -- the notes and the batch of a response where a pull or a batch sync waited for them, and nothing
  -- else.
  pub stores-run_swarm :
      (config : P2pConfig) (inputs : List Input) (node : Node)
      → stores (run_swarm config node inputs) ≡ replay (stores node) (run_brings config node inputs)
  unfolding run_swarm run_brings replay
  stores-run_swarm config [] node = refl
  stores-run_swarm config (closed ∷ rest) node = refl
  stores-run_swarm config (command stop ∷ rest) node = refl
  stores-run_swarm config (command (pull_from_meshpad_peer id reply) ∷ rest) node =
      stores-run_swarm config rest _
      ∙ ap
          (λ s.
            replay s
              (run_brings config (handle_command node (pull_from_meshpad_peer id reply)) rest))
          (stores-handle_command node (pull_from_meshpad_peer id reply))
  stores-run_swarm config (command (push_to_meshpad_peer id reply) ∷ rest) node =
      stores-run_swarm config rest _
      ∙ ap
          (λ s.
            replay s (run_brings config (handle_command node (push_to_meshpad_peer id reply)) rest))
          (stores-handle_command node (push_to_meshpad_peer id reply))
  stores-run_swarm config (command (batch_sync_with_meshpad_peer id reply) ∷ rest) node =
      stores-run_swarm config rest _
      ∙ ap
          (λ s.
            replay s (
              run_brings config (handle_command node (batch_sync_with_meshpad_peer id reply)) rest))
          (stores-handle_command node (batch_sync_with_meshpad_peer id reply))
  stores-run_swarm config (event e ∷ rest) node =
      stores-run_swarm config rest (handle_swarm_event config node e)
      ∙ ap (λ s. replay s (run_brings config (handle_swarm_event config node e) rest))
          (handle_swarm_event-Brings config node e)
      ∙ sym (replay-append (stores node) (event_brings node e) _)

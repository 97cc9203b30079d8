-- ===== src/P2p/Ledger/Loop.antt =====
-- The account of a caller over commands, swarm events and whole runs of the loop.
use mesh_pad.Base.{
  ◌+◌, ◌≡◌, refl, String, Option, none, some, List, [], ◌∷◌, arith, Bool-cases, inl, inr,
  string_key, ok, err,
}
use mesh_pad.External.Json.{Json}
use mesh_pad.External.Base64.{Base64}
use mesh_pad.External.Libp2p.{Libp2p}
use mesh_pad.HashMap
use mesh_pad.HashMap.{HashMap}
use mesh_pad.HashMap.Tally.{tally-insert}
use mesh_pad.WireProtocol.{WireRequest, WireResponse}
use mesh_pad.WireStore.{all_snapshots}
use mesh_pad.P2p.{
  Sender, P2pCommand, stop, pull_from_meshpad_peer, push_to_meshpad_peer,
  batch_sync_with_meshpad_peer, awaiting_catalog, awaiting_remote_batch, counted, synced, P2pConfig,
  PullCtx, PushCtx, BatchSyncCtx, SwarmEvent, mdns_discovered, mdns_expired, identify_received,
  wire_request, wire_response, outbound_failure, Node,
}
use mesh_pad.P2p.Agent.{parse_meshpad_agent}
use mesh_pad.P2p.Replies.{id_key}
use mesh_pad.P2p.Respond.{
  contains, meet, expire, expire_all, dial_all, handle_request, answer_request,
}
use mesh_pad.P2p.Loop.{
  identified, handle_response, failed, handle_failure, handle_swarm_event, start_pull, push_first,
  start_push, start_batch_sync, not_connected, handle_command,
}
use mesh_pad.P2p.Pending.{get-fresh, IsConsistent}
use mesh_pad.P2p.Ledger.{
  share, asks, answered-append, pull_share, push_share, batch_sync_share, account,
}
use mesh_pad.P2p.Ledger.Replies.{
  pull_answered, push_answered, batch_answered, handle_pull_response-account,
  handle_push_response-account, handle_batch_sync_response-account,
}

module _ ⦃json : Json⦄ ⦃libp2p : Libp2p json.Value⦄ (caller : Sender) where
  open json use {Value}
  open libp2p use {PeerId, RequestId, Multiaddr}

  meet-account :
      (config : P2pConfig) (node : Node) (peer : PeerId) (id name : String)
      → account caller (meet config node peer id name) ≡ account caller node
  unfolding meet account
  meet-account config node peer id name = elim (Bool-cases (contains node.announced id)) [
    | inl old ↦ rw old
    | inr new ↦ rw new
  ]

  identified-account :
      (config : P2pConfig) (node : Node) (peer : PeerId) (parsed : Option (String × String))
      → account caller (identified config node peer parsed) ≡ account caller node
  identified-account config node peer none = refl
  identified-account config node peer (some (id, name)) = meet-account config node peer id name

  expire_all-account :
      (list : List (PeerId × Multiaddr)) (node : Node)
      → account caller (expire_all node list) ≡ account caller node
  unfolding expire_all expire account
  expire_all-account [] node = refl
  expire_all-account ((peer, addr) ∷ rest) node = expire_all-account rest (expire node peer)

  dial_all-account :
      (list : List (PeerId × Multiaddr)) (node : Node)
      → account caller (dial_all node list) ≡ account caller node
  unfolding dial_all account
  dial_all-account [] node = refl
  dial_all-account ((peer, addr) ∷ rest) node = dial_all-account rest _

module _ ⦃json : Json⦄ ⦃base64 : Base64⦄ ⦃libp2p : Libp2p json.Value⦄ (caller : Sender) where
  open json use {Value}
  open libp2p use {PeerId, RequestId}

  handle_request-account :
      (config : P2pConfig) (node : Node) (peer : PeerId) (request : WireRequest Value)
      → account caller (handle_request config node peer request).1 ≡ account caller node
  unfolding handle_request account
  handle_request-account config node peer (WireRequest.hello id name) =
      meet-account caller config node peer id name
  handle_request-account config node peer _ = refl

  module _ (node : Node) (c : IsConsistent node) where
    handle_response-account :
        (id : RequestId) (response : WireResponse Value)
        → account caller (handle_response node id response) ≡ account caller node
    unfolding handle_response
    handle_response-account id response = ground (
      arith,
      handle_pull_response-account caller node c id response,
      handle_push_response-account caller node c id response,
      handle_batch_sync_response-account caller node c id response,
    )

    failed-account :
        (id : RequestId) (error : String) (pull : Option PullCtx) (push : Option PushCtx)
        (batch : Option BatchSyncCtx)
        → HashMap.get node.pulls id ≡ pull
        → HashMap.get node.pushes id ≡ push
        → HashMap.get node.batch_syncs id ≡ batch
        → account caller (failed node id error pull push batch) ≡ account caller node
    failed-account id error (some ctx) push batch p q r = pull_answered caller node c id ctx p _
    failed-account id error none (some ctx) batch p q r = push_answered caller node c id ctx q _
    failed-account id error none none (some ctx) p q r = batch_answered caller node c id ctx r _
    failed-account id error none none none p q r = refl

    handle_failure-account :
        (id : RequestId) (error : String)
        → account caller (handle_failure node id error) ≡ account caller node
    unfolding handle_failure
    handle_failure-account id error = failed-account id error _ _ _ refl refl refl

    -- A swarm event keeps every caller's account.
    pub handle_swarm_event-account :
        (config : P2pConfig) (e : SwarmEvent)
        → account caller (handle_swarm_event config node e) ≡ account caller node
    unfolding handle_swarm_event answer_request account
    handle_swarm_event-account config (mdns_discovered list) = dial_all-account caller list node
    handle_swarm_event-account config (mdns_expired list) = expire_all-account caller list node
    handle_swarm_event-account config (identify_received peer agent) =
        identified-account caller config node peer (parse_meshpad_agent agent)
    handle_swarm_event-account config (wire_request peer request channel) =
        handle_request-account config node peer request
    handle_swarm_event-account config (wire_response id response) =
        handle_response-account id response
    handle_swarm_event-account config (outbound_failure id error) = handle_failure-account id error
    handle_swarm_event-account config _ = refl

    start_pull-account :
        (id : String) (reply : Sender) (peer : Option PeerId)
        → account caller (start_pull node id reply peer) ≡ account caller node + share caller reply
    unfolding account
    start_pull-account id reply none =
        omega (arith, answered-append caller node.answers (counted reply (err _)))
    start_pull-account id reply (some peer) = omega (
      arith,
      tally-insert (pull_share caller) node.pulls _
          (record { peer = peer; reply = reply; step = awaiting_catalog })
          (get-fresh node.swarm peer WireRequest.get_catalog node.pulls c.pulls),
    )

    push_first-account :
        (peer : PeerId) (reply : Sender) (snapshots : List Value)
        → account caller (push_first node peer reply snapshots)
          ≡ account caller node + share caller reply
    unfolding account
    push_first-account peer reply [] =
        omega (arith, answered-append caller node.answers (counted reply (ok 0)))
    push_first-account peer reply (first ∷ rest) = omega (
      arith,
      tally-insert (push_share caller) node.pushes _
          (record { peer = peer; reply = reply; remaining = rest; pushed = 0 })
          (get-fresh node.swarm peer (WireRequest.push first) node.pushes c.pushes),
    )

    start_push-account :
        (id : String) (reply : Sender) (peer : Option PeerId)
        → account caller (start_push node id reply peer) ≡ account caller node + share caller reply
    unfolding account
    start_push-account id reply none =
        omega (arith, answered-append caller node.answers (counted reply (err (not_connected id))))
    start_push-account id reply (some peer) =
        push_first-account peer reply (all_snapshots node.wire)

    start_batch_sync-account :
        (id : String) (reply : Sender) (peer : Option PeerId)
        → account caller (start_batch_sync node id reply peer)
          ≡ account caller node + share caller reply
    unfolding account
    start_batch_sync-account id reply none =
        omega (arith, answered-append caller node.answers (synced reply (err (not_connected id))))
    start_batch_sync-account id reply (some peer) = omega (
      arith,
      tally-insert (batch_sync_share caller) node.batch_syncs _
          (record { peer = peer; reply = reply; step = awaiting_remote_batch; imported = 0 })
          (get-fresh node.swarm peer WireRequest.get_batch node.batch_syncs c.batch_syncs),
    )

    -- A command adds one to the account of the caller that it answers.
    pub handle_command-account :
        (cmd : P2pCommand)
        → account caller (handle_command node cmd) ≡ account caller node + asks caller cmd
    unfolding handle_command
    handle_command-account stop = omega arith
    handle_command-account (pull_from_meshpad_peer id reply) = start_pull-account id reply _
    handle_command-account (push_to_meshpad_peer id reply) = start_push-account id reply _
    handle_command-account (batch_sync_with_meshpad_peer id reply) =
        start_batch_sync-account id reply _

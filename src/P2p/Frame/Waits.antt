-- ===== src/P2p/Frame/Waits.antt =====
-- What the loop handles while a batch sync waits for a response leaves its entry in the map.
use mesh_pad.Base.{
  ◌≡◌, ◌==◌, subst, Bool, true, false, Option, none, some, List, [], ◌∷◌, Bool-cases, inl, inr, All,
  String, string_key, arith, HashKey, if◌then◌else◌,
}
use mesh_pad.External.Json.{Json}
use mesh_pad.External.Base64.{Base64}
use mesh_pad.External.Libp2p.{Libp2p}
use mesh_pad.HashMap
use mesh_pad.HashMap.{HashMap}
use mesh_pad.HashMap.Laws.{get-insert, get-remove}
use mesh_pad.WireProtocol.{WireRequest, WireResponse}
use mesh_pad.WireStore.{all_snapshots}
use mesh_pad.P2p.{
  Sender, P2pCommand, stop, pull_from_meshpad_peer, push_to_meshpad_peer,
  batch_sync_with_meshpad_peer, P2pConfig, PullCtx, PushCtx, BatchSyncCtx, BatchSyncStep,
  awaiting_remote_batch, awaiting_push_ack, SwarmEvent, mdns_discovered, mdns_expired,
  identify_received, wire_request, wire_response, outbound_failure, Node,
}
use mesh_pad.P2p.Agent.{parse_meshpad_agent}
use mesh_pad.P2p.Respond.{answer_request}
use mesh_pad.P2p.Replies.{
  id_key, handle_pull_response, handle_push_response, batch_sync_step, batch_sync_found,
  handle_batch_sync_response,
}
use mesh_pad.P2p.Loop.{
  Input, command, closed, event, run_swarm, handle_command, handle_swarm_event, handle_response,
  handle_failure, failed, start_pull, start_push, push_first, start_batch_sync,
}
use mesh_pad.P2p.Pending.{IsConsistent, get-fresh}
use mesh_pad.P2p.Pending.Loop.{handle_swarm_event-IsConsistent}
use mesh_pad.P2p.Pending.Commands.{handle_command-IsConsistent}
use mesh_pad.P2p.Frame.{
  batch_syncs-dial_all, batch_syncs-expire_all, batch_syncs-identified, batch_syncs-handle_request,
  batch_syncs-pull_found, batch_syncs-push_found,
}

module _ {ℓ} {K V : Type ℓ} ⦃e : HashKey K⦄ where
  -- A key that is not in a map is none that is.
  absent_ne :
      (m : HashMap K V) (k j : K) (v : V)
      → HashMap.get m k ≡ none
      → HashMap.get m j ≡ some v
      → (k == j) ≡ false
  absent_ne m k j v absent found = elim (Bool-cases (k == j)) [
    | inl same ↦ cc (subst (λ i. HashMap.get m i ≡ none) ((e.same_iff k j).0 same) absent, found)
    | inr ne ↦ ne
  ]

module _ ⦃json : Json⦄ ⦃base64 : Base64⦄ ⦃libp2p : Libp2p json.Value⦄ where
  open json use {Value}
  open libp2p use {PeerId, RequestId, send_request}

  -- An event that is not the end of a request.
  abbrev pub spares : RequestId → SwarmEvent → Bool
  spares id (wire_response j r) = if j == id then false else true
  spares id (outbound_failure j error) = if j == id then false else true
  spares id _ = true

  abbrev pub Spares : RequestId → Input → Type 0
  Spares id (command stop) = ⊥
  Spares id closed = ⊥
  Spares id (command cmd) = Unit
  Spares id (event e) = spares id e ≡ true

  -- A batch sync that waits under an id, at a node.
  module _ (node : Node) (c : IsConsistent node) (id : RequestId) (ctx : BatchSyncCtx)
      (waits : HashMap.get node.batch_syncs id ≡ some ctx) where
    -- The same one waits after a step.
    abbrev Waits : Node → Type 0
    Waits node' = HashMap.get node'.batch_syncs id ≡ some ctx

    unchanged :
        (m : HashMap RequestId BatchSyncCtx) → m ≡ node.batch_syncs → HashMap.get m id ≡ some ctx
    unchanged m e = rw e waits

    removed :
        (j : RequestId)
        → (j == id) ≡ false
        → HashMap.get (HashMap.remove node.batch_syncs j) id ≡ some ctx
    removed j ne = rw (get-remove, ne) waits

    new_ne :
        (peer : PeerId) (r : WireRequest Value) → ((send_request node.swarm peer r).0 == id) ≡ false
    new_ne peer r =
        absent_ne node.batch_syncs _ id ctx
          (get-fresh node.swarm peer r node.batch_syncs c.batch_syncs) waits

    batch_sync_step-Waits :
        (j : RequestId) (other_ctx : BatchSyncCtx) (step : BatchSyncStep) (r : WireResponse Value)
        → (j == id) ≡ false
        → Waits (
            batch_sync_step
              (record node { batch_syncs = HashMap.remove node.batch_syncs j })
              other_ctx
              step
              r)
    batch_sync_step-Waits j k awaiting_remote_batch (WireResponse.batch b) ne =
        rw (get-insert, new_ne k.peer _) (removed j ne)
    batch_sync_step-Waits j k awaiting_push_ack (WireResponse.batch_ack n) ne = removed j ne
    batch_sync_step-Waits j k _ (WireResponse.error message) ne = removed j ne
    batch_sync_step-Waits j k _ _ ne = removed j ne

    batch_sync_found-Waits :
        (j : RequestId) (r : WireResponse Value) (found : Option BatchSyncCtx)
        → (j == id) ≡ false
        → Waits (batch_sync_found node j r found)
    batch_sync_found-Waits j r none ne = waits
    batch_sync_found-Waits j r (some k) ne = batch_sync_step-Waits j k k.step r ne

    handle_response-Waits :
        (j : RequestId) (r : WireResponse Value)
        → (j == id) ≡ false
        → Waits (handle_response node j r)
    unfolding handle_response handle_pull_response handle_push_response handle_batch_sync_response
    handle_response-Waits j r ne = elim (Bool-cases (HashMap.contains_key node.pulls j)) [
      | inl pull ↦ rw pull (unchanged _ (batch_syncs-pull_found node j r _))
      | inr no_pull ↦ elim (Bool-cases (HashMap.contains_key node.pushes j)) [
        | inl push ↦ rw (no_pull, push) (unchanged _ (batch_syncs-push_found node j r _))
        | inr no_push ↦ elim (Bool-cases (HashMap.contains_key node.batch_syncs j)) [
          | inl sync ↦ rw (no_pull, no_push, sync) (batch_sync_found-Waits j r _ ne)
          | inr no_sync ↦ rw (no_pull, no_push, no_sync) waits
        ]
      ]
    ]

    failed-Waits :
        (j : RequestId) (error : String) (p : Option PullCtx) (q : Option PushCtx)
        (b : Option BatchSyncCtx)
        → (j == id) ≡ false
        → Waits (failed node j error p q b)
    failed-Waits j error (some k) q b ne = waits
    failed-Waits j error none (some k) b ne = waits
    failed-Waits j error none none (some k) ne = removed j ne
    failed-Waits j error none none none ne = waits

    not_same : (j : RequestId) → (if j == id then false else true) ≡ true → (j == id) ≡ false
    not_same j h = ground (arith, h)

    handle_swarm_event-Waits :
        (config : P2pConfig) (e : SwarmEvent)
        → spares id e ≡ true
        → Waits (handle_swarm_event config node e)
    unfolding handle_swarm_event handle_failure answer_request
    handle_swarm_event-Waits config (mdns_discovered list) h =
        unchanged _ (batch_syncs-dial_all list node)
    handle_swarm_event-Waits config (mdns_expired list) h =
        unchanged _ (batch_syncs-expire_all list node)
    handle_swarm_event-Waits config (identify_received peer agent) h =
        unchanged _ (batch_syncs-identified config node peer (parse_meshpad_agent agent))
    handle_swarm_event-Waits config (wire_request peer request channel) h =
        unchanged _ (batch_syncs-handle_request config node peer request)
    handle_swarm_event-Waits config (wire_response j r) h = handle_response-Waits j r (not_same j h)
    handle_swarm_event-Waits config (outbound_failure j error) h =
        failed-Waits j error _ _ _ (not_same j h)
    handle_swarm_event-Waits config _ h = waits

    push_first-Waits :
        (peer : PeerId) (reply : Sender) (l : List Value) → Waits (push_first node peer reply l)
    push_first-Waits peer reply [] = waits
    push_first-Waits peer reply (v ∷ l) = waits

    start_pull-Waits :
        (name : String) (reply : Sender) (peer : Option PeerId)
        → Waits (start_pull node name reply peer)
    start_pull-Waits name reply none = waits
    start_pull-Waits name reply (some peer) = waits

    start_push-Waits :
        (name : String) (reply : Sender) (peer : Option PeerId)
        → Waits (start_push node name reply peer)
    start_push-Waits name reply none = waits
    start_push-Waits name reply (some peer) = push_first-Waits peer reply (all_snapshots node.wire)

    start_batch_sync-Waits :
        (name : String) (reply : Sender) (peer : Option PeerId)
        → Waits (start_batch_sync node name reply peer)
    start_batch_sync-Waits name reply none = waits
    start_batch_sync-Waits name reply (some peer) =
        rw (get-insert, new_ne peer WireRequest.get_batch) waits

    handle_command-Waits : (cmd : P2pCommand) → Waits (handle_command node cmd)
    unfolding handle_command
    handle_command-Waits stop = waits
    handle_command-Waits (pull_from_meshpad_peer name reply) = start_pull-Waits name reply _
    handle_command-Waits (push_to_meshpad_peer name reply) = start_push-Waits name reply _
    handle_command-Waits (batch_sync_with_meshpad_peer name reply) =
        start_batch_sync-Waits name reply _

  -- Whatever the loop handles while a batch sync waits for a response, it waits after that.
  pub run_swarm-Waits :
      (config : P2pConfig) (id : RequestId) (ctx : BatchSyncCtx) (inputs : List Input) (node : Node)
      → IsConsistent node
      → All (Spares id) inputs
      → HashMap.get node.batch_syncs id ≡ some ctx
      → HashMap.get (run_swarm config node inputs).batch_syncs id ≡ some ctx
  unfolding run_swarm
  run_swarm-Waits config id ctx [] node c all waits = waits
  run_swarm-Waits config id ctx (command stop ∷ rest) node c all waits = absurd all.0
  run_swarm-Waits config id ctx (closed ∷ rest) node c all waits = absurd all.0
  run_swarm-Waits config id ctx (command (pull_from_meshpad_peer n r) ∷ rest) node c all waits =
      run_swarm-Waits config id ctx rest _
        (handle_command-IsConsistent node c (pull_from_meshpad_peer n r)) all.1
        (handle_command-Waits node c id ctx waits (pull_from_meshpad_peer n r))
  run_swarm-Waits config id ctx (command (push_to_meshpad_peer n r) ∷ rest) node c all waits =
      run_swarm-Waits config id ctx rest _
        (handle_command-IsConsistent node c (push_to_meshpad_peer n r)) all.1
        (handle_command-Waits node c id ctx waits (push_to_meshpad_peer n r))
  run_swarm-Waits config id ctx (command (batch_sync_with_meshpad_peer n r) ∷ rest) node c all
        waits =
      run_swarm-Waits config id ctx rest _
        (handle_command-IsConsistent node c (batch_sync_with_meshpad_peer n r)) all.1
        (handle_command-Waits node c id ctx waits (batch_sync_with_meshpad_peer n r))
  run_swarm-Waits config id ctx (event e ∷ rest) node c all waits =
      run_swarm-Waits config id ctx rest _ (handle_swarm_event-IsConsistent node c config e) all.1
        (handle_swarm_event-Waits node c id ctx waits config e all.0)

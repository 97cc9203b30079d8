-- ===== src/P2p/Log.antt =====
-- What a response to this node's requests brings to its stores, and that it brings no more.
pub mod Loop
use mesh_pad.Base.{
  ℕ, ◌≡◌, refl, String, Bool, true, false, Option, none, some, List, [], ◌∷◌, if◌then◌else◌,
  Bool-cases, inl, inr, nat_beq, nat_beq_iff, add_u32,
}
use mesh_pad.External.Json.{Json}
use mesh_pad.External.Base64.{Base64}
use mesh_pad.External.Libp2p.{Libp2p}
use mesh_pad.HashMap
use mesh_pad.WireProtocol.{WireRequest, WireResponse}
use mesh_pad.WireStore.{WireStore, all_snapshots, import_snapshots}
use mesh_pad.WireStore.Upsert.{IsKeyed, upsert-IsKeyed}
use mesh_pad.WireStore.Import.{import_loop-IsKeyed}
use mesh_pad.WireStore.Catalog.{ids_of_heads}
use mesh_pad.AttachmentStore.{WireAttachmentStore}
use mesh_pad.WireBatch.Arrivals.{Arrival, snapshot, snapshots, batch, arrive, replay}
use mesh_pad.P2p.Conversation.{stores}
use mesh_pad.WireBatch.Import.{import_batch-IsKeyed, import_batch_refused}
use mesh_pad.P2p.{
  P2pCommand, stop, pull_from_meshpad_peer, push_to_meshpad_peer, batch_sync_with_meshpad_peer,
  P2pConfig, Node, Sender, SwarmEvent, mdns_discovered, mdns_expired, identify_received,
  wire_request, wire_response, outbound_failure, new_listen_addr, other, PullCtx, PushCtx,
  BatchSyncCtx, PullStep, BatchSyncStep, awaiting_catalog, awaiting_notes, awaiting_remote_batch,
  awaiting_push_ack,
}
use mesh_pad.P2p.Agent.{parse_meshpad_agent}
use mesh_pad.P2p.Respond.{
  contains, meet, expire, expire_all, dial_all, handle_request, answer_request,
}
use mesh_pad.P2p.Replies.{
  id_key, pull_ids, pull_step, pull_found, handle_pull_response, push_next, push_step, push_found,
  handle_push_response, batch_sync_step, batch_sync_found, handle_batch_sync_response,
}
use mesh_pad.P2p.Loop.{
  Input, command, closed, event, run_swarm, handle_command, handle_swarm_event, handle_response,
  handle_failure, failed, identified, start_pull, start_push, push_first, start_batch_sync,
}

module _ ⦃json : Json⦄ ⦃base64 : Base64⦄ ⦃libp2p : Libp2p json.Value⦄ where
  open json use {Value}
  open libp2p use {PeerId, RequestId, Multiaddr}

  -- What a response brings to a pull at a step: its notes, once the pull waits for them.
  abbrev pub pull_step_brings : PullStep → WireResponse Value → List Arrival
  pull_step_brings awaiting_notes (WireResponse.pull notes) = snapshots notes ∷ []
  pull_step_brings _ _ = []

  abbrev pub pull_brings : Option PullCtx → WireResponse Value → List Arrival
  pull_brings none r = []
  pull_brings (some ctx) r = pull_step_brings ctx.step r

  -- What a response brings to a batch sync at a step: its batch, while the sync waits for it.
  abbrev pub batch_step_brings : BatchSyncStep → WireResponse Value → List Arrival
  batch_step_brings awaiting_remote_batch (WireResponse.batch b) = batch b ∷ []
  batch_step_brings _ _ = []

  abbrev pub batch_brings : Option BatchSyncCtx → WireResponse Value → List Arrival
  batch_brings none r = []
  batch_brings (some ctx) r = batch_step_brings ctx.step r

  -- A response is for the map that has its request.
  unfoldable pub response_brings : Node → RequestId → WireResponse Value → List Arrival
  response_brings node id r =
      if HashMap.contains_key node.pulls id
      then pull_brings (HashMap.get node.pulls id) r
      else if HashMap.contains_key node.pushes id
      then []
      else if HashMap.contains_key node.batch_syncs id
      then batch_brings (HashMap.get node.batch_syncs id) r
      else []

  -- A node whose stores are those of another, after arrivals.
  abbrev pub Brings : List Arrival → Node → Node → Type 0
  Brings log node node' = stores node' ≡ replay (stores node) log

  pull_step-Brings :
      (node : Node) (id : RequestId) (ctx : PullCtx) (step : PullStep) (r : WireResponse Value)
      → Brings (pull_step_brings step r) node (pull_step node id ctx step r)
  unfolding replay
  pull_step-Brings node id ctx awaiting_catalog (WireResponse.catalog heads) =
      by_ids (ids_of_heads heads)
    where
      by_ids : (ids : List String) → Brings [] node (pull_ids node id ctx ids)
      by_ids [] = refl
      by_ids (i ∷ ids) = refl
  pull_step-Brings node id ctx awaiting_notes (WireResponse.pull notes) = refl
  pull_step-Brings node id ctx awaiting_notes (WireResponse.catalog heads) = refl
  pull_step-Brings node id ctx awaiting_catalog (WireResponse.pull notes) = refl
  pull_step-Brings node id ctx awaiting_catalog (WireResponse.batch b) = refl
  pull_step-Brings node id ctx awaiting_notes (WireResponse.batch b) = refl
  pull_step-Brings node id ctx awaiting_catalog (WireResponse.batch_ack n) = refl
  pull_step-Brings node id ctx awaiting_notes (WireResponse.batch_ack n) = refl
  pull_step-Brings node id ctx awaiting_catalog WireResponse.hello_ack = refl
  pull_step-Brings node id ctx awaiting_notes WireResponse.hello_ack = refl
  pull_step-Brings node id ctx awaiting_catalog WireResponse.push_ack = refl
  pull_step-Brings node id ctx awaiting_notes WireResponse.push_ack = refl
  pull_step-Brings node id ctx awaiting_catalog (WireResponse.error m) = refl
  pull_step-Brings node id ctx awaiting_notes (WireResponse.error m) = refl

  push_next-Brings :
      (node : Node) (ctx : PushCtx) (l : List Value) → Brings [] node (push_next node ctx l)
  unfolding replay
  push_next-Brings node ctx [] = refl
  push_next-Brings node ctx (next ∷ rest) = refl

  push_step-Brings :
      (node : Node) (ctx : PushCtx) (r : WireResponse Value) → Brings [] node (push_step node ctx r)
  unfolding replay
  push_step-Brings node ctx WireResponse.push_ack =
      push_next-Brings node (record ctx { pushed = add_u32 ctx.pushed 1 }) ctx.remaining
  push_step-Brings node ctx (WireResponse.error m) = refl
  push_step-Brings node ctx WireResponse.hello_ack = refl
  push_step-Brings node ctx (WireResponse.catalog heads) = refl
  push_step-Brings node ctx (WireResponse.pull notes) = refl
  push_step-Brings node ctx (WireResponse.batch b) = refl
  push_step-Brings node ctx (WireResponse.batch_ack n) = refl

  batch_sync_step-Brings :
      (node : Node) (ctx : BatchSyncCtx) (step : BatchSyncStep) (r : WireResponse Value)
      → Brings (batch_step_brings step r) node (batch_sync_step node ctx step r)
  unfolding replay
  batch_sync_step-Brings node ctx awaiting_remote_batch (WireResponse.batch b) = refl
  batch_sync_step-Brings node ctx awaiting_push_ack (WireResponse.batch b) = refl
  batch_sync_step-Brings node ctx awaiting_remote_batch (WireResponse.batch_ack n) = refl
  batch_sync_step-Brings node ctx awaiting_push_ack (WireResponse.batch_ack n) = refl
  batch_sync_step-Brings node ctx awaiting_remote_batch (WireResponse.error m) = refl
  batch_sync_step-Brings node ctx awaiting_push_ack (WireResponse.error m) = refl
  batch_sync_step-Brings node ctx awaiting_remote_batch WireResponse.hello_ack = refl
  batch_sync_step-Brings node ctx awaiting_push_ack WireResponse.hello_ack = refl
  batch_sync_step-Brings node ctx awaiting_remote_batch WireResponse.push_ack = refl
  batch_sync_step-Brings node ctx awaiting_push_ack WireResponse.push_ack = refl
  batch_sync_step-Brings node ctx awaiting_remote_batch (WireResponse.catalog h) = refl
  batch_sync_step-Brings node ctx awaiting_push_ack (WireResponse.catalog h) = refl
  batch_sync_step-Brings node ctx awaiting_remote_batch (WireResponse.pull h) = refl
  batch_sync_step-Brings node ctx awaiting_push_ack (WireResponse.pull h) = refl

  module _ (node : Node) (id : RequestId) (r : WireResponse Value) where
    pull_found-Brings :
        (ctx : Option PullCtx) → Brings (pull_brings ctx r) node (pull_found node id r ctx)
    unfolding replay
    pull_found-Brings none = refl
    pull_found-Brings (some ctx) = pull_step-Brings node id ctx ctx.step r

    push_found-Brings : (ctx : Option PushCtx) → Brings [] node (push_found node id r ctx)
    unfolding replay
    push_found-Brings none = refl
    push_found-Brings (some ctx) = push_step-Brings _ ctx r

    batch_sync_found-Brings :
        (ctx : Option BatchSyncCtx)
        → Brings (batch_brings ctx r) node (batch_sync_found node id r ctx)
    unfolding replay
    batch_sync_found-Brings none = refl
    batch_sync_found-Brings (some ctx) = batch_sync_step-Brings _ ctx ctx.step r

    pub failed-Brings :
        (error : String) (p : Option PullCtx) (q : Option PushCtx) (b : Option BatchSyncCtx)
        → Brings [] node (failed node id error p q b)
    unfolding replay
    failed-Brings error (some ctx) q b = refl
    failed-Brings error none (some ctx) b = refl
    failed-Brings error none none (some ctx) = refl
    failed-Brings error none none none = refl

    pub handle_response-Brings : Brings (response_brings node id r) node (handle_response node id r)
    unfolding handle_response handle_pull_response handle_push_response handle_batch_sync_response
        response_brings replay
    handle_response-Brings =
        by_map (HashMap.contains_key node.pulls id) (HashMap.contains_key node.pushes id)
          (HashMap.contains_key node.batch_syncs id)
      where
        by_map :
            (a b c : Bool)
            → Brings
                (if a
                  then pull_brings (HashMap.get node.pulls id) r
                  else if b
                  then []
                  else if c
                  then batch_brings (HashMap.get node.batch_syncs id) r
                  else [])
                node
                (if a
                  then handle_pull_response node id r
                  else if b
                  then handle_push_response node id r
                  else if c
                  then handle_batch_sync_response node id r
                  else node)
        by_map true b c = pull_found-Brings (HashMap.get node.pulls id)
        by_map false true c = push_found-Brings (HashMap.get node.pushes id)
        by_map false false true = batch_sync_found-Brings (HashMap.get node.batch_syncs id)
        by_map false false false = refl

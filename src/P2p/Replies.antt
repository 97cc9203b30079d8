-- ===== src/P2p/Replies.antt =====
-- handle_pull_response, handle_push_response and handle_batch_sync_response: the three protocols
-- that this sidecar drives, each a step on its entry in the map of what is pending.
use mesh_pad.Base.{String, Option, none, some, List, [], ◌∷◌, ok, err, HashKey, add_u32}
use mesh_pad.External.Json.{Json}
use mesh_pad.External.Base64.{Base64}
use mesh_pad.External.Libp2p.{Libp2p}
use mesh_pad.HashMap
use mesh_pad.HashMap.{HashMap}
use mesh_pad.WireProtocol.{WireRequest, WireResponse}
use mesh_pad.WireStore.{import_snapshots}
use mesh_pad.WireStore.Catalog.{ids_of_heads}
use mesh_pad.WireBatch.{import_batch, export_batch}
use mesh_pad.P2p.{
  counted, synced, PullStep, awaiting_catalog, awaiting_notes, BatchSyncStep, awaiting_remote_batch,
  awaiting_push_ack, PullCtx, PushCtx, BatchSyncCtx, Node, send,
}

module _ ⦃json : Json⦄ ⦃libp2p : Libp2p json.Value⦄ where
  open json use {Value}
  open libp2p use {RequestId, request_key, send_request}

  instance abbrev pub id_key : HashKey RequestId
  id_key = request_key

  -- handle_pull_response, a catalog whose ids are given
  abbrev pub pull_ids : Node → RequestId → PullCtx → List String → Node
  pull_ids node request_id ctx [] =
      send (record node { pulls = HashMap.remove node.pulls request_id }) (counted ctx.reply (ok 0))
  pull_ids node request_id ctx (id ∷ ids) =
      let (pull_id, swarm') = send_request node.swarm ctx.peer (WireRequest.pull (id ∷ ids)) in
      record node {
        swarm = swarm';
        pulls =
            HashMap.insert (HashMap.remove node.pulls request_id) pull_id
              (record ctx { step = awaiting_notes });
      }

  -- The `match (step, response)` of handle_pull_response. Its last branch does nothing.
  abbrev pub pull_step : Node → RequestId → PullCtx → PullStep → WireResponse Value → Node
  pull_step node request_id ctx awaiting_catalog (WireResponse.catalog heads) =
      pull_ids node request_id ctx (ids_of_heads heads)
  pull_step node request_id ctx awaiting_notes (WireResponse.pull notes) =
      let (imported, wire') = import_snapshots node.wire notes in
      send (record node { wire = wire'; pulls = HashMap.remove node.pulls request_id })
        (counted ctx.reply (ok imported))
  pull_step node request_id ctx _ (WireResponse.error message) =
      send (record node { pulls = HashMap.remove node.pulls request_id })
        (counted ctx.reply (err message))
  pull_step node request_id ctx _ _ = node

  abbrev pub pull_found : Node → RequestId → WireResponse Value → Option PullCtx → Node
  pull_found node request_id response none = node
  pull_found node request_id response (some ctx) = pull_step node request_id ctx ctx.step response

  unfoldable pub handle_pull_response : Node → RequestId → WireResponse Value → Node
  handle_pull_response node request_id response =
      pull_found node request_id response (HashMap.get node.pulls request_id)

  -- handle_push_response after an acknowledgement, which `ctx` counts already
  abbrev pub push_next : Node → PushCtx → List Value → Node
  push_next node ctx [] = send node (counted ctx.reply (ok ctx.pushed))
  push_next node ctx (next ∷ rest) =
      let (new_id, swarm') = send_request node.swarm ctx.peer (WireRequest.push next) in
      record node {
        swarm = swarm';
        pushes = HashMap.insert node.pushes new_id (record ctx { remaining = rest });
      }

  abbrev pub push_step : Node → PushCtx → WireResponse Value → Node
  push_step node ctx WireResponse.push_ack =
      push_next node (record ctx { pushed = add_u32 ctx.pushed 1 }) ctx.remaining
  push_step node ctx (WireResponse.error message) = send node (counted ctx.reply (err message))
  push_step node ctx _ = send node (counted ctx.reply (err "unexpected wire response during push"))

  abbrev pub push_found : Node → RequestId → WireResponse Value → Option PushCtx → Node
  push_found node request_id response none = node
  push_found node request_id response (some ctx) =
      push_step (record node { pushes = HashMap.remove node.pushes request_id }) ctx response

  unfoldable pub handle_push_response : Node → RequestId → WireResponse Value → Node
  handle_push_response node request_id response =
      push_found node request_id response (HashMap.get node.pushes request_id)

module _ ⦃json : Json⦄ ⦃base64 : Base64⦄ ⦃libp2p : Libp2p json.Value⦄ where
  open json use {Value}
  open libp2p use {RequestId, send_request}

  -- handle_batch_sync_response, when the remote batch has come
  abbrev pub batch_received : Node → BatchSyncCtx → Value → Node
  batch_received node ctx batch =
      let r = import_batch batch node.wire node.attachments in
      let local_batch = export_batch r.wire r.attachments in
      let (push_id, swarm') =
        send_request node.swarm ctx.peer (WireRequest.push_batch local_batch) in
      record node {
        wire = r.wire;
        attachments = r.attachments;
        swarm = swarm';
        batch_syncs =
            HashMap.insert node.batch_syncs push_id
              (record ctx { imported = r.count; step = awaiting_push_ack });
      }

  abbrev pub batch_sync_step : Node → BatchSyncCtx → BatchSyncStep → WireResponse Value → Node
  batch_sync_step node ctx awaiting_remote_batch (WireResponse.batch batch) =
      batch_received node ctx batch
  batch_sync_step node ctx awaiting_push_ack (WireResponse.batch_ack imported) =
      send node (synced ctx.reply (ok (record { imported = ctx.imported; pushed = imported })))
  batch_sync_step node ctx _ (WireResponse.error message) =
      send node (synced ctx.reply (err message))
  batch_sync_step node ctx _ _ =
      send node (synced ctx.reply (err "unexpected wire response during batch sync"))

  abbrev pub batch_sync_found : Node → RequestId → WireResponse Value → Option BatchSyncCtx → Node
  batch_sync_found node request_id response none = node
  batch_sync_found node request_id response (some ctx) =
      batch_sync_step (record node { batch_syncs = HashMap.remove node.batch_syncs request_id }) ctx
        ctx.step response

  unfoldable pub handle_batch_sync_response : Node → RequestId → WireResponse Value → Node
  handle_batch_sync_response node request_id response =
      batch_sync_found node request_id response (HashMap.get node.batch_syncs request_id)

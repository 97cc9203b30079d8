-- ===== src/P2p/Pending/Replies.antt =====
-- The three reply handlers keep the pending maps consistent.
use mesh_pad.Base.{add_u32, String, List, [], ◌∷◌, Option-cases, inl, inr}
use mesh_pad.External.Json.{Json}
use mesh_pad.External.Base64.{Base64}
use mesh_pad.External.Libp2p.{Libp2p}
use mesh_pad.HashMap
use mesh_pad.WireProtocol.{WireRequest, WireResponse}
use mesh_pad.WireStore.Catalog.{ids_of_heads}
use mesh_pad.P2p.{
  Answer, PullStep, awaiting_catalog, awaiting_notes, BatchSyncStep, awaiting_remote_batch,
  awaiting_push_ack, PullCtx, PushCtx, BatchSyncCtx, Node,
}
use mesh_pad.P2p.Replies.{
  id_key, pull_ids, pull_step, handle_pull_response, push_next, push_step, handle_push_response,
  batch_sync_step, handle_batch_sync_response,
}
use mesh_pad.P2p.Pending.{
  Tracked, Tracked-remove, Tracked-send_request, Tracked-insert, IsConsistent, Apart-remove_pull,
  Apart-remove_push, Apart-remove_batch_sync, Apart-insert_pull, Apart-insert_push,
  Apart-insert_batch_sync,
}

module _ ⦃json : Json⦄ ⦃libp2p : Libp2p json.Value⦄ (node : Node) (c : IsConsistent node) where
  open json use {Value}
  open libp2p use {RequestId}

  module _ (id : RequestId) where
    pub pulls_taken : Tracked node.swarm (HashMap.remove node.pulls id)
    pulls_taken = Tracked-remove node.pulls id c.pulls

    pub pushes_taken : Tracked node.swarm (HashMap.remove node.pushes id)
    pushes_taken = Tracked-remove node.pushes id c.pushes

    pub batch_syncs_taken : Tracked node.swarm (HashMap.remove node.batch_syncs id)
    batch_syncs_taken = Tracked-remove node.batch_syncs id c.batch_syncs

    pull_ids-IsConsistent :
        (ctx : PullCtx) (ids : List String) → IsConsistent (pull_ids node id ctx ids)
    pull_ids-IsConsistent ctx [] = record {
      pulls = pulls_taken;
      pushes = c.pushes;
      batch_syncs = c.batch_syncs;
      apart = Apart-remove_pull c.apart id;
    }
    pull_ids-IsConsistent ctx (i ∷ ids) = record {
      pulls = Tracked-insert node.swarm ctx.peer (WireRequest.pull (i ∷ ids)) _ _ pulls_taken;
      pushes = Tracked-send_request node.swarm ctx.peer (WireRequest.pull (i ∷ ids)) c.pushes;
      batch_syncs =
          Tracked-send_request node.swarm ctx.peer (WireRequest.pull (i ∷ ids)) c.batch_syncs;
      apart =
          Apart-insert_pull (Apart-remove_pull c.apart id) node.swarm ctx.peer
            (WireRequest.pull (i ∷ ids)) _ c.pushes c.batch_syncs;
    }

    pull_step-IsConsistent :
        (ctx : PullCtx) (step : PullStep) (response : WireResponse Value)
        → IsConsistent (pull_step node id ctx step response)
    pull_step-IsConsistent ctx awaiting_catalog (WireResponse.catalog heads) =
        pull_ids-IsConsistent ctx (ids_of_heads heads)
    pull_step-IsConsistent ctx awaiting_notes (WireResponse.pull notes) = record {
      pulls = pulls_taken;
      pushes = c.pushes;
      batch_syncs = c.batch_syncs;
      apart = Apart-remove_pull c.apart id;
    }
    pull_step-IsConsistent ctx _ (WireResponse.error message) = record {
      pulls = pulls_taken;
      pushes = c.pushes;
      batch_syncs = c.batch_syncs;
      apart = Apart-remove_pull c.apart id;
    }
    pull_step-IsConsistent ctx _ _ = c

    pub handle_pull_response-IsConsistent :
        (response : WireResponse Value) → IsConsistent (handle_pull_response node id response)
    unfolding handle_pull_response
    handle_pull_response-IsConsistent response = elim (Option-cases (HashMap.get node.pulls id)) [
      | inl e ↦ rw e c
      | inr (ctx, e) ↦ rw e (pull_step-IsConsistent ctx ctx.step response)
    ]

    abbrev push_taken : Node
    push_taken = record node { pushes = HashMap.remove node.pushes id }

    push_taken-IsConsistent : IsConsistent push_taken
    push_taken-IsConsistent = record {
      pulls = c.pulls;
      pushes = pushes_taken;
      batch_syncs = c.batch_syncs;
      apart = Apart-remove_push c.apart id;
    }

    push_next-IsConsistent :
        (ctx : PushCtx) (rest : List Value) → IsConsistent (push_next push_taken ctx rest)
    push_next-IsConsistent ctx [] = record {
      pulls = c.pulls;
      pushes = pushes_taken;
      batch_syncs = c.batch_syncs;
      apart = Apart-remove_push c.apart id;
    }
    push_next-IsConsistent ctx (next ∷ rest) = record {
      pulls = Tracked-send_request node.swarm ctx.peer (WireRequest.push next) c.pulls;
      pushes = Tracked-insert node.swarm ctx.peer (WireRequest.push next) _ _ pushes_taken;
      batch_syncs = Tracked-send_request node.swarm ctx.peer (WireRequest.push next) c.batch_syncs;
      apart =
          Apart-insert_push (Apart-remove_push c.apart id) node.swarm ctx.peer
            (WireRequest.push next) _ c.pulls c.batch_syncs;
    }

    push_step-IsConsistent :
        (ctx : PushCtx) (response : WireResponse Value)
        → IsConsistent (push_step push_taken ctx response)
    push_step-IsConsistent ctx WireResponse.push_ack =
        push_next-IsConsistent (record ctx { pushed = add_u32 ctx.pushed 1 }) ctx.remaining
    push_step-IsConsistent ctx _ = record {
      pulls = c.pulls;
      pushes = pushes_taken;
      batch_syncs = c.batch_syncs;
      apart = Apart-remove_push c.apart id;
    }

    pub handle_push_response-IsConsistent :
        (response : WireResponse Value) → IsConsistent (handle_push_response node id response)
    unfolding handle_push_response
    handle_push_response-IsConsistent response = elim (Option-cases (HashMap.get node.pushes id)) [
      | inl e ↦ rw e c
      | inr (ctx, e) ↦ rw e (push_step-IsConsistent ctx response)
    ]

module _ ⦃json : Json⦄ ⦃base64 : Base64⦄ ⦃libp2p : Libp2p json.Value⦄ (node : Node)
    (c : IsConsistent node) (id : libp2p.RequestId) where
  open json use {Value}

  abbrev batch_taken : Node
  batch_taken = record node { batch_syncs = HashMap.remove node.batch_syncs id }

  settled : {answers : List Answer} → IsConsistent (record batch_taken { answers = answers })
  settled = record {
    pulls = c.pulls;
    pushes = c.pushes;
    batch_syncs = batch_syncs_taken node c id;
    apart = Apart-remove_batch_sync c.apart id;
  }

  batch_sync_step-IsConsistent :
      (ctx : BatchSyncCtx) (step : BatchSyncStep) (response : WireResponse Value)
      → IsConsistent (batch_sync_step batch_taken ctx step response)
  batch_sync_step-IsConsistent ctx awaiting_remote_batch (WireResponse.batch batch) = record {
    pulls = Tracked-send_request node.swarm ctx.peer _ c.pulls;
    pushes = Tracked-send_request node.swarm ctx.peer _ c.pushes;
    batch_syncs = Tracked-insert node.swarm ctx.peer _ _ _ (batch_syncs_taken node c id);
    apart =
        Apart-insert_batch_sync (Apart-remove_batch_sync c.apart id) node.swarm ctx.peer _ _ c.pulls
          c.pushes;
  }
  batch_sync_step-IsConsistent ctx awaiting_push_ack (WireResponse.batch_ack imported) = settled
  batch_sync_step-IsConsistent ctx _ (WireResponse.error message) = settled
  batch_sync_step-IsConsistent ctx _ _ = settled

  pub handle_batch_sync_response-IsConsistent :
      (response : WireResponse Value) → IsConsistent (handle_batch_sync_response node id response)
  unfolding handle_batch_sync_response
  handle_batch_sync_response-IsConsistent response =
      elim (Option-cases (HashMap.get node.batch_syncs id)) [
        | inl e ↦ rw e c
        | inr (ctx, e) ↦ rw e (batch_sync_step-IsConsistent ctx ctx.step response)
      ]

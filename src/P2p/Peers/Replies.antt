-- ===== src/P2p/Peers/Replies.antt =====
-- The responses to this node's own requests, and failures, change nothing of what it knows of its
-- peers.
use mesh_pad.Base.{
  add_u32, true, false, ◌≡◌, refl, sym, subst, ap, String, Bool, Option, none, some, List, [], ◌∷◌,
  string_key, arith, if◌then◌else◌,
}
use mesh_pad.External.Json.{Json}
use mesh_pad.External.Base64.{Base64}
use mesh_pad.External.Libp2p.{Libp2p}
use mesh_pad.HashMap
use mesh_pad.HashMap.{HashMap}
use mesh_pad.HashMap.Distinct.{Distinct}
use mesh_pad.WireProtocol.{WireResponse}
use mesh_pad.WireStore.Catalog.{ids_of_heads}
use mesh_pad.P2p.{
  Node, PullCtx, PushCtx, BatchSyncCtx, PullStep, BatchSyncStep, awaiting_catalog, awaiting_notes,
  awaiting_remote_batch, awaiting_push_ack,
}
use mesh_pad.P2p.Respond.{contains}
use mesh_pad.P2p.Replies.{
  id_key, pull_ids, pull_step, pull_found, handle_pull_response, push_next, push_step, push_found,
  handle_push_response, batch_sync_step, batch_sync_found, handle_batch_sync_response,
}
use mesh_pad.P2p.Loop.{handle_response, failed}
use mesh_pad.P2p.Peers.{IsAnnounced}

module _ ⦃json : Json⦄ ⦃base64 : Base64⦄ ⦃libp2p : Libp2p json.Value⦄ where
  open json use {Value}
  open libp2p use {PeerId, RequestId, Channel, Multiaddr, Swarm}

  -- What a node knows of its peers.
  abbrev pub known : Node → HashMap String PeerId × List String
  known node = (node.meshpad_peers, node.announced)

  pub IsAnnounced-known :
      (node node' : Node) → known node' ≡ known node → IsAnnounced node → IsAnnounced node'
  unfolding contains
  IsAnnounced-known node node' e h = record {
    distinct = subst (λ m. Distinct ⦃e = string_key⦄ m) (sym (ap (λ k. k.0) e)) h.distinct;
    same_ids = λ id. ground (arith, ap (λ k. k.0) e, ap (λ k. k.1) e, h.same_ids id);
  }

  known-pull_step :
      (node : Node) (id : RequestId) (ctx : PullCtx) (step : PullStep) (r : WireResponse Value)
      → known (pull_step node id ctx step r) ≡ known node
  known-pull_step node id ctx awaiting_catalog (WireResponse.catalog heads) =
      by_ids (ids_of_heads heads)
    where
      by_ids : (ids : List String) → known (pull_ids node id ctx ids) ≡ known node
      by_ids [] = refl
      by_ids (i ∷ ids) = refl
  known-pull_step node id ctx awaiting_notes (WireResponse.catalog heads) = refl
  known-pull_step node id ctx awaiting_catalog (WireResponse.pull notes) = refl
  known-pull_step node id ctx awaiting_notes (WireResponse.pull notes) = refl
  known-pull_step node id ctx awaiting_catalog (WireResponse.batch b) = refl
  known-pull_step node id ctx awaiting_notes (WireResponse.batch b) = refl
  known-pull_step node id ctx awaiting_catalog (WireResponse.batch_ack n) = refl
  known-pull_step node id ctx awaiting_notes (WireResponse.batch_ack n) = refl
  known-pull_step node id ctx awaiting_catalog WireResponse.hello_ack = refl
  known-pull_step node id ctx awaiting_notes WireResponse.hello_ack = refl
  known-pull_step node id ctx awaiting_catalog WireResponse.push_ack = refl
  known-pull_step node id ctx awaiting_notes WireResponse.push_ack = refl
  known-pull_step node id ctx awaiting_catalog (WireResponse.error m) = refl
  known-pull_step node id ctx awaiting_notes (WireResponse.error m) = refl

  known-push_next :
      (node : Node) (ctx : PushCtx) (l : List Value) → known (push_next node ctx l) ≡ known node
  known-push_next node ctx [] = refl
  known-push_next node ctx (next ∷ rest) = refl

  known-push_step :
      (node : Node) (ctx : PushCtx) (r : WireResponse Value)
      → known (push_step node ctx r) ≡ known node
  known-push_step node ctx WireResponse.push_ack =
      known-push_next node (record ctx { pushed = add_u32 ctx.pushed 1 }) ctx.remaining
  known-push_step node ctx (WireResponse.error m) = refl
  known-push_step node ctx WireResponse.hello_ack = refl
  known-push_step node ctx (WireResponse.catalog heads) = refl
  known-push_step node ctx (WireResponse.pull notes) = refl
  known-push_step node ctx (WireResponse.batch b) = refl
  known-push_step node ctx (WireResponse.batch_ack n) = refl

  known-batch_sync_step :
      (node : Node) (ctx : BatchSyncCtx) (step : BatchSyncStep) (r : WireResponse Value)
      → known (batch_sync_step node ctx step r) ≡ known node
  known-batch_sync_step node ctx awaiting_remote_batch (WireResponse.batch b) = refl
  known-batch_sync_step node ctx awaiting_push_ack (WireResponse.batch b) = refl
  known-batch_sync_step node ctx awaiting_remote_batch (WireResponse.batch_ack n) = refl
  known-batch_sync_step node ctx awaiting_push_ack (WireResponse.batch_ack n) = refl
  known-batch_sync_step node ctx awaiting_remote_batch (WireResponse.error m) = refl
  known-batch_sync_step node ctx awaiting_push_ack (WireResponse.error m) = refl
  known-batch_sync_step node ctx awaiting_remote_batch WireResponse.hello_ack = refl
  known-batch_sync_step node ctx awaiting_push_ack WireResponse.hello_ack = refl
  known-batch_sync_step node ctx awaiting_remote_batch WireResponse.push_ack = refl
  known-batch_sync_step node ctx awaiting_push_ack WireResponse.push_ack = refl
  known-batch_sync_step node ctx awaiting_remote_batch (WireResponse.catalog h) = refl
  known-batch_sync_step node ctx awaiting_push_ack (WireResponse.catalog h) = refl
  known-batch_sync_step node ctx awaiting_remote_batch (WireResponse.pull h) = refl
  known-batch_sync_step node ctx awaiting_push_ack (WireResponse.pull h) = refl

  module _ (node : Node) (id : RequestId) where
    known-pull_found :
        (r : WireResponse Value) (ctx : Option PullCtx)
        → known (pull_found node id r ctx) ≡ known node
    known-pull_found r none = refl
    known-pull_found r (some ctx) = known-pull_step node id ctx ctx.step r

    known-push_found :
        (r : WireResponse Value) (ctx : Option PushCtx)
        → known (push_found node id r ctx) ≡ known node
    known-push_found r none = refl
    known-push_found r (some ctx) = known-push_step _ ctx r

    known-batch_sync_found :
        (r : WireResponse Value) (ctx : Option BatchSyncCtx)
        → known (batch_sync_found node id r ctx) ≡ known node
    known-batch_sync_found r none = refl
    known-batch_sync_found r (some ctx) = known-batch_sync_step _ ctx ctx.step r

    pub known-failed :
        (error : String) (p : Option PullCtx) (q : Option PushCtx) (b : Option BatchSyncCtx)
        → known (failed node id error p q b) ≡ known node
    known-failed error (some ctx) q b = refl
    known-failed error none (some ctx) b = refl
    known-failed error none none (some ctx) = refl
    known-failed error none none none = refl

    pub known-handle_response :
        (r : WireResponse Value) → known (handle_response node id r) ≡ known node
    unfolding handle_response handle_pull_response handle_push_response handle_batch_sync_response
    known-handle_response r =
        by_map (HashMap.contains_key node.pulls id) (HashMap.contains_key node.pushes id)
          (HashMap.contains_key node.batch_syncs id)
      where
        by_map :
            (a b c : Bool)
            → known (
                if a
                then handle_pull_response node id r
                else if b
                then handle_push_response node id r
                else if c
                then handle_batch_sync_response node id r
                else node)
              ≡ known node
        by_map true b c = known-pull_found r (HashMap.get node.pulls id)
        by_map false true c = known-push_found r (HashMap.get node.pushes id)
        by_map false false true = known-batch_sync_found r (HashMap.get node.batch_syncs id)
        by_map false false false = refl

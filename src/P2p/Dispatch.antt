-- ===== src/P2p/Dispatch.antt =====
-- Which handler a response reaches, and the entry that it finds.
use mesh_pad.Base.{◌≡◌, none, some}
use mesh_pad.External.Json.{Json}
use mesh_pad.External.Base64.{Base64}
use mesh_pad.External.Libp2p.{Libp2p}
use mesh_pad.HashMap
use mesh_pad.WireProtocol.{WireResponse}
use mesh_pad.P2p.{PullCtx, PushCtx, BatchSyncCtx, Node}
use mesh_pad.P2p.Replies.{
  id_key, pull_step, handle_pull_response, push_step, handle_push_response, batch_sync_step,
  handle_batch_sync_response,
}
use mesh_pad.P2p.Loop.{handle_response}

module _ ⦃json : Json⦄ ⦃base64 : Base64⦄ ⦃libp2p : Libp2p json.Value⦄ (node : Node)
    (id : libp2p.RequestId) (response : WireResponse json.Value) where
  pub handle_response-pull :
      (ctx : PullCtx)
      → HashMap.get node.pulls id ≡ some ctx
      → handle_response node id response ≡ pull_step node id ctx ctx.step response
  unfolding handle_response handle_pull_response
  handle_response-pull ctx found = rw (found, HashMap.contains_key)

  pub handle_response-push :
      (ctx : PushCtx)
      → HashMap.get node.pulls id ≡ none
      → HashMap.get node.pushes id ≡ some ctx
      → handle_response node id response
        ≡ push_step (record node { pushes = HashMap.remove node.pushes id }) ctx response
  unfolding handle_response handle_push_response
  handle_response-push ctx no_pull found = rw (no_pull, found)

  pub handle_response-batch_sync :
      (ctx : BatchSyncCtx)
      → HashMap.get node.pulls id ≡ none
      → HashMap.get node.pushes id ≡ none
      → HashMap.get node.batch_syncs id ≡ some ctx
      → handle_response node id response
        ≡ batch_sync_step
            (record node { batch_syncs = HashMap.remove node.batch_syncs id })
            ctx
            ctx.step
            response
  unfolding handle_response handle_batch_sync_response
  handle_response-batch_sync ctx no_pull no_push found = rw (no_pull, no_push, found)

  -- A response whose request id is in none of the three maps of pending requests changes nothing.
  pub handle_response-unknown :
      HashMap.get node.pulls id ≡ none
      → HashMap.get node.pushes id ≡ none
      → HashMap.get node.batch_syncs id ≡ none
      → handle_response node id response ≡ node
  unfolding handle_response
  handle_response-unknown no_pull no_push no_batch = rw (no_pull, no_push, no_batch)

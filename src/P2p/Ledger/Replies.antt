-- ===== src/P2p/Ledger/Replies.antt =====
-- The three reply handlers keep every account, and keep the pending maps consistent.
use mesh_pad.Base.{
  ℕ, ◌≡◌, refl, String, some, List, [], ◌∷◌, arith, Option-cases, inl, inr, Result, ok, err,
}
use mesh_pad.External.Json.{Json}
use mesh_pad.External.Base64.{Base64}
use mesh_pad.External.Libp2p.{Libp2p}
use mesh_pad.HashMap
use mesh_pad.HashMap.Tally.{tally-insert, tally-remove}
use mesh_pad.WireProtocol.{WireRequest, WireResponse}
use mesh_pad.WireStore.Catalog.{ids_of_heads}
use mesh_pad.WireBatch.{import_batch, export_batch}
use mesh_pad.P2p.{
  Sender, SyncBatchStats, counted, synced, PullStep, awaiting_catalog, awaiting_notes,
  BatchSyncStep, awaiting_remote_batch, awaiting_push_ack, PullCtx, PushCtx, BatchSyncCtx, Node,
  send,
}
use mesh_pad.P2p.Replies.{
  id_key, pull_ids, pull_step, handle_pull_response, push_next, push_step, handle_push_response,
  batch_received, batch_sync_step, handle_batch_sync_response,
}
use mesh_pad.P2p.Pending.{Tracked-remove, get-fresh, IsConsistent}
use mesh_pad.P2p.Ledger.{answered-append, pull_share, push_share, batch_sync_share, account}

module _ ⦃json : Json⦄ ⦃libp2p : Libp2p json.Value⦄ (caller : Sender) (node : Node)
    (c : IsConsistent node) where
  open json use {Value}
  open libp2p use {RequestId, send_request}

  module _ (id : RequestId) (ctx : PullCtx) (found : HashMap.get node.pulls id ≡ some ctx) where
    pub pull_answered :
        (a : Result ℕ String)
        → account caller
            (send (record node { pulls = HashMap.remove node.pulls id }) (counted ctx.reply a))
          ≡ account caller node
    unfolding account
    pull_answered a = omega (
      arith,
      answered-append caller node.answers (counted ctx.reply a),
      tally-remove (pull_share caller) node.pulls id ctx c.pulls.distinct found,
    )

    pull_ids-account :
        (ids : List String) → account caller (pull_ids node id ctx ids) ≡ account caller node
    unfolding account
    pull_ids-account [] = pull_answered (ok 0)
    pull_ids-account (i ∷ ids) = omega (
      arith,
      tally-remove (pull_share caller) node.pulls id ctx c.pulls.distinct found,
      tally-insert (pull_share caller) (HashMap.remove node.pulls id) _
          (record ctx { step = awaiting_notes })
          (get-fresh node.swarm ctx.peer (WireRequest.pull (i ∷ ids)) _
            (Tracked-remove node.pulls id c.pulls)),
    )

    pull_step-account :
        (step : PullStep) (response : WireResponse Value)
        → account caller (pull_step node id ctx step response) ≡ account caller node
    unfolding account
    pull_step-account awaiting_catalog (WireResponse.catalog heads) =
        pull_ids-account (ids_of_heads heads)
    pull_step-account awaiting_notes (WireResponse.pull notes) = pull_answered (ok _)
    pull_step-account _ (WireResponse.error message) = pull_answered (err message)
    pull_step-account _ _ = refl

  pub handle_pull_response-account :
      (id : RequestId) (response : WireResponse Value)
      → account caller (handle_pull_response node id response) ≡ account caller node
  unfolding handle_pull_response
  handle_pull_response-account id response = elim (Option-cases (HashMap.get node.pulls id)) [
    | inl e ↦ rw e
    | inr (ctx, e) ↦ rw e (pull_step-account id ctx e ctx.step response)
  ]

  module _ (id : RequestId) (ctx : PushCtx) (found : HashMap.get node.pushes id ≡ some ctx) where
    abbrev pub push_taken : Node
    push_taken = record node { pushes = HashMap.remove node.pushes id }

    pub push_answered :
        (a : Result ℕ String)
        → account caller (send push_taken (counted ctx.reply a)) ≡ account caller node
    unfolding account
    push_answered a = omega (
      arith,
      answered-append caller node.answers (counted ctx.reply a),
      tally-remove (push_share caller) node.pushes id ctx c.pushes.distinct found,
    )

    push_next-account :
        (n : ℕ) (rest : List Value)
        → account caller (push_next push_taken (record ctx { pushed = n }) rest)
          ≡ account caller node
    unfolding account
    push_next-account n [] = push_answered (ok n)
    push_next-account n (next ∷ rest) = omega (
      arith,
      tally-remove (push_share caller) node.pushes id ctx c.pushes.distinct found,
      tally-insert (push_share caller) (HashMap.remove node.pushes id) _
          (record ctx { pushed = n; remaining = rest })
          (get-fresh node.swarm ctx.peer (WireRequest.push next) _
            (Tracked-remove node.pushes id c.pushes)),
    )

    push_step-account :
        (response : WireResponse Value)
        → account caller (push_step push_taken ctx response) ≡ account caller node
    push_step-account WireResponse.push_ack = push_next-account _ ctx.remaining
    push_step-account (WireResponse.error message) = push_answered (err message)
    push_step-account _ = push_answered (err "unexpected wire response during push")

  pub handle_push_response-account :
      (id : RequestId) (response : WireResponse Value)
      → account caller (handle_push_response node id response) ≡ account caller node
  unfolding handle_push_response
  handle_push_response-account id response = elim (Option-cases (HashMap.get node.pushes id)) [
    | inl e ↦ rw e
    | inr (ctx, e) ↦ rw e (push_step-account id ctx e response)
  ]

module _ ⦃json : Json⦄ ⦃base64 : Base64⦄ ⦃libp2p : Libp2p json.Value⦄ (caller : Sender)
    (node : Node) (c : IsConsistent node) where
  open json use {Value}
  open libp2p use {RequestId, send_request}

  module _ (id : RequestId) (ctx : BatchSyncCtx)
      (found : HashMap.get node.batch_syncs id ≡ some ctx) where
    abbrev pub batch_taken : Node
    batch_taken = record node { batch_syncs = HashMap.remove node.batch_syncs id }

    pub batch_answered :
        (a : Result SyncBatchStats String)
        → account caller (send batch_taken (synced ctx.reply a)) ≡ account caller node
    unfolding account
    batch_answered a = omega (
      arith,
      answered-append caller node.answers (synced ctx.reply a),
      tally-remove (batch_sync_share caller) node.batch_syncs id ctx c.batch_syncs.distinct found,
    )

    batch_received-account :
        (batch : Value)
        → account caller (batch_received batch_taken ctx batch) ≡ account caller node
    unfolding account
    batch_received-account batch = omega (
      arith,
      tally-remove (batch_sync_share caller) node.batch_syncs id ctx c.batch_syncs.distinct found,
      tally-insert (batch_sync_share caller) (HashMap.remove node.batch_syncs id) _
          (record ctx {
            imported = (import_batch batch node.wire node.attachments).count;
            step = awaiting_push_ack;
          })
          (get-fresh node.swarm ctx.peer
            (WireRequest.push_batch (
              export_batch (import_batch batch node.wire node.attachments).wire
                (import_batch batch node.wire node.attachments).attachments))
            _ (Tracked-remove node.batch_syncs id c.batch_syncs)),
    )

    batch_sync_step-account :
        (step : BatchSyncStep) (response : WireResponse Value)
        → account caller (batch_sync_step batch_taken ctx step response) ≡ account caller node
    batch_sync_step-account awaiting_remote_batch (WireResponse.batch batch) =
        batch_received-account batch
    batch_sync_step-account awaiting_push_ack (WireResponse.batch_ack imported) =
        batch_answered (ok (record { imported = ctx.imported; pushed = imported }))
    batch_sync_step-account _ (WireResponse.error message) = batch_answered (err message)
    batch_sync_step-account _ _ = batch_answered (err "unexpected wire response during batch sync")

  pub handle_batch_sync_response-account :
      (id : RequestId) (response : WireResponse Value)
      → account caller (handle_batch_sync_response node id response) ≡ account caller node
  unfolding handle_batch_sync_response
  handle_batch_sync_response-account id response =
      elim (Option-cases (HashMap.get node.batch_syncs id)) [
        | inl e ↦ rw e
        | inr (ctx, e) ↦ rw e (batch_sync_step-account id ctx e ctx.step response)
      ]

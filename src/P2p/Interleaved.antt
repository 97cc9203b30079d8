-- ===== src/P2p/Interleaved.antt =====
-- p2p.rs: a batch sync while the loop handles other commands and events.
use mesh_pad.Base.{
  ℕ, ◌≡◌, ap, String, none, some, List, [], ◌∷◌, ◌++◌, ok, All, inl, inr, string_key,
}
use mesh_pad.External.Json.{Json}
use mesh_pad.External.Base64.{Base64}
use mesh_pad.External.Libp2p.{Libp2p}
use mesh_pad.HashMap
use mesh_pad.HashMap.Laws.{get-insert_self}
use mesh_pad.WireProtocol.{WireRequest, WireResponse}
use mesh_pad.WireBatch.{Imported, import_batch, export_batch}
use mesh_pad.P2p.{
  Sender, batch_sync_with_meshpad_peer, P2pConfig, BatchSyncCtx, awaiting_remote_batch,
  awaiting_push_ack, synced, wire_response, Node, send,
}
use mesh_pad.P2p.Replies.{id_key, batch_received}
use mesh_pad.P2p.Loop.{Input, command, run_swarm, handle_command, handle_swarm_event}
use mesh_pad.P2p.Dispatch.{handle_response-batch_sync}
use mesh_pad.P2p.Conversation.{stores}
use mesh_pad.P2p.Pending.{IsConsistent}
use mesh_pad.P2p.Pending.Loop.{handle_swarm_event-IsConsistent}
use mesh_pad.P2p.Ledger.Run.{run_swarm-IsConsistent}
use mesh_pad.P2p.Frame.Waits.{Spares, run_swarm-Waits}

module _ ⦃json : Json⦄ ⦃base64 : Base64⦄ ⦃libp2p : Libp2p json.Value⦄ where
  open json use {Value}
  open libp2p use {PeerId, RequestId, Swarm, send_request}

  -- The id of the request for the batch.
  abbrev pub first_id : Node → PeerId → RequestId
  first_id node peer = (send_request node.swarm peer WireRequest.get_batch).0

  -- The node once it was asked for a batch sync and has handled other inputs.
  abbrev pub asked : P2pConfig → Node → String → Sender → List Input → Node
  asked config node id reply between =
      run_swarm config node (command (batch_sync_with_meshpad_peer id reply) ∷ between)

  -- What a node has when it imports a batch, and the request that gives it all back.
  abbrev pub imported : Node → Value → Imported Value
  imported node batch = import_batch batch node.wire node.attachments

  abbrev pub given_back : Node → Value → WireRequest Value
  given_back node batch =
      let got = imported node batch in
      WireRequest.push_batch (export_batch got.wire got.attachments)

  abbrev pub second_id : Node → PeerId → Value → RequestId
  second_id node peer batch = (send_request node.swarm peer (given_back node batch)).0

  abbrev pub took : P2pConfig → Node → RequestId → Value → Node
  took config node id batch =
      handle_swarm_event config node (wire_response id (WireResponse.batch batch))

  abbrev first_ctx : PeerId → Sender → BatchSyncCtx
  first_ctx peer reply = record {
    peer = peer;
    reply = reply;
    step = awaiting_remote_batch;
    imported = 0;
  }

  abbrev second_ctx : PeerId → Sender → ℕ → BatchSyncCtx
  second_ctx peer reply count = record {
    peer = peer;
    reply = reply;
    step = awaiting_push_ack;
    imported = count;
  }

  module _ (config : P2pConfig) (node : Node) (c : IsConsistent node) (id : RequestId) where
    abbrev taken : Node
    taken = record node { batch_syncs = HashMap.remove node.batch_syncs id }

    module _ (ctx : BatchSyncCtx) (found : HashMap.get node.batch_syncs id ≡ some ctx) where
      no_pull : HashMap.get node.pulls id ≡ none
      no_pull = elim (c.apart.pulls_batch_syncs id) [ inl e ↦ e | inr e ↦ cc (e, found) ]

      no_push : HashMap.get node.pushes id ≡ none
      no_push = elim (c.apart.pushes_batch_syncs id) [ inl e ↦ e | inr e ↦ cc (e, found) ]

    on_batch :
        (peer : PeerId) (reply : Sender) (batch : Value)
        → HashMap.get node.batch_syncs id ≡ some (first_ctx peer reply)
        → took config node id batch ≡ batch_received taken (first_ctx peer reply) batch
    unfolding handle_swarm_event
    on_batch peer reply batch found =
        handle_response-batch_sync node id (WireResponse.batch batch) (first_ctx peer reply)
          (no_pull _ found) (no_push _ found) found

    on_ack :
        (peer : PeerId) (reply : Sender) (count n : ℕ)
        → HashMap.get node.batch_syncs id ≡ some (second_ctx peer reply count)
        → handle_swarm_event config node (wire_response id (WireResponse.batch_ack n))
          ≡ send taken (synced reply (ok (record { imported = count; pushed = n })))
    unfolding handle_swarm_event
    on_ack peer reply count n found =
        handle_response-batch_sync node id (WireResponse.batch_ack n) (second_ctx peer reply count)
          (no_pull _ found) (no_push _ found) found

  module _ (config : P2pConfig) (node : Node) (peer : PeerId) (id : String) (reply : Sender)
      (between : List Input) (c : IsConsistent node)
      (connected : HashMap.get ⦃e = string_key⦄ node.meshpad_peers id ≡ some peer)
      (spared : All (Spares (first_id node peer)) between) where
    asked-IsConsistent : IsConsistent (asked config node id reply between)
    asked-IsConsistent = run_swarm-IsConsistent config _ node c

    first_waits :
        HashMap.get (asked config node id reply between).batch_syncs (first_id node peer)
        ≡ some (first_ctx peer reply)
    unfolding run_swarm handle_command
    first_waits =
        run_swarm-Waits config (first_id node peer) (first_ctx peer reply) between
          (handle_command node (batch_sync_with_meshpad_peer id reply))
          (run_swarm-IsConsistent config (command (batch_sync_with_meshpad_peer id reply) ∷ []) node
            c)
          spared
          (rw connected
            (get-insert_self node.batch_syncs (first_id node peer) (first_ctx peer reply)))

    module _ (batch : Value) where
      abbrev at_batch : Node
      at_batch = asked config node id reply between

      abbrev count : ℕ
      count = (imported at_batch batch).count

      abbrev node_after : Node
      node_after =
          batch_received (taken config at_batch asked-IsConsistent (first_id node peer))
            (first_ctx peer reply) batch

      took_eq : took config at_batch (first_id node peer) batch ≡ node_after
      took_eq =
          on_batch config at_batch asked-IsConsistent (first_id node peer) peer reply batch
            first_waits

      second_waits :
          HashMap.get
            (took config at_batch (first_id node peer) batch).batch_syncs
            (second_id at_batch peer batch)
          ≡ some (second_ctx peer reply count)
      second_waits =
          rw took_eq
            (get-insert_self _ (second_id at_batch peer batch) (second_ctx peer reply count))

  -- A batch sync with a peer that the node knows, from a node whose three maps of pending requests
  -- hold an id at most once, in at most one of them, and only ids that its swarm has given out, and
  -- whatever else the loop handles meanwhile, but for its end and the end of the sync's two requests:
  -- the peer's batch is imported into the stores as they are when it comes, the node then asks the
  -- peer to import what it has, and at the peer's acknowledgement the caller is answered, with the
  -- count of what the node imported and the count that the peer sends, and the stores do not change.
  pub interleaved-batch_sync :
      (config : P2pConfig) (node : Node) (peer : PeerId) (id : String) (reply : Sender)
      (between later : List Input) (batch : Value) (n : ℕ)
      → IsConsistent node
      → HashMap.get ⦃e = string_key⦄ node.meshpad_peers id ≡ some peer
      → All (Spares (first_id node peer)) between
      → All (Spares (second_id (asked config node id reply between) peer batch)) later
      → let at_batch = asked config node id reply between in
        let got = imported at_batch batch in
        let taken_in = took config at_batch (first_id node peer) batch in
        let at_ack = run_swarm config taken_in later in
        let last =
          handle_swarm_event config at_ack
            (wire_response (second_id at_batch peer batch) (WireResponse.batch_ack n)) in
        (stores taken_in ≡ record { wire = got.wire; attachments = got.attachments })
        × (taken_in.swarm ≡ (send_request at_batch.swarm peer (given_back at_batch batch)).1)
        × (taken_in.answers ≡ at_batch.answers)
        × (stores last ≡ stores at_ack)
        × (last.answers
            ≡ at_ack.answers
              ++ synced reply (ok (record { imported = got.count; pushed = n })) ∷ [])
  interleaved-batch_sync config node peer id reply between later batch n c connected spared
        spared' =
      let at_batch = asked config node id reply between in
      let c1 : IsConsistent at_batch =
        asked-IsConsistent config node peer id reply between c connected spared in
      let eq = took_eq config node peer id reply between c connected spared batch in
      let taken_in = took config at_batch (first_id node peer) batch in
      let c2 : IsConsistent taken_in =
        handle_swarm_event-IsConsistent at_batch c1 config
          (wire_response (first_id node peer) (WireResponse.batch batch)) in
      let at_ack = run_swarm config taken_in later in
      let acked =
        on_ack config at_ack (run_swarm-IsConsistent config later taken_in c2)
          (second_id at_batch peer batch) peer reply (imported at_batch batch).count n
          (run_swarm-Waits config (second_id at_batch peer batch)
            (second_ctx peer reply (imported at_batch batch).count) later taken_in c2 spared'
            (second_waits config node peer id reply between c connected spared batch)) in
      (
        ap stores eq,
        ap (λ m. m.swarm) eq,
        ap (λ m. m.answers) eq,
        ap stores acked,
        ap (λ m. m.answers) acked,
      )

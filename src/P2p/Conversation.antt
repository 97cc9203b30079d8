-- ===== src/P2p/Conversation.antt =====
-- The batch sync between two nodes, message by message, and the specification that it meets.
use mesh_pad.Base.{ℕ, ◌≡◌, refl, String, some, [], ◌∷◌, ◌++◌, ok, string_key}
use mesh_pad.External.Json.{Json}
use mesh_pad.External.Base64.{Base64}
use mesh_pad.External.Libp2p.{Libp2p}
use mesh_pad.HashMap
use mesh_pad.HashMap.Laws.{get-insert_self}
use mesh_pad.WireProtocol.{WireRequest, WireResponse}
use mesh_pad.WireBatch.{import_batch, export_batch}
use mesh_pad.WireBatch.Exchange.{Stores, receive, batch_sync}
use mesh_pad.P2p.{
  Sender, synced, P2pConfig, wire_response, Node, batch_sync_with_meshpad_peer, BatchSyncCtx,
  awaiting_remote_batch, awaiting_push_ack, send,
}
use mesh_pad.P2p.Respond.{handle_request}
use mesh_pad.P2p.Loop.{start_batch_sync, handle_command, handle_swarm_event}
use mesh_pad.P2p.Replies.{id_key, batch_received}
use mesh_pad.P2p.Pending.{Tracked-send_request, get-fresh, IsConsistent}
use mesh_pad.P2p.Dispatch.{handle_response-batch_sync}

module _ ⦃json : Json⦄ ⦃base64 : Base64⦄ ⦃libp2p : Libp2p json.Value⦄ where
  open json use {Value}
  open libp2p use {PeerId, send_request}

  abbrev pub stores : Node → Stores
  stores node = record { wire = node.wire; attachments = node.attachments }

  -- The nodes after the messages of one batch sync: the command, `get_batch` and its response,
  -- `push_batch` and its response. `me` is the initiator as the remote node knows it.
  module _ (config : P2pConfig) (local remote : Node) (peer me : PeerId) (id : String)
      (reply : Sender) where
    abbrev pub asked_batch : Node
    asked_batch = handle_command local (batch_sync_with_meshpad_peer id reply)

    abbrev pub sent_batch : WireResponse Value × Node
    sent_batch = handle_request config remote me WireRequest.get_batch

    abbrev pub got_batch : Node
    got_batch =
        handle_swarm_event config asked_batch
          (wire_response (send_request local.swarm peer WireRequest.get_batch).0 sent_batch.0)

    abbrev pub push_request : WireRequest Value
    push_request = WireRequest.push_batch (export_batch got_batch.wire got_batch.attachments)

    abbrev pub took_batch : WireResponse Value × Node
    took_batch = handle_request config sent_batch.1 me push_request

    abbrev pub got_ack : Node
    got_ack =
        handle_swarm_event config got_batch
          (wire_response (send_request asked_batch.swarm peer push_request).0 took_batch.0)

  unfoldable pub conversation :
      P2pConfig → Node → Node → PeerId → PeerId → String → Sender → Node × Node
  conversation config local remote peer me id reply = (
    got_ack config local remote peer me id reply,
    (took_batch config local remote peer me id reply).1,
  )

  module _ (config : P2pConfig) (local : Node) (c : IsConsistent local) (peer : PeerId)
      (id : String) (reply : Sender) where
    abbrev started : Node
    started = start_batch_sync local id reply (some peer)

    abbrev first_id : libp2p.RequestId
    first_id = (send_request local.swarm peer WireRequest.get_batch).0

    abbrev first_ctx : BatchSyncCtx
    first_ctx = record { peer = peer; reply = reply; step = awaiting_remote_batch; imported = 0 }

    abbrev after_batch : Value → Node
    after_batch batch =
        batch_received
          (record started { batch_syncs = HashMap.remove started.batch_syncs first_id }) first_ctx
          batch

    started_eq :
        HashMap.get ⦃e = string_key⦄ local.meshpad_peers id ≡ some peer
        → handle_command local (batch_sync_with_meshpad_peer id reply) ≡ started
    unfolding handle_command
    started_eq connected = rw connected

    batch_response :
        (batch : Value)
        → handle_swarm_event config started (wire_response first_id (WireResponse.batch batch))
          ≡ after_batch batch
    unfolding handle_swarm_event
    batch_response batch =
        handle_response-batch_sync started first_id (WireResponse.batch batch) first_ctx
          (get-fresh local.swarm peer WireRequest.get_batch local.pulls c.pulls)
          (get-fresh local.swarm peer WireRequest.get_batch local.pushes c.pushes)
          (get-insert_self local.batch_syncs first_id first_ctx)

    module _ (batch : Value) where
      abbrev push_of : WireRequest Value
      push_of =
          WireRequest.push_batch
            (export_batch (after_batch batch).wire (after_batch batch).attachments)

      abbrev second_id : libp2p.RequestId
      second_id = (send_request started.swarm peer push_of).0

      abbrev second_ctx : BatchSyncCtx
      second_ctx = record {
        peer = peer;
        reply = reply;
        step = awaiting_push_ack;
        imported = (import_batch batch local.wire local.attachments).count;
      }

      ack_response :
          (n : ℕ)
          → handle_swarm_event config
              (after_batch batch)
              (wire_response second_id (WireResponse.batch_ack n))
            ≡ send
                (record (after_batch batch) {
                  batch_syncs = HashMap.remove (after_batch batch).batch_syncs second_id;
                })
                (synced reply (ok (record { imported = second_ctx.imported; pushed = n })))
      unfolding handle_swarm_event
      ack_response n =
          handle_response-batch_sync (after_batch batch) second_id (WireResponse.batch_ack n)
            second_ctx
            (get-fresh started.swarm peer push_of local.pulls
              (Tracked-send_request local.swarm peer WireRequest.get_batch c.pulls))
            (get-fresh started.swarm peer push_of local.pushes
              (Tracked-send_request local.swarm peer WireRequest.get_batch c.pushes))
            (get-insert_self _ second_id second_ctx)

  -- For an initiator whose three maps of pending requests hold an id at most once, in at most one of
  -- them, and only ids that its swarm has given out, and for a peer that it knows: the messages of a
  -- batch sync, with nothing in between, leave the two nodes with the stores that the batch sync of their
  -- stores specifies, and the caller is answered once, with the count of what the initiator
  -- imported and the count of what the peer imported.
  pub conversation-batch_sync :
      (config : P2pConfig) (local remote : Node) (peer me : PeerId) (id : String) (reply : Sender)
      → IsConsistent local
      → HashMap.get ⦃e = string_key⦄ local.meshpad_peers id ≡ some peer
      → let (local', remote') = conversation config local remote peer me id reply in
        let batch = export_batch remote.wire remote.attachments in
        let got = import_batch batch local.wire local.attachments in
        let given =
          import_batch (export_batch got.wire got.attachments) remote.wire remote.attachments in
        (stores local' ≡ (batch_sync (stores local) (stores remote)).0)
        × (stores remote' ≡ (batch_sync (stores local) (stores remote)).1)
        × (local'.answers
            ≡ local.answers
              ++ synced reply (ok (record { imported = got.count; pushed = given.count })) ∷ [])
  unfolding conversation handle_request batch_sync receive
  conversation-batch_sync config local remote peer me id reply c connected =
      rw (started_eq config local c peer id reply connected) (
        rw
          (batch_response config local c peer id reply
            (export_batch remote.wire remote.attachments))
          (rw
            (ack_response config local c peer id reply (export_batch remote.wire remote.attachments)
              _)
            (refl, refl, refl)))

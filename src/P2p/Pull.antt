-- ===== src/P2p/Pull.antt =====
-- The pull of all notes of a peer, message by message, and a pull that is answered by a response of
-- another kind.
use mesh_pad.Base.{
  ◌≡◌, refl, ◌∙◌, ap, sym, String, some, List, [], ◌∷◌, ◌++◌, ok, string_key, or_else,
}
use mesh_pad.External.Json.{Json}
use mesh_pad.External.Base64.{Base64}
use mesh_pad.External.Libp2p.{Libp2p}
use mesh_pad.HashMap
use mesh_pad.HashMap.Laws.{get-insert_self}
use mesh_pad.WireProtocol.{WireRequest, WireResponse}
use mesh_pad.WireStore
use mesh_pad.WireStore.{WireStore, catalog_heads, all_snapshots, import_snapshots}
use mesh_pad.WireStore.Upsert.{note, IsKeyed}
use mesh_pad.WireStore.Catalog.{ids_of_heads, pull-ids_of_heads, import-pull-catalog}
use mesh_pad.P2p.{
  PullStep, awaiting_catalog, awaiting_notes, P2pConfig, PullCtx, wire_response, Node, Sender,
  pull_from_meshpad_peer, counted,
}
use mesh_pad.P2p.Replies.{id_key, pull_ids, pull_step}
use mesh_pad.P2p.Respond.{handle_request}
use mesh_pad.P2p.Loop.{start_pull, handle_command, handle_swarm_event}
use mesh_pad.P2p.Dispatch.{handle_response-pull}

module _ ⦃json : Json⦄ ⦃base64 : Base64⦄ ⦃libp2p : Libp2p json.Value⦄ where
  open json use {Value}
  open libp2p use {PeerId, RequestId, send_request}

  -- A response that is neither an error nor of the kind that the step waits for.
  abbrev pub Unexpected : PullStep → WireResponse Value → Type 0
  Unexpected _ (WireResponse.error message) = ⊥
  Unexpected awaiting_catalog (WireResponse.catalog heads) = ⊥
  Unexpected awaiting_notes (WireResponse.pull notes) = ⊥
  Unexpected _ _ = Unit

  stalled_step :
      (node : Node) (id : RequestId) (ctx : PullCtx) (step : PullStep)
      (response : WireResponse Value)
      → Unexpected step response
      → pull_step node id ctx step response ≡ node
  stalled_step node id ctx awaiting_catalog WireResponse.hello_ack u = refl
  stalled_step node id ctx awaiting_catalog (WireResponse.catalog heads) u = absurd u
  stalled_step node id ctx awaiting_catalog (WireResponse.pull notes) u = refl
  stalled_step node id ctx awaiting_catalog WireResponse.push_ack u = refl
  stalled_step node id ctx awaiting_catalog (WireResponse.batch batch) u = refl
  stalled_step node id ctx awaiting_catalog (WireResponse.batch_ack n) u = refl
  stalled_step node id ctx awaiting_notes WireResponse.hello_ack u = refl
  stalled_step node id ctx awaiting_notes (WireResponse.pull notes) u = absurd u
  stalled_step node id ctx awaiting_notes (WireResponse.catalog heads) u = refl
  stalled_step node id ctx awaiting_notes WireResponse.push_ack u = refl
  stalled_step node id ctx awaiting_notes (WireResponse.batch batch) u = refl
  stalled_step node id ctx awaiting_notes (WireResponse.batch_ack n) u = refl
  stalled_step node id ctx _ (WireResponse.error message) u = absurd u

  -- When a response comes for a pending pull that is neither an error nor of the kind that the
  -- pull waits for, nothing changes: the pull stays pending and its caller is not answered.
  pub pull_stalls :
      (config : P2pConfig) (node : Node) (id : RequestId) (ctx : PullCtx)
      (response : WireResponse Value)
      → HashMap.get node.pulls id ≡ some ctx
      → Unexpected ctx.step response
      → handle_swarm_event config node (wire_response id response) ≡ node
  unfolding handle_swarm_event
  pull_stalls config node id ctx response found unexpected =
      rw (handle_response-pull node id response ctx found)
        (stalled_step node id ctx ctx.step response unexpected)

  -- The nodes after the messages of one pull: the command, `get_catalog` and its response, `pull` of
  -- the ids in the catalog and its response. `me` is the puller as the peer knows it.
  module _ (config : P2pConfig) (local remote : Node) (peer me : PeerId) (id : String)
      (reply : Sender) where
    abbrev asked_catalog : Node
    asked_catalog = handle_command local (pull_from_meshpad_peer id reply)

    abbrev sent_catalog : WireResponse Value × Node
    sent_catalog = handle_request config remote me WireRequest.get_catalog

    abbrev got_catalog : Node
    got_catalog =
        handle_swarm_event config asked_catalog
          (wire_response (send_request local.swarm peer WireRequest.get_catalog).0 sent_catalog.0)

    abbrev pull_request : WireRequest Value
    pull_request = WireRequest.pull (ids_of_heads (catalog_heads remote.wire))

    abbrev sent_notes : WireResponse Value × Node
    sent_notes = handle_request config sent_catalog.1 me pull_request

    abbrev got_notes : Node
    got_notes =
        handle_swarm_event config got_catalog
          (wire_response (send_request asked_catalog.swarm peer pull_request).0 sent_notes.0)

  pub pull_conversation : P2pConfig → Node → Node → PeerId → PeerId → String → Sender → Node × Node
  pull_conversation config local remote peer me id reply = (
    got_notes config local remote peer me id reply,
    (sent_notes config local remote peer me id reply).1,
  )

  module _ (config : P2pConfig) (local : Node) (peer : PeerId) (id : String) (reply : Sender) where
    abbrev started : Node
    started = start_pull local id reply (some peer)

    abbrev first_id : RequestId
    first_id = (send_request local.swarm peer WireRequest.get_catalog).0

    abbrev first_ctx : PullCtx
    first_ctx = record { peer = peer; reply = reply; step = awaiting_catalog }

    abbrev second_ctx : PullCtx
    second_ctx = record { peer = peer; reply = reply; step = awaiting_notes }

    started_eq :
        HashMap.get ⦃e = string_key⦄ local.meshpad_peers id ≡ some peer
        → handle_command local (pull_from_meshpad_peer id reply) ≡ started
    unfolding handle_command
    started_eq connected = rw connected

    catalog_response :
        (heads : List Value) (first : String) (rest : List String)
        → ids_of_heads heads ≡ first ∷ rest
        → handle_swarm_event config started (wire_response first_id (WireResponse.catalog heads))
          ≡ pull_ids started first_id first_ctx (first ∷ rest)
    unfolding handle_swarm_event
    catalog_response heads first rest ids =
        handle_response-pull started first_id (WireResponse.catalog heads) first_ctx
          (get-insert_self local.pulls first_id first_ctx)
        ∙ ap (pull_ids started first_id first_ctx) ids

    module _ (first : String) (rest : List String) where
      abbrev asked_notes : Node
      asked_notes = pull_ids started first_id first_ctx (first ∷ rest)

      abbrev second_id : RequestId
      second_id = (send_request started.swarm peer (WireRequest.pull (first ∷ rest))).0

      notes_response :
          (notes : List Value)
          → handle_swarm_event config asked_notes
              (wire_response second_id (WireResponse.pull notes))
            ≡ pull_step asked_notes second_id second_ctx awaiting_notes (WireResponse.pull notes)
      unfolding handle_swarm_event
      notes_response notes =
          handle_response-pull asked_notes second_id (WireResponse.pull notes) second_ctx
            (get-insert_self _ second_id second_ctx)

  -- For a peer that the puller knows, whose notes stand under their own ids and whose catalog
  -- lists some id: the messages of a pull, with nothing in between, leave the puller with the
  -- peer's note of each id that the peer has, and with its own note of every other id; the peer is
  -- as before, and the caller is answered once, with the count of an import of all the peer's
  -- snapshots.
  pub pull_conversation_lem :
      (config : P2pConfig) (local remote : Node) (peer me : PeerId) (id : String) (reply : Sender)
      (first : String) (rest : List String)
      → IsKeyed remote.wire
      → HashMap.get ⦃e = string_key⦄ local.meshpad_peers id ≡ some peer
      → ids_of_heads (catalog_heads remote.wire) ≡ first ∷ rest
      → let (local', remote') = pull_conversation config local remote peer me id reply in
        ((i : String) → note local'.wire i ≡ or_else (note remote.wire i) (note local.wire i))
        × (remote' ≡ remote)
        × (local'.answers
            ≡ local.answers
              ++ counted reply (ok (import_snapshots local.wire (all_snapshots remote.wire)).0)
                ∷ [])
  unfolding pull_conversation handle_request
  pull_conversation_lem config local remote peer me id reply first rest keyed connected ids =
      rw (started_eq config local peer id reply connected) (
        rw (catalog_response config local peer id reply (catalog_heads remote.wire) first rest ids)
          (rw ids (
            rw
              (notes_response config local peer id reply first rest
                (WireStore.pull remote.wire (first ∷ rest)))
              (
                λ i. rw (sym ids) (import-pull-catalog remote.wire local.wire i keyed),
                refl,
                ap
                    (λ notes.
                      local.answers
                      ++ counted reply (ok (import_snapshots local.wire notes).0) ∷ [])
                    (rw (sym ids) (pull-ids_of_heads remote.wire keyed)),
              ))))

-- ===== src/P2p/Push.antt =====
-- The push of all notes to a peer, message by message.
use mesh_pad.Base.{
  ℕ, ◌+◌, ◌<◌, ◌≡◌, ◌∙◌, ap, String, none, some, List, [], ◌∷◌, ◌++◌, arith, ok, string_key,
  add_u32, add_u32-eq, u32_mod, length, or_else, or_else_assoc, sym, subst,
}
use mesh_pad.External.Json.{Json}
use mesh_pad.External.Base64.{Base64}
use mesh_pad.External.Libp2p.{Libp2p}
use mesh_pad.HashMap
use mesh_pad.HashMap.Laws.{get-insert_self}
use mesh_pad.WireProtocol.{WireRequest, WireResponse}
use mesh_pad.WireStore.{all_snapshots}
use mesh_pad.WireStore.Upsert.{note, note-upsert, IsKeyed}
use mesh_pad.WireStore.Import.{last_with}
use mesh_pad.WireStore.Catalog.{last_with-all_snapshots}
use mesh_pad.P2p.{Sender, counted, P2pConfig, PushCtx, wire_response, Node, push_to_meshpad_peer}
use mesh_pad.P2p.Respond.{handle_request}
use mesh_pad.P2p.Replies.{id_key, push_next}
use mesh_pad.P2p.Loop.{push_first, handle_command, handle_swarm_event}
use mesh_pad.P2p.Pending.{get-fresh, IsConsistent}
use mesh_pad.P2p.Pending.Loop.{handle_swarm_event-IsConsistent}
use mesh_pad.P2p.Pending.Commands.{handle_command-IsConsistent}
use mesh_pad.P2p.Dispatch.{handle_response-push}

module _ ⦃json : Json⦄ ⦃base64 : Base64⦄ ⦃libp2p : Libp2p json.Value⦄ where
  open json use {Value}
  open libp2p use {PeerId, RequestId, send_request}

  -- The messages from one request to the last: `snapshot` is on its way under `id`, and the
  -- acknowledgement of each lets the next of `rest` go. `me` is the pusher as the peer knows it.
  unfoldable pub deliver :
      P2pConfig → PeerId → PeerId → List Value → RequestId → Value → Node → Node → Node × Node
  deliver config peer me [] id snapshot local remote =
      let (response, remote') = handle_request config remote me (WireRequest.push snapshot) in
      (handle_swarm_event config local (wire_response id response), remote')
  deliver config peer me (next ∷ rest) id snapshot local remote =
      let (response, remote') = handle_request config remote me (WireRequest.push snapshot) in
      deliver config peer me rest (send_request local.swarm peer (WireRequest.push next)).0 next
        (handle_swarm_event config local (wire_response id response)) remote'

  module _ (config : P2pConfig) (local : Node) (c : IsConsistent local) (id : RequestId)
      (ctx : PushCtx) (no_pull : HashMap.get local.pulls id ≡ none)
      (found : HashMap.get local.pushes id ≡ some ctx) where
    abbrev taken : Node
    taken = record local { pushes = HashMap.remove local.pushes id }

    ack_step :
        handle_swarm_event config local (wire_response id WireResponse.push_ack)
        ≡ push_next taken (record ctx { pushed = add_u32 ctx.pushed 1 }) ctx.remaining
    unfolding handle_swarm_event
    ack_step = handle_response-push local id WireResponse.push_ack ctx no_pull found

  module _ (config : P2pConfig) (local : Node) (c : IsConsistent local) (id : RequestId)
      (peer : PeerId) (reply : Sender) (n : ℕ) (next : Value) (rest : List Value)
      (no_pull : HashMap.get local.pulls id ≡ none)
      (found : HashMap.get local.pushes id
        ≡ some (record { peer = peer; reply = reply; remaining = next ∷ rest; pushed = n })) where
    abbrev old_ctx : PushCtx
    old_ctx = record { peer = peer; reply = reply; remaining = next ∷ rest; pushed = n }

    abbrev new_ctx : PushCtx
    new_ctx = record { peer = peer; reply = reply; remaining = rest; pushed = add_u32 n 1 }

    -- The node after the acknowledgement, with the next request on its way.
    abbrev moved : Node
    moved =
        push_next (taken config local c id old_ctx no_pull found)
          (record old_ctx { pushed = add_u32 n 1 }) (next ∷ rest)

    moved_eq : handle_swarm_event config local (wire_response id WireResponse.push_ack) ≡ moved
    moved_eq = ack_step config local c id old_ctx no_pull found

    moved-IsConsistent : IsConsistent moved
    moved-IsConsistent =
        subst IsConsistent moved_eq
          (handle_swarm_event-IsConsistent local c config (wire_response id WireResponse.push_ack))

    moved_no_pull :
        HashMap.get moved.pulls (send_request local.swarm peer (WireRequest.push next)).0 ≡ none
    moved_no_pull = get-fresh local.swarm peer (WireRequest.push next) local.pulls c.pulls

    moved_found :
        HashMap.get moved.pushes (send_request local.swarm peer (WireRequest.push next)).0
        ≡ some new_ctx
    moved_found = get-insert_self _ _ new_ctx

  abbrev pub Delivered : List Value → Sender → ℕ → Node → Node → Node × Node → Type 0
  Delivered snapshots reply total local remote after =
      ((i : String) → note after.1.wire i ≡ or_else (last_with i snapshots) (note remote.wire i))
      × (after.0.answers ≡ local.answers ++ counted reply (ok total) ∷ [])

  deliver_lem :
      (config : P2pConfig) (peer me : PeerId) (reply : Sender) (rest : List Value) (n : ℕ)
      (id : RequestId) (snapshot : Value) (local remote : Node)
      → IsConsistent local
      → HashMap.get local.pulls id ≡ none
      → HashMap.get local.pushes id
        ≡ some (record { peer = peer; reply = reply; remaining = rest; pushed = n })
      → n + length (snapshot ∷ rest) < u32_mod
      → Delivered
          (snapshot ∷ rest)
          reply
          (n + length (snapshot ∷ rest))
          local
          remote
          (deliver config peer me rest id snapshot local remote)
  unfolding deliver handle_request last_with
  deliver_lem config peer me reply [] n id snapshot local remote c no_pull found small = (
    λ i. note-upsert remote.wire snapshot i,
    rw (ack_step config local c id _ no_pull found)
        (ap (λ k. local.answers ++ counted reply (ok k) ∷ []) (add_u32-eq n 1 (omega arith))),
  )
  deliver_lem config peer me reply (next ∷ rest) n id snapshot local remote c no_pull found small =
      let (notes, answers) =
        deliver_lem config peer me reply rest (add_u32 n 1)
          (send_request local.swarm peer (WireRequest.push next)).0 next
          (moved config local c id peer reply n next rest no_pull found)
          (handle_request config remote me (WireRequest.push snapshot)).1
          (moved-IsConsistent config local c id peer reply n next rest no_pull found)
          (moved_no_pull config local c id peer reply n next rest no_pull found)
          (moved_found config local c id peer reply n next rest no_pull found)
          (omega (arith, add_u32-eq n 1)) in
      subst
        (λ m.
          Delivered (snapshot ∷ next ∷ rest) reply (n + length (snapshot ∷ next ∷ rest)) local
            remote
            (deliver config peer me rest (send_request local.swarm peer (WireRequest.push next)).0
              next m (handle_request config remote me (WireRequest.push snapshot)).1))
        (sym (moved_eq config local c id peer reply n next rest no_pull found))
        (
          λ i.
              notes i
              ∙ rw (note-upsert remote.wire snapshot i)
                  (sym (or_else_assoc (last_with i (next ∷ rest)) _ _)),
          answers
              ∙ ap (λ k. local.answers ++ counted reply (ok k) ∷ [])
                  (omega (arith, add_u32-eq n 1)),
        )

  push_started :
      (local : Node) (id : String) (reply : Sender) (peer : PeerId) (first : Value)
      (rest : List Value)
      → HashMap.get ⦃e = string_key⦄ local.meshpad_peers id ≡ some peer
      → all_snapshots local.wire ≡ first ∷ rest
      → handle_command local (push_to_meshpad_peer id reply)
        ≡ push_first local peer reply (first ∷ rest)
  unfolding handle_command
  push_started local id reply peer first rest connected all = rw (connected, all)

  -- For a pusher whose three maps of pending requests hold an id at most once, in at most one of
  -- them, and only ids that its swarm has given out, whose store has some notes, fewer than 2^32, each under its own
  -- id, and for a peer that it knows: the command to push, and the requests and acknowledgements
  -- that follow with nothing in between, leave the peer with the pusher's note of each id that the
  -- pusher has, and with its own note of every other id, and the caller is answered once, with the
  -- number of the pusher's notes.
  pub deliver-push_to_meshpad_peer :
      (config : P2pConfig) (local remote : Node) (peer me : PeerId) (id : String) (reply : Sender)
      (first : Value) (rest : List Value)
      → IsConsistent local
      → IsKeyed local.wire
      → HashMap.get ⦃e = string_key⦄ local.meshpad_peers id ≡ some peer
      → all_snapshots local.wire ≡ first ∷ rest
      → length (first ∷ rest) < u32_mod
      → let (local', remote') =
          deliver config peer me rest
            (send_request local.swarm peer (WireRequest.push first)).0
            first
            (handle_command local (push_to_meshpad_peer id reply))
            remote in
        ((i : String) → note remote'.wire i ≡ or_else (note local.wire i) (note remote.wire i))
        × (local'.answers ≡ local.answers ++ counted reply (ok (length (first ∷ rest))) ∷ [])
  deliver-push_to_meshpad_peer config local remote peer me id reply first rest c keyed connected all
        small =
      let started_eq = push_started local id reply peer first rest connected all in
      let (notes, answers) =
        deliver_lem config peer me reply rest 0
          (send_request local.swarm peer (WireRequest.push first)).0 first
          (push_first local peer reply (first ∷ rest)) remote
          (subst IsConsistent started_eq
            (handle_command-IsConsistent local c (push_to_meshpad_peer id reply)))
          (get-fresh local.swarm peer (WireRequest.push first) local.pulls c.pulls)
          (get-insert_self _ _ _) (omega (arith, small)) in
      rw started_eq (
        λ i.
            notes i
            ∙ ap (λ o. or_else o (note remote.wire i))
                (ap (last_with i) (sym all) ∙ last_with-all_snapshots local.wire i keyed),
        answers ∙ ap (λ k. local.answers ++ counted reply (ok k) ∷ []) (omega arith),
      )

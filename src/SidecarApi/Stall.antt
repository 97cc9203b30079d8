-- ===== src/SidecarApi/Stall.antt =====
-- sidecar_api.rs and p2p.rs: a sync that falls back on a pull, and a response that the pull ignores.
use mesh_pad.Base.{
  ℕ, ◌≡◌, refl, sym, ap, ap₂, ◌∙◌, String, false, none, some, List, [], ◌∷◌, Result, err,
  string_key,
}
use mesh_pad.External.Json.{Json}
use mesh_pad.External.Base64.{Base64}
use mesh_pad.External.Libp2p.{Libp2p}
use mesh_pad.External.Http.{Http}
use mesh_pad.External.Serde.{Serde}
use mesh_pad.External.Tokio.{Tokio}
use mesh_pad.HashMap
use mesh_pad.HashMap.Laws.{get-insert_self}
use mesh_pad.WireProtocol.{WireRequest, WireResponse}
use mesh_pad.P2p.{P2pConfig, Node, Sender, pull_from_meshpad_peer, awaiting_catalog, wire_response}
use mesh_pad.P2p.Replies.{id_key}
use mesh_pad.P2p.Loop.{Input, command, event, run_swarm, handle_command, start_pull}
use mesh_pad.P2p.Pull.{Unexpected, pull_stalls}
use mesh_pad.P2p.Loop.{breaks}
use mesh_pad.Sidecar.{◌>>=◌, pure, System, Async, done, waiting, system_of, P2pController}
use mesh_pad.Sidecar.Requests.{SyncRequest}
use mesh_pad.Sidecar.Controller.{
  Await, counted_for, lend, receive_reply, call_node, call_loop, controller_batch_sync,
  controller_pull, controller_push,
}
use mesh_pad.SidecarApi.Sync.{
  Environment, Synced, unsynced, note_import, note_push, stores_of, sync_peer, after_batch, report,
  sync_libp2p, sync_json,
}
use mesh_pad.SidecarApi.SyncLibp2p.{bind, returned}

module _ ⦃json : Json⦄ ⦃base64 : Base64⦄ ⦃libp2p : Libp2p json.Value⦄ ⦃http : Http json.Value⦄
    ⦃serde : Serde⦄ ⦃tokio : Tokio⦄ where
  open json use {Value}
  open libp2p use {PeerId, send_request}

  -- The response of a peer to the request for its catalog.
  abbrev pub to_catalog : Node → PeerId → WireResponse Value → Input
  to_catalog node peer response =
      event (wire_response (send_request node.swarm peer WireRequest.get_catalog).0 response)

  module _ (config : P2pConfig) (node : Node) (peer : PeerId) (id : String) (reply : Sender) where
    abbrev started : Node
    started = start_pull node id reply (some peer)

    run-stalled :
        (response : WireResponse Value)
        → HashMap.get ⦃e = string_key⦄ node.meshpad_peers id ≡ some peer
        → Unexpected awaiting_catalog response
        → run_swarm config node
            (command (pull_from_meshpad_peer id reply) ∷ to_catalog node peer response ∷ [])
          ≡ started
    unfolding run_swarm handle_command
    run-stalled response connected unexpected = rw connected (
        pull_stalls config started _
          (record { peer = peer; reply = reply; step = awaiting_catalog }) response
          (get-insert_self node.pulls _ _) unexpected)

  controller_pull_waits :
      (a : Await) (s : System) (id : String) (config : P2pConfig) (idle last : Node)
      (responses : List Input)
      → s.state.inner.p2p ≡ some (record { config = config; node = some idle })
      → a.meanwhile ≡ responses
      → run_swarm config
          (lend s.state idle)
          (command (pull_from_meshpad_peer id a.reply) ∷ responses)
        ≡ last
      → breaks (command (pull_from_meshpad_peer id a.reply) ∷ responses) ≡ false
      → counted_for a.reply last.answers ≡ none
      → controller_pull a id s ≡ waiting (record s { state = returned config s.state last false })
  unfolding controller_pull
  controller_pull_waits a s id config idle last responses running meanwhile ran whole unanswered =
      let cmd = command (pull_from_meshpad_peer id a.reply) in
      ap (λ c. call_loop (counted_for a.reply) (cmd ∷ a.meanwhile) c s) running
      ∙ ap (λ m. call_node (counted_for a.reply) (cmd ∷ m) config (some idle) s) meanwhile
      ∙ ap₂
          (λ node broken.
            receive_reply (counted_for a.reply node.answers) broken
              (record s { state = returned config s.state node broken }))
          ran whole
      ∙ ap (λ o. receive_reply o false (record s { state = returned config s.state last false }))
          unanswered

  abbrev after_pull : Environment → String → Result ℕ String → Async Synced
  after_pull env id imported = do
    pushed ← controller_push env.push id
    pure (note_push pushed (note_import imported "libp2p" unsynced))

  -- Where the batch sync with a peer has come to an error, and the loop still runs and knows the peer,
  -- and the peer answers the request of the pull that follows by a message that is neither a catalog
  -- nor an error, and the loop is handed nothing else: the sync has no end, and its stores are those
  -- after the batch sync. The loop has not used the sender of the pull before.
  pub sync_json_stalls :
      (env : Environment) (s s1 : System) (c : P2pController) (id error : String)
      (config : P2pConfig) (idle : Node) (peer : PeerId) (response : WireResponse Value)
      → s.state.inner.p2p ≡ some c
      → controller_batch_sync env.batch_sync id s ≡ done (err error) s1
      → s1.state.inner.p2p ≡ some (record { config = config; node = some idle })
      → HashMap.get ⦃e = string_key⦄ idle.meshpad_peers id ≡ some peer
      → counted_for env.pull.reply idle.answers ≡ none
      → Unexpected awaiting_catalog response
      → env.pull.meanwhile ≡ to_catalog idle peer response ∷ []
      → let body : SyncRequest = record { peer_id = some id; remote_wire_base = none } in
        let s' = system_of (sync_json env body s) in
        (sync_json env body s ≡ waiting s') × (stores_of s'.state ≡ stores_of s1.state)
  unfolding sync_json sync_libp2p breaks
  sync_json_stalls env s s1 c id error config idle peer response running failed running1 connected
        unused unexpected meanwhile =
      let last = start_pull (lend s1.state idle) id env.pull.reply (some peer) in
      let s' : System = record s1 { state = returned config s1.state last false } in
      let pulled : controller_pull env.pull id s1 ≡ waiting s' =
        controller_pull_waits env.pull s1 id config idle last _ running1 meanwhile
          (run-stalled config (lend s1.state idle) peer id env.pull.reply response connected
            unexpected)
          refl unused in
      let body : SyncRequest = record { peer_id = some id; remote_wire_base = none } in
      let stalled : sync_json env body s ≡ waiting s' =
        ap (λ m. bind m (report id))
          (ap (λ p. sync_peer env id p s) running
            ∙ ap (λ m. bind m (after_batch env id)) failed
            ∙ ap (λ m. bind m (after_pull env id)) pulled) in
      (
        stalled ∙ ap waiting (ap system_of (sym stalled)),
        ap (λ o. stores_of (system_of o).state) stalled,
      )

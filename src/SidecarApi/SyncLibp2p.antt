-- ===== src/SidecarApi/SyncLibp2p.antt =====
-- sync_json over libp2p: the request waits for the loop's batch sync, and the two messages that
-- answer it are all that the loop is handed meanwhile.
use mesh_pad.Base.{
  ◌≡◌, refl, sym, ap, ap₂, ◌∙◌, ◌%◌, u32_mod, String, Bool, none, some, List, [], ◌∷◌, ◌++◌, Result,
  ok, string_key, nat_beq_iff, false, if◌then◌else◌, arith,
}
use mesh_pad.External.Json.{Json}
use mesh_pad.External.Base64.{Base64}
use mesh_pad.External.Libp2p.{Libp2p}
use mesh_pad.External.Http.{Http}
use mesh_pad.External.Serde.{Serde}
use mesh_pad.External.Tokio.{Tokio}
use mesh_pad.HashMap
use mesh_pad.WireProtocol.{WireRequest}
use mesh_pad.WireStore
use mesh_pad.Events.{sync_completed}
use mesh_pad.WireBatch.{import_batch, export_batch}
use mesh_pad.WireBatch.Exchange.{Stores, batch_sync}
use mesh_pad.P2p.{
  Sender, Answer, counted, synced, SyncBatchStats, P2pConfig, Node, batch_sync_with_meshpad_peer,
  wire_response,
}
use mesh_pad.P2p.Loop.{Input, command, event, run_swarm}
use mesh_pad.P2p.Pending.{IsConsistent}
use mesh_pad.P2p.Conversation.{
  stores, asked_batch, sent_batch, push_request, took_batch, got_ack, conversation,
  conversation-batch_sync,
}
use mesh_pad.P2p.Loop.{breaks}
use mesh_pad.Sidecar.{P2pController, SidecarState, System, Outcome, Async, done, waiting, system_of}
use mesh_pad.Sidecar.Requests.{SyncRequest}
use mesh_pad.Sidecar.Controller.{
  Await, synced_for, lend, take_back, set_loop, receive_reply, call_node, call_loop,
  controller_batch_sync,
}
use mesh_pad.SidecarApi.Sync.{
  Environment, Synced, stores_of, sync_peer, after_batch, report, sync_libp2p, sync_json,
  sync_reply,
}

synced_for-append :
    (caller : Sender) (answers : List Answer) (r : Result SyncBatchStats String)
    → synced_for caller answers ≡ none
    → synced_for caller (answers ++ synced caller r ∷ []) ≡ some r
unfolding synced_for
synced_for-append caller [] r h = ground (arith, nat_beq_iff caller caller)
synced_for-append caller (counted reply a ∷ answers) r h = synced_for-append caller answers r h
synced_for-append caller (synced reply a ∷ answers) r h =
    ground (arith, synced_for-append caller answers r)

module _ ⦃json : Json⦄ ⦃base64 : Base64⦄ ⦃libp2p : Libp2p json.Value⦄ ⦃http : Http json.Value⦄
    ⦃serde : Serde⦄ ⦃tokio : Tokio⦄ where
  open libp2p use {PeerId, send_request}

  abbrev pub bind : {A B : Type 0} → Outcome A → (A → Async B) → Outcome B
  bind m f = elim m [ done a s ↦ f a s | waiting s ↦ waiting s ]

  -- The responses of the peer to the two requests of a batch sync.
  abbrev pub batch_responses :
      P2pConfig → Node → Node → PeerId → PeerId → String → Sender → List Input
  batch_responses config local remote peer me id reply =
      event (
        wire_response (send_request local.swarm peer WireRequest.get_batch).0
          (sent_batch config local remote peer me id reply).0)
      ∷ event (
          wire_response
            (send_request (asked_batch config local remote peer me id reply).swarm peer
              (push_request config local remote peer me id reply)).0
            (took_batch config local remote peer me id reply).0)
      ∷ []

  run-batch_responses :
      (config : P2pConfig) (local remote : Node) (peer me : PeerId) (id : String) (reply : Sender)
      → run_swarm config local (
          command (batch_sync_with_meshpad_peer id reply)
          ∷ batch_responses config local remote peer me id reply)
        ≡ got_ack config local remote peer me id reply
  unfolding run_swarm
  run-batch_responses config local remote peer me id reply = refl

  breaks-batch_responses :
      (config : P2pConfig) (local remote : Node) (peer me : PeerId) (id : String) (reply : Sender)
      → breaks (
          command (batch_sync_with_meshpad_peer id reply)
          ∷ batch_responses config local remote peer me id reply)
        ≡ false
  unfolding breaks
  breaks-batch_responses config local remote peer me id reply = refl

  -- The loop's last state, back in the sidecar's.
  abbrev pub returned : P2pConfig → SidecarState → Node → Bool → SidecarState
  returned config s node broken =
      set_loop (take_back s node)
        (record { config = config; node = if broken then none else some node })

  -- What a call comes to, by the loop's last state and whether the loop broke.
  abbrev call_result :
      Await → P2pConfig → System → Node → Bool → Outcome (Result SyncBatchStats String)
  call_result a config s node broken =
      receive_reply (synced_for a.reply node.answers) broken
        (record s { state = returned config s.state node broken })

  controller_batch_sync_lem :
      (a : Await) (s : System) (id : String) (config : P2pConfig) (idle last : Node)
      (responses : List Input) (stats : SyncBatchStats)
      → s.state.inner.p2p ≡ some (record { config = config; node = some idle })
      → a.meanwhile ≡ responses
      → run_swarm config
          (lend s.state idle)
          (command (batch_sync_with_meshpad_peer id a.reply) ∷ responses)
        ≡ last
      → breaks (command (batch_sync_with_meshpad_peer id a.reply) ∷ responses) ≡ false
      → synced_for a.reply last.answers ≡ some (ok stats)
      → controller_batch_sync a id s
        ≡ done (ok stats) (record s { state = returned config s.state last false })
  unfolding controller_batch_sync
  controller_batch_sync_lem a s id config idle last responses stats running meanwhile ran whole
        found =
      let cmd = command (batch_sync_with_meshpad_peer id a.reply) in
      ap (λ c. call_loop (synced_for a.reply) (cmd ∷ a.meanwhile) c s) running
      ∙ ap (λ m. call_node (synced_for a.reply) (cmd ∷ m) config (some idle) s) meanwhile
      ∙ ap₂ (call_result a config s) ran whole
      ∙ ap (λ o. receive_reply o false (record s { state = returned config s.state last false }))
          found

  -- The event of the sync, and the reply.
  abbrev pub reported : System → String → SidecarState → System
  reported s id state = record s {
    state = record state {
      events = state.events ++ sync_completed id (WireStore.len state.wire % u32_mod) ∷ [];
    };
  }

  abbrev pub batch_synced : SyncBatchStats → Synced
  batch_synced stats = record {
    wire_imported = stats.imported;
    wire_pushed = stats.pushed;
    import_via = "libp2p_batch";
  }

  done_system_of :
      {A : Type 0} (o : Outcome A) (a : A) (s : System) → o ≡ done a s → o ≡ done a (system_of o)
  done_system_of o a s e = e ∙ ap (done a) (sym (ap system_of e))

  -- What the batch sync counts.
  abbrev batch_counts : Stores → Stores → SyncBatchStats
  batch_counts local remote =
      let batch = export_batch remote.wire remote.attachments in
      let got = import_batch batch local.wire local.attachments in
      record {
        imported = got.count;
        pushed =
            (import_batch (export_batch got.wire got.attachments) remote.wire
              remote.attachments).count;
      }

  sync_json_lem :
      (env : Environment) (s : System) (id : String) (c : P2pController) (stats : SyncBatchStats)
      (state : SidecarState)
      → s.state.inner.p2p ≡ some c
      → controller_batch_sync env.batch_sync id s ≡ done (ok stats) (record s { state = state })
      → sync_json env (record { peer_id = some id; remote_wire_base = none }) s
        ≡ done (sync_reply id (batch_synced stats)) (reported s id state)
  unfolding sync_json sync_libp2p
  sync_json_lem env s id c stats state running e =
      ap (λ m. bind m (report id))
        (ap (λ p. sync_peer env id p s) running ∙ ap (λ m. bind m (after_batch env id)) e)

  -- A sync with a peer that the running loop knows, where the peer answers the two requests of the
  -- batch sync and the loop is handed nothing else meanwhile, ends: it says that it imported over
  -- libp2p, and the stores of both sidecars are those that the batch sync of their stores specifies.
  -- The loop's maps of pending requests hold an id at most once, in at most one of them, and only ids
  -- that its swarm has given out, and it has not used the caller's sender before.
  pub sync_json-batch_sync :
      (env : Environment) (s : System) (id : String) (config : P2pConfig) (idle remote : Node)
      (peer me : PeerId)
      → s.state.inner.p2p ≡ some (record { config = config; node = some idle })
      → env.batch_sync.meanwhile
        ≡ batch_responses config (lend s.state idle) remote peer me id env.batch_sync.reply
      → IsConsistent idle
      → HashMap.get ⦃e = string_key⦄ idle.meshpad_peers id ≡ some peer
      → synced_for env.batch_sync.reply idle.answers ≡ none
      → let body : SyncRequest = record { peer_id = some id; remote_wire_base = none } in
        let s' = system_of (sync_json env body s) in
        let remote' =
          (conversation config (lend s.state idle) remote peer me id env.batch_sync.reply).1 in
        ((r : Synced) × (sync_json env body s ≡ done (sync_reply id r) s')
          × (r.import_via ≡ "libp2p_batch"))
        × (stores_of s'.state ≡ (batch_sync (stores_of s.state) (stores remote)).0)
        × (stores remote' ≡ (batch_sync (stores_of s.state) (stores remote)).1)
  unfolding conversation
  sync_json-batch_sync env s id config idle remote peer me running meanwhile c connected unused =
      let local = lend s.state idle in
      let reply = env.batch_sync.reply in
      let consistent : IsConsistent local = record {
        pulls = c.pulls;
        pushes = c.pushes;
        batch_syncs = c.batch_syncs;
        apart = c.apart;
      } in
      let (mine, theirs, answers) =
        conversation-batch_sync config local remote peer me id reply consistent connected in
      let ran = run-batch_responses config local remote peer me id reply in
      let found = ap (synced_for reply) answers ∙ synced_for-append reply idle.answers _ unused in
      let stats = batch_counts (stores_of s.state) (stores remote) in
      let called =
        controller_batch_sync_lem env.batch_sync s id config idle _ _ stats running meanwhile ran
          (breaks-batch_responses config local remote peer me id reply) found in
      let ended = sync_json_lem env s id _ stats _ running called in
      (
        (batch_synced stats, done_system_of _ (sync_reply id (batch_synced stats)) _ ended, refl),
        ap (λ o. stores_of (system_of o).state) ended ∙ mine,
        theirs,
      )

-- ===== src/Sidecar/Controller.antt =====
-- p2p.rs: `spawn` and the methods of P2pController, over the state of the sidecar. The controller
-- that a request holds is that of the state: requests come one after the other.
use mesh_pad.Base.{
  ℕ, String, Bool, true, false, Option, none, some, List, [], ◌∷◌, ◌++◌, Result, err, nat_beq,
  if◌then◌else◌,
}
use mesh_pad.External.Json.{Json}
use mesh_pad.External.Base64.{Base64}
use mesh_pad.External.Libp2p.{Libp2p}
use mesh_pad.External.Http.{Http}
use mesh_pad.External.Tokio.{Tokio}
use mesh_pad.P2p.{
  Sender, Answer, counted, synced, SyncBatchStats, stop, pull_from_meshpad_peer,
  push_to_meshpad_peer, batch_sync_with_meshpad_peer, P2pConfig, Node,
}
use mesh_pad.P2p.Agent.{agent_version}
use mesh_pad.P2p.Loop.{Input, command, start_node, run_swarm, breaks}
use mesh_pad.Sidecar.{P2pController, SidecarState, Async, done, waiting}

-- The answer that a caller finds on its oneshot receiver.
unfoldable pub counted_for : Sender → List Answer → Option (Result ℕ String)
counted_for caller [] = none
counted_for caller (counted reply r ∷ rest) =
    if nat_beq reply caller then some r else counted_for caller rest
counted_for caller (synced reply r ∷ rest) = counted_for caller rest

unfoldable pub synced_for : Sender → List Answer → Option (Result SyncBatchStats String)
synced_for caller [] = none
synced_for caller (counted reply r ∷ rest) = synced_for caller rest
synced_for caller (synced reply r ∷ rest) =
    if nat_beq reply caller then some r else synced_for caller rest

module _ ⦃json : Json⦄ ⦃base64 : Base64⦄ ⦃libp2p : Libp2p json.Value⦄ where
  open libp2p use {Swarm}

  -- One call of a method: the oneshot sender that it makes, and what the loop is handed from the
  -- call's command to the moment at which the caller goes on.
  pub record Await : Type 0 where
    pub reply : Sender
    pub meanwhile : List Input

  -- The loop's variables, with what it shares with the sidecar as that is now, and back.
  abbrev pub lend : SidecarState → Node → Node
  lend s node = record node { wire = s.wire; attachments = s.attachments; events = s.events }

  abbrev pub take_back : SidecarState → Node → SidecarState
  take_back s node = record s {
    wire = node.wire;
    attachments = node.attachments;
    events = node.events;
  }

  abbrev pub set_loop : SidecarState → P2pController → SidecarState
  set_loop s c = record s { inner = record s.inner { p2p = some c } }

  -- `spawn`, whose task ends at once where no swarm can be built
  abbrev pub spawned : SidecarState → P2pConfig → Option Swarm → P2pController
  spawned s config none = record { config = config; node = none }
  spawned s config (some swarm) = record {
    config = config;
    node = some (start_node swarm s.wire s.attachments);
  }

  unfoldable pub spawn :
      (String → Option Swarm) → SidecarState → String → String → P2pConfig → P2pController
  unfolding agent_version
  spawn build s local_peer_id display_name config =
      spawned s config (build (agent_version local_peer_id display_name))

  -- The loop runs from the command on.
  abbrev pub run_call : List Input → P2pConfig → SidecarState → Node → Node
  run_call inputs config s node = run_swarm config (lend s node) inputs

  abbrev pub after_call : List Input → P2pConfig → SidecarState → Node → SidecarState
  after_call inputs config s node =
      let node' = run_call inputs config s node in
      set_loop (take_back s node')
        (record { config = config; node = if breaks inputs then none else some node' })

  abbrev pub stop_node : List Input → P2pConfig → Option Node → SidecarState → SidecarState
  stop_node meanwhile config none s = s
  stop_node meanwhile config (some node) s =
      take_back s (run_call (meanwhile ++ command stop ∷ []) config s node)

  -- P2pController::stop, of a controller that the state has no longer: what the loop is handed
  -- before it meets the command, and the end of the loop.
  unfoldable pub controller_stop : List Input → Option P2pController → SidecarState → SidecarState
  controller_stop meanwhile none s = s
  controller_stop meanwhile (some c) s = stop_node meanwhile c.config c.node s

module _ ⦃json : Json⦄ ⦃base64 : Base64⦄ ⦃libp2p : Libp2p json.Value⦄ ⦃http : Http json.Value⦄
    ⦃tokio : Tokio⦄ where
  -- `reply_rx.await`: the answer, an error where the loop has dropped the sender, or no end.
  abbrev pub receive_reply :
      {A : Type 0} → Option (Result A String) → Bool → Async (Result A String)
  receive_reply (some r) broken s = done r s
  receive_reply none true s = done (err tokio.recv_error) s
  receive_reply none false s = waiting s

  abbrev pub call_node :
      {A : Type 0}
      → (List Answer → Option (Result A String))
      → List Input
      → P2pConfig
      → Option Node
      → Async (Result A String)
  call_node find inputs config none s = done (err tokio.send_error) s
  call_node find inputs config (some node) s =
      receive_reply (find (run_call inputs config s.state node).answers) (breaks inputs)
        (record s { state = after_call inputs config s.state node })

  abbrev pub call_loop :
      {A : Type 0}
      → (List Answer → Option (Result A String))
      → List Input
      → Option P2pController
      → Async (Result A String)
  call_loop find inputs none s = done (err tokio.send_error) s
  call_loop find inputs (some c) s = call_node find inputs c.config c.node s

  -- P2pController::pull_from_meshpad_peer
  unfoldable pub controller_pull : Await → String → Async (Result ℕ String)
  controller_pull a id s =
      call_loop (counted_for a.reply) (command (pull_from_meshpad_peer id a.reply) ∷ a.meanwhile)
        s.state.inner.p2p s

  -- P2pController::push_to_meshpad_peer
  unfoldable pub controller_push : Await → String → Async (Result ℕ String)
  controller_push a id s =
      call_loop (counted_for a.reply) (command (push_to_meshpad_peer id a.reply) ∷ a.meanwhile)
        s.state.inner.p2p s

  -- P2pController::batch_sync_from_meshpad_peer
  unfoldable pub controller_batch_sync : Await → String → Async (Result SyncBatchStats String)
  controller_batch_sync a id s =
      call_loop (synced_for a.reply)
        (command (batch_sync_with_meshpad_peer id a.reply) ∷ a.meanwhile) s.state.inner.p2p s

-- ===== src/Sidecar/Closed.antt =====
-- A property of the two stores that every arrival keeps is kept by a call of the controller and by
-- the end of a loop.
pub mod Remote
use mesh_pad.Base.{
  ℕ, ◌≡◌, refl, sym, subst, String, Bool, true, false, Option, none, some, List, [], ◌∷◌, ◌++◌,
  Result, ok, err, ltb, if◌then◌else◌, Bool-cases, inl, inr, unwrap_or, ok_or_else,
}
use mesh_pad.Base.Text.{concat, trim}
use mesh_pad.External.Json.{Json}
use mesh_pad.External.Base64.{Base64}
use mesh_pad.External.Libp2p.{Libp2p}
use mesh_pad.External.Http.{Http, Reply, failed, answered}
use mesh_pad.External.Serde.{Serde}
use mesh_pad.External.Tokio.{Tokio}
use mesh_pad.WireStore.Catalog.{ids_of_heads}
use mesh_pad.WireStore.Upsert.{IsKeyed, upsert-IsKeyed}
use mesh_pad.WireBatch.{import_batch, list_field}
use mesh_pad.WireBatch.Exchange.{Stores}
use mesh_pad.P2p.{
  pull_from_meshpad_peer, push_to_meshpad_peer, batch_sync_with_meshpad_peer, SyncBatchStats,
  P2pConfig, Node, Answer, stop,
}
use mesh_pad.P2p.Loop.{Input, command, run_swarm}
use mesh_pad.WireBatch.Arrivals.{Arrival, arrive, replay-closed}
use mesh_pad.P2p.Conversation.{stores}
use mesh_pad.P2p.Log.Loop.{run_brings, stores-run_swarm}
use mesh_pad.P2p.Loop.{breaks}
use mesh_pad.SidecarApi.Sync.{stores_of}
use mesh_pad.Sidecar.{
  P2pController, SidecarState, System, Outcome, Async, done, waiting, pure, ◌>>=◌, system_of,
}
use mesh_pad.Sidecar.WireBase.{normalize_wire_base}
use mesh_pad.Sidecar.Remote.{
  body_of, import_reply, import_notes, pull_notes, read_values, pull_catalog, fetch_catalog,
  import_wire_from_http, push_wire_batch_to_http,
}
use mesh_pad.Sidecar.Controller.{
  Await, counted_for, synced_for, lend, run_call, receive_reply, call_node, call_loop,
  controller_batch_sync, controller_pull, controller_push, stop_node, controller_stop,
}

module _ ⦃json : Json⦄ ⦃base64 : Base64⦄ ⦃libp2p : Libp2p json.Value⦄ ⦃http : Http json.Value⦄
    ⦃serde : Serde⦄ ⦃tokio : Tokio⦄ where
  open json use {Value}
  open http use {World}

  module _ (Q : Stores → Type 0) (closed : (s : Stores) (a : Arrival) → Q s → Q (arrive s a)) where
    -- The stores after an outcome have the property.
    abbrev pub Keeps : {A : Type 0} → Outcome A → Type 0
    Keeps o = Q (stores_of (system_of o).state)

    pub Keeps-bind :
        {A B : Type 0} (m : Outcome A) (f : A → Async B)
        → Keeps m
        → ((a : A) (s : System) → Q (stores_of s.state) → Keeps (f a s))
        → Keeps (elim m [ done a s ↦ f a s | waiting s ↦ waiting s ])
    Keeps-bind (done a s) f h k = k a s h
    Keeps-bind (waiting s) f h k = h

    run_swarm-Keeps :
        (config : P2pConfig) (inputs : List Input) (node : Node)
        → Q (stores node)
        → Q (stores (run_swarm config node inputs))
    run_swarm-Keeps config inputs node k =
        subst Q (sym (stores-run_swarm config inputs node))
          (replay-closed Q closed (stores node) (run_brings config node inputs) k)

    receive_reply-Keeps :
        {A : Type 0} (r : Option (Result A String)) (broken : Bool) (s : System)
        → Q (stores_of s.state)
        → Keeps (receive_reply r broken s)
    receive_reply-Keeps (some r) broken s k = k
    receive_reply-Keeps none true s k = k
    receive_reply-Keeps none false s k = k

    call_node-Keeps :
        {A : Type 0} (find : List Answer → Option (Result A String)) (inputs : List Input)
        (config : P2pConfig) (node : Option Node) (s : System)
        → Q (stores_of s.state)
        → Keeps (call_node find inputs config node s)
    call_node-Keeps find inputs config none s k = k
    call_node-Keeps find inputs config (some node) s k =
        receive_reply-Keeps (find (run_call inputs config s.state node).answers) (breaks inputs) _
          (run_swarm-Keeps config inputs (lend s.state node) k)

    call_loop-Keeps :
        {A : Type 0} (find : List Answer → Option (Result A String)) (inputs : List Input)
        (c : Option P2pController) (s : System)
        → Q (stores_of s.state)
        → Keeps (call_loop find inputs c s)
    call_loop-Keeps find inputs none s k = k
    call_loop-Keeps find inputs (some c) s k = call_node-Keeps find inputs c.config c.node s k

    pub controller_pull-Keeps :
        (a : Await) (id : String) (s : System)
        → Q (stores_of s.state)
        → Keeps (controller_pull a id s)
    unfolding controller_pull
    controller_pull-Keeps a id s k =
        call_loop-Keeps (counted_for a.reply)
          (command (pull_from_meshpad_peer id a.reply) ∷ a.meanwhile) s.state.inner.p2p s k

    pub controller_push-Keeps :
        (a : Await) (id : String) (s : System)
        → Q (stores_of s.state)
        → Keeps (controller_push a id s)
    unfolding controller_push
    controller_push-Keeps a id s k =
        call_loop-Keeps (counted_for a.reply)
          (command (push_to_meshpad_peer id a.reply) ∷ a.meanwhile) s.state.inner.p2p s k

    pub controller_batch_sync-Keeps :
        (a : Await) (id : String) (s : System)
        → Q (stores_of s.state)
        → Keeps (controller_batch_sync a id s)
    unfolding controller_batch_sync
    controller_batch_sync-Keeps a id s k =
        call_loop-Keeps (synced_for a.reply)
          (command (batch_sync_with_meshpad_peer id a.reply) ∷ a.meanwhile) s.state.inner.p2p s k

    pub controller_stop-Keeps :
        (meanwhile : List Input) (c : Option P2pController) (s : SidecarState)
        → Q (stores_of s)
        → Q (stores_of (controller_stop meanwhile c s))
    unfolding controller_stop
    controller_stop-Keeps meanwhile none s k = k
    controller_stop-Keeps meanwhile (some c) s k = by_node c.node
      where
        by_node : (node : Option Node) → Q (stores_of (stop_node meanwhile c.config node s))
        by_node none = k
        by_node (some node) = run_swarm-Keeps c.config _ (lend s node) k

-- ===== src/SidecarApi/Lifecycle.antt =====
-- Start and stop, as the health request shows them.
use mesh_pad.Base.{◌≡◌, refl, String, Bool, true, false, Option, none, some, List, [], ◌∷◌, ok}
use mesh_pad.External.Json.{Json}
use mesh_pad.External.Base64.{Base64}
use mesh_pad.External.Libp2p.{Libp2p}
use mesh_pad.External.Http.{Http}
use mesh_pad.External.Serde.{Serde}
use mesh_pad.External.Tokio.{Tokio}
use mesh_pad.P2p.{Node, P2pConfig}
use mesh_pad.P2p.Loop.{Input}
use mesh_pad.Sidecar.{P2pController, SidecarState, System, done, system_of}
use mesh_pad.Sidecar.Controller.{controller_stop, stop_node}
use mesh_pad.SidecarApi.{health_json, start_json, stop_json}
use mesh_pad.SidecarApi.Sync.{Environment}
use mesh_pad.SidecarApi.Dispatch.{get, post, handle, dispatch_json}

module _ ⦃json : Json⦄ ⦃base64 : Base64⦄ ⦃libp2p : Libp2p json.Value⦄ where
  inner-stop_node :
      (meanwhile : List Input) (config : P2pConfig) (node : Option Node) (s : SidecarState)
      → (stop_node meanwhile config node s).inner ≡ s.inner
  inner-stop_node meanwhile config none s = refl
  inner-stop_node meanwhile config (some node) s = refl

  inner-controller_stop :
      (meanwhile : List Input) (c : Option P2pController) (s : SidecarState)
      → (controller_stop meanwhile c s).inner ≡ s.inner
  unfolding controller_stop
  inner-controller_stop meanwhile none s = refl
  inner-controller_stop meanwhile (some c) s = inner-stop_node meanwhile c.config c.node s

module _ ⦃json : Json⦄ ⦃base64 : Base64⦄ ⦃libp2p : Libp2p json.Value⦄ ⦃http : Http json.Value⦄
    ⦃serde : Serde⦄ ⦃tokio : Tokio⦄ where
  open json use {Value, object, string, bool}

  -- The health request says whether the sidecar runs and has a controller, and changes nothing.
  abbrev pub Shows : Environment → System → Bool → Type 0
  Shows env s running =
      (v : Value) × (dispatch_json env get "/health" none s ≡ done (ok v) s)
      × (json.get v "running" ≡ some (bool running))
      × (json.get v "libp2p" ≡ some (bool running))

  -- After a start with a peer id the sidecar shows that it runs and has libp2p, and its notes and
  -- attachments are as before; after the stop that follows, whatever the loop is handed before it
  -- ends, it shows neither.
  pub start-stop_shown :
      (env : Environment) (s : System) (id : String)
      → let s1 =
          system_of
            (dispatch_json env post "/v1/start" (some (object (("peer_id", string id) ∷ []))) s) in
        let s2 = system_of (dispatch_json env post "/v1/stop" none s1) in
        Shows env s1 true
        × (s1.state.wire ≡ s.state.wire)
        × (s1.state.attachments ≡ s.state.attachments)
        × Shows env s2 false
  unfolding dispatch_json handle health_json start_json stop_json
  start-stop_shown env s id = rw (serde.start-object (("peer_id", string id) ∷ []) id refl refl) (
    (_, refl, rw json.get-object refl, rw json.get-object refl),
    refl,
    refl,
    (
      _,
      refl,
      rw (json.get-object, inner-stop_node) refl,
      rw (json.get-object, inner-stop_node) refl,
    ),
  )

-- ===== src/SidecarApi/NoSwarm.antt =====
-- sidecar_api.rs and p2p.rs: a start where the task of the loop cannot build its swarm.
use mesh_pad.Base.{◌≡◌, refl, String, true, none, some, [], ◌∷◌, ◌++◌, ◌%◌, u32_mod}
use mesh_pad.External.Json.{Json}
use mesh_pad.External.Base64.{Base64}
use mesh_pad.External.Libp2p.{Libp2p}
use mesh_pad.External.Http.{Http}
use mesh_pad.External.Serde.{Serde}
use mesh_pad.External.Tokio.{Tokio}
use mesh_pad.Events.{sync_completed}
use mesh_pad.WireStore
use mesh_pad.Sidecar.{System, done, system_of}
use mesh_pad.Sidecar.Controller.{spawn, controller_batch_sync, controller_pull, controller_push}
use mesh_pad.SidecarApi.{start_json, health_json}
use mesh_pad.SidecarApi.Sync.{Environment, unsynced, sync_reply, sync_libp2p, sync_json}
use mesh_pad.SidecarApi.Dispatch.{post, handle, dispatch_json}
use mesh_pad.SidecarApi.Lifecycle.{Shows}

module _ ⦃json : Json⦄ ⦃base64 : Base64⦄ ⦃libp2p : Libp2p json.Value⦄ ⦃http : Http json.Value⦄
    ⦃serde : Serde⦄ ⦃tokio : Tokio⦄ where
  open json use {string, object}

  -- After a start where no swarm can be built, a health request shows that the sidecar runs and has
  -- libp2p, and a sync with any peer transfers nothing, sends the event of a completed sync all the
  -- same, and replies that it imported nothing and pushed nothing.
  pub start_without_swarm :
      (env : Environment) (s : System) (id peer : String)
      → ((agent : String) → env.build agent ≡ none)
      → let s1 =
          system_of
            (dispatch_json env post "/v1/start" (some (object (("peer_id", string id) ∷ []))) s) in
        let completed = sync_completed peer (WireStore.len s.state.wire % u32_mod) in
        Shows env s1 true
        × (sync_json env (record { peer_id = some peer; remote_wire_base = none }) s1
            ≡ done (sync_reply peer unsynced) (record s1 {
              state = record s1.state { events = s.state.events ++ completed ∷ [] };
            }))
  unfolding dispatch_json handle health_json start_json spawn sync_json sync_libp2p
      controller_batch_sync controller_pull controller_push
  start_without_swarm env s id peer fails =
      rw (serde.start-object (("peer_id", string id) ∷ []) id refl refl)
        ((_, refl, rw json.get-object refl, rw json.get-object refl), rw fails refl)

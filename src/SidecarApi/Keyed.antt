-- ===== src/SidecarApi/Keyed.antt =====
-- What every request keeps: each note under its own id, all notes and attachments that are there, and
-- any other property of the two stores that every arrival keeps.
use mesh_pad.Base.{◌≢◌, [], unwrap_or, String, Option, none, some, Result, ok, err, ok_or_else}
use mesh_pad.Base.Text.{trim}
use mesh_pad.External.Json.{Json}
use mesh_pad.External.Base64.{Base64}
use mesh_pad.External.Libp2p.{Libp2p}
use mesh_pad.External.Http.{Http}
use mesh_pad.External.Serde.{Serde}
use mesh_pad.External.Tokio.{Tokio}
use mesh_pad.WireStore.Upsert.{note, IsKeyed}
use mesh_pad.AttachmentStore.Upsert.{blob}
use mesh_pad.WireBatch.Exchange.{Stores}
use mesh_pad.WireBatch.Arrivals.{
  Arrival, snapshot, batch, attachment, arrive, arrive-IsKeyed, arrive-keeps_note,
  arrive-keeps_blob,
}
use mesh_pad.P2p.{SyncBatchStats}
use mesh_pad.Sidecar.{P2pController, System, Async, system_of}
use mesh_pad.Sidecar.Controller.{controller_batch_sync, controller_pull, controller_push}
use mesh_pad.SidecarApi.{
  stop_json, start_json, wire_push_json, wire_batch_import_json, wire_attachment_push_json,
}
use mesh_pad.SidecarApi.Sync.{
  Environment, stores_of, after_batch, await_host, http_import, http_push, sync_http, sync_libp2p,
  sync_peer, transfer, sync_json,
}
use mesh_pad.SidecarApi.Dispatch.{
  HttpMethod, Route, health, start, sync, wire_catalog, wire_push, wire_pull, wire_batch_export,
  wire_batch_import, wire_attachment_push, wire_attachment_pull, route_of, parse_body, with_body,
  handle, handle_route, dispatch_json,
}
use mesh_pad.Sidecar.Closed.{
  Keeps, Keeps-bind, controller_pull-Keeps, controller_push-Keeps, controller_batch_sync-Keeps,
  controller_stop-Keeps,
}
use mesh_pad.Sidecar.Closed.Remote.{import_wire_from_http-Keeps}

module _ ⦃json : Json⦄ ⦃base64 : Base64⦄ ⦃libp2p : Libp2p json.Value⦄ ⦃http : Http json.Value⦄
    ⦃serde : Serde⦄ ⦃tokio : Tokio⦄ where
  open json use {Value}
  open http use {World}

  module _ (Q : Stores → Type 0) (closed : (s : Stores) (a : Arrival) → Q s → Q (arrive s a)) where
    after_batch-Keeps :
        (env : Environment) (peer : String) (r : Result SyncBatchStats String) (s : System)
        → Q (stores_of s.state)
        → Keeps Q closed (after_batch env peer r s)
    after_batch-Keeps env peer (ok stats) s k = k
    after_batch-Keeps env peer (err e) s k =
        Keeps-bind Q closed (controller_pull env.pull peer s) _
          (controller_pull-Keeps Q closed env.pull peer s k)
          (λ imported s' k'.
            Keeps-bind Q closed (controller_push env.push peer s') _
              (controller_push-Keeps Q closed env.push peer s' k') (λ pushed s'' k''. k''))

    sync_libp2p-Keeps :
        (env : Environment) (peer : String) (s : System)
        → Q (stores_of s.state)
        → Keeps Q closed (sync_libp2p env peer s)
    unfolding sync_libp2p
    sync_libp2p-Keeps env peer s k =
        Keeps-bind Q closed (controller_batch_sync env.batch_sync peer s) _
          (controller_batch_sync-Keeps Q closed env.batch_sync peer s k)
          (λ r s' k'. after_batch-Keeps env peer r s' k')

    await_host-Keeps :
        {A : Type 0} (r : Option A) (s : System)
        → Q (stores_of s.state)
        → Keeps Q closed (await_host r s)
    await_host-Keeps none s k = k
    await_host-Keeps (some a) s k = k

    sync_http-Keeps :
        (base : String) (s : System) → Q (stores_of s.state) → Keeps Q closed (sync_http base s)
    unfolding sync_http
    sync_http-Keeps base s k =
        Keeps-bind Q closed (http_import base s) _
          (await_host-Keeps _ _ (import_wire_from_http-Keeps Q closed base _ s.world k))
          (λ imported s' k'.
            Keeps-bind Q closed (http_push base s') _ (await_host-Keeps _ _ k')
              (λ pushed s'' k''. k''))

    transfer-Keeps :
        (env : Environment) (base peer : Option String) (s : System)
        → Q (stores_of s.state)
        → Keeps Q closed (transfer env base peer s)
    transfer-Keeps env (some base) peer s k = sync_http-Keeps base s k
    transfer-Keeps env none none s k = k
    transfer-Keeps env none (some peer) s k = by_controller s.state.inner.p2p
      where
        by_controller : (c : Option P2pController) → Keeps Q closed (sync_peer env peer c s)
        by_controller none = k
        by_controller (some c) = sync_libp2p-Keeps env peer s k

    with_body-Keeps :
        {T : Type 0} (r : Result T String) (f : T → Async (Result Value String)) (s : System)
        → Q (stores_of s.state)
        → ((b : T) → Keeps Q closed (f b s))
        → Keeps Q closed (with_body r f s)
    with_body-Keeps (ok b) f s k h = h b
    with_body-Keeps (err e) f s k h = k

    handle-Keeps :
        (env : Environment) (route : Route) (body : Option Value) (s : System)
        → Q (stores_of s.state)
        → Keeps Q closed (handle env route body s)
    unfolding arrive handle sync_json start_json stop_json wire_push_json wire_batch_import_json
        wire_attachment_push_json
    handle-Keeps env health body s k = k
    handle-Keeps env start body s k =
        with_body-Keeps (parse_body serde.start_request body) _ s k (λ b. k)
    handle-Keeps env Route.stop body s k =
        controller_stop-Keeps Q closed env.stop s.state.inner.p2p _ k
    handle-Keeps env sync body s k =
        with_body-Keeps (parse_body serde.sync_request body) _ s k (λ b.
          Keeps-bind Q closed (sync_json env b s) _
            (Keeps-bind Q closed (transfer env b.remote_wire_base b.peer_id s) _
              (transfer-Keeps env b.remote_wire_base b.peer_id s k) (λ r s' k'. k'))
            (λ v s' k'. k'))
    handle-Keeps env wire_catalog body s k = k
    handle-Keeps env wire_push body s k =
        with_body-Keeps (parse_body serde.wire_push_request body) _ s k
          (λ b. closed (stores_of s.state) (snapshot b.snapshot) k)
    handle-Keeps env wire_pull body s k =
        with_body-Keeps (parse_body serde.wire_pull_request body) _ s k (λ b. k)
    handle-Keeps env wire_batch_export body s k = k
    handle-Keeps env wire_batch_import body s k =
        with_body-Keeps (ok_or_else body "missing batch body") _ s k
          (λ b. closed (stores_of s.state) (batch b) k)
    handle-Keeps env wire_attachment_push body s k =
        with_body-Keeps (parse_body serde.attachment_push_request body) _ s k (λ b.
          closed (stores_of s.state)
            (attachment b.note_id b.name (unwrap_or (base64.decode b.bytes_base64) [])) k)
    handle-Keeps env wire_attachment_pull body s k =
        with_body-Keeps (parse_body serde.attachment_pull_request body) _ s k (λ b. k)

    pub dispatch_json-Keeps :
        (env : Environment) (method : HttpMethod) (path : String) (body : Option Value) (s : System)
        → Q (stores_of s.state)
        → Keeps Q closed (dispatch_json env method path body s)
    unfolding dispatch_json
    dispatch_json-Keeps env method path body s k = by_route (route_of method (trim path))
      where
        by_route :
            (route : Option Route)
            → Keeps Q closed (handle_route env method (trim path) body route s)
        by_route none = k
        by_route (some route) = handle-Keeps env route body s k

  -- Every request, on every route and whatever its body, the remote hosts and the loop do, keeps
  -- every note under its own id, once.
  pub dispatch_json-IsKeyed :
      (env : Environment) (method : HttpMethod) (path : String) (body : Option Value) (s : System)
      → IsKeyed s.state.wire
      → IsKeyed (system_of (dispatch_json env method path body s)).state.wire
  dispatch_json-IsKeyed = dispatch_json-Keeps (λ t. IsKeyed t.wire) arrive-IsKeyed

  -- No request, on any route and whatever its body, the remote hosts and the loop do, loses a note or
  -- an attachment: under each id that had a note there is one after it, and under each key that had
  -- bytes there are some.
  pub dispatch_json_keeps :
      (env : Environment) (method : HttpMethod) (path : String) (body : Option Value) (s : System)
      → let s' = system_of (dispatch_json env method path body s) in
        ((id : String) → note s.state.wire id ≢ none → note s'.state.wire id ≢ none)
        × ((key : String)
            → blob s.state.attachments key ≢ none
            → blob s'.state.attachments key ≢ none)
  dispatch_json_keeps env method path body s = (
    λ id.
        dispatch_json-Keeps (λ t. note t.wire id ≢ none) (arrive-keeps_note id) env method path body
          s,
    λ key.
        dispatch_json-Keeps (λ t. blob t.attachments key ≢ none) (arrive-keeps_blob key) env method
          path body s,
  )

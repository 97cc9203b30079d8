-- ===== src/SidecarApi/Dispatch/Outcomes.antt =====
-- How a request ends: with a result, when it waits for no loop; and an error changes nothing.
use mesh_pad.Base.{
  ◌≡◌, refl, sym, subst, ap, String, Option, none, some, Result, ok, err, ok_or_else,
}
use mesh_pad.Base.Text.{trim}
use mesh_pad.External.Json.{Json}
use mesh_pad.External.Base64.{Base64}
use mesh_pad.External.Libp2p.{Libp2p}
use mesh_pad.External.Http.{Http}
use mesh_pad.External.Serde.{Serde}
use mesh_pad.External.Tokio.{Tokio}
use mesh_pad.Sidecar.{P2pController, System, Outcome, Async, done, waiting}
use mesh_pad.Sidecar.Requests.{SyncRequest}
use mesh_pad.Sidecar.Controller.{controller_batch_sync, controller_pull, controller_push}
use mesh_pad.SidecarApi.{wire_attachment_pull_json}
use mesh_pad.SidecarApi.Sync.{Environment, transfer, sync_peer, sync_libp2p, sync_json}
use mesh_pad.Sidecar.WireBase.{normalize_wire_base}
use mesh_pad.SidecarApi.Dispatch.{
  HttpMethod, Route, health, start, stop, sync, wire_catalog, wire_push, wire_pull,
  wire_batch_export, wire_batch_import, wire_attachment_push, wire_attachment_pull, route_of,
  parse_body, with_body, handle, handle_route, dispatch_json,
}
use mesh_pad.SidecarApi.Dispatch.Hosts.{IsDone, IsDone-bind, Responds, sync_http-IsDone}

module _ ⦃json : Json⦄ ⦃base64 : Base64⦄ ⦃libp2p : Libp2p json.Value⦄ ⦃http : Http json.Value⦄
    ⦃serde : Serde⦄ ⦃tokio : Tokio⦄ where
  open json use {Value}
  open http use {World, get, post}

  -- No loop that could leave a caller without an answer: no controller, or one whose loop has ended.
  abbrev pub IsIdle : Option P2pController → Type 0
  IsIdle none = Unit
  IsIdle (some c) = c.node ≡ none

  sync_peer-IsDone :
      (env : Environment) (peer : String) (c : Option P2pController) (s : System)
      → c ≡ s.state.inner.p2p
      → IsIdle c
      → IsDone (sync_peer env peer c s)
  unfolding sync_libp2p controller_batch_sync controller_pull controller_push
  sync_peer-IsDone env peer none s e idle = tt
  sync_peer-IsDone env peer (some c) s e idle = rw (sym e) (rw idle tt)

  -- What a sync waits for comes: answers of the host at the address, or, without an address, no
  -- answer of a loop.
  abbrev pub IsAnswered : Option String → System → Type 0
  IsAnswered (some base) s = Responds (normalize_wire_base base)
  IsAnswered none s = IsIdle s.state.inner.p2p

  transfer-IsDone :
      (env : Environment) (base peer : Option String) (s : System)
      → IsAnswered base s
      → IsDone (transfer env base peer s)
  transfer-IsDone env (some base) peer s h = sync_http-IsDone base s h
  transfer-IsDone env none none s h = tt
  transfer-IsDone env none (some peer) s idle = sync_peer-IsDone env peer _ s refl idle

  sync_json-IsDone :
      (env : Environment) (body : SyncRequest) (s : System)
      → IsAnswered body.remote_wire_base s
      → IsDone (sync_json env body s)
  unfolding sync_json
  sync_json-IsDone env body s h =
      IsDone-bind (transfer env body.remote_wire_base body.peer_id s) _
        (transfer-IsDone env body.remote_wire_base body.peer_id s h) (λ r s'. tt)

  with_body-IsDone :
      {T : Type 0} (r : Result T String) (f : T → Async (Result Value String)) (s : System)
      → ((b : T) → r ≡ ok b → IsDone (f b s))
      → IsDone (with_body r f s)
  with_body-IsDone (ok b) f s h = h b refl
  with_body-IsDone (err e) f s h = tt

  handle-IsDone :
      (env : Environment) (route : Route) (body : Option Value) (s : System)
      → (route ≡ sync
          → (b : SyncRequest) → parse_body serde.sync_request body ≡ ok b
          → IsAnswered b.remote_wire_base s)
      → IsDone (handle env route body s)
  unfolding handle
  handle-IsDone env health body s h = tt
  handle-IsDone env start body s h =
      with_body-IsDone (parse_body serde.start_request body) _ s (λ b e. tt)
  handle-IsDone env stop body s h = tt
  handle-IsDone env sync body s h =
      with_body-IsDone (parse_body serde.sync_request body) _ s (λ b e.
        IsDone-bind (sync_json env b s) _ (sync_json-IsDone env b s (h refl b e)) (λ v s'. tt))
  handle-IsDone env wire_catalog body s h = tt
  handle-IsDone env wire_push body s h =
      with_body-IsDone (parse_body serde.wire_push_request body) _ s (λ b e. tt)
  handle-IsDone env wire_pull body s h =
      with_body-IsDone (parse_body serde.wire_pull_request body) _ s (λ b e. tt)
  handle-IsDone env wire_batch_export body s h = tt
  handle-IsDone env wire_batch_import body s h =
      with_body-IsDone (ok_or_else body "missing batch body") _ s (λ b e. tt)
  handle-IsDone env wire_attachment_push body s h =
      with_body-IsDone (parse_body serde.attachment_push_request body) _ s (λ b e. tt)
  handle-IsDone env wire_attachment_pull body s h =
      with_body-IsDone (parse_body serde.attachment_pull_request body) _ s (λ b e. tt)

  handle_route-IsDone :
      (env : Environment) (method : HttpMethod) (path : String) (body : Option Value)
      (route : Option Route) (s : System)
      → (route ≡ some sync
          → (b : SyncRequest) → parse_body serde.sync_request body ≡ ok b
          → IsAnswered b.remote_wire_base s)
      → IsDone (handle_route env method path body route s)
  handle_route-IsDone env method path body none s h = tt
  handle_route-IsDone env method path body (some route) s h =
      handle-IsDone env route body s (λ e. h (ap some e))

  -- Every request comes to an end, with a value or an error, but for two kinds of sync: one that names
  -- the address of a remote host which leaves one of its requests without an answer for ever, and one
  -- that names no address and meets a loop that still runs.
  pub dispatch_json-IsDone :
      (env : Environment) (method : HttpMethod) (path : String) (body : Option Value) (s : System)
      → (route_of method (trim path) ≡ some sync
          → (b : SyncRequest) → parse_body serde.sync_request body ≡ ok b
          → IsAnswered b.remote_wire_base s)
      → IsDone (dispatch_json env method path body s)
  unfolding dispatch_json
  dispatch_json-IsDone env method path body s h =
      handle_route-IsDone env method (trim path) body (route_of method (trim path)) s h

  -- The state and the world where an outcome is an error are those before.
  abbrev pub Unchanged : System → Outcome (Result Value String) → Type 0
  Unchanged s (done (ok v) s') = Unit
  Unchanged s (done (err e) s') = s' ≡ s
  Unchanged s (waiting s') = Unit

  with_body-Unchanged :
      {T : Type 0} (r : Result T String) (f : T → Async (Result Value String)) (s : System)
      → ((b : T) → Unchanged s (f b s))
      → Unchanged s (with_body r f s)
  with_body-Unchanged (ok b) f s h = h b
  with_body-Unchanged (err e) f s h = refl

  bind-Unchanged :
      (m : Outcome Value) (s : System)
      → Unchanged s (elim m [ done v s' ↦ done (ok v) s' | waiting s' ↦ waiting s' ])
  bind-Unchanged (done v s') s = tt
  bind-Unchanged (waiting s') s = tt

  handle-Unchanged :
      (env : Environment) (route : Route) (body : Option Value) (s : System)
      → Unchanged s (handle env route body s)
  unfolding handle wire_attachment_pull_json
  handle-Unchanged env health body s = tt
  handle-Unchanged env start body s =
      with_body-Unchanged (parse_body serde.start_request body) _ s (λ b. tt)
  handle-Unchanged env stop body s = tt
  handle-Unchanged env sync body s =
      with_body-Unchanged (parse_body serde.sync_request body) _ s
        (λ b. bind-Unchanged (sync_json env b s) s)
  handle-Unchanged env wire_catalog body s = tt
  handle-Unchanged env wire_push body s =
      with_body-Unchanged (parse_body serde.wire_push_request body) _ s (λ b. tt)
  handle-Unchanged env wire_pull body s =
      with_body-Unchanged (parse_body serde.wire_pull_request body) _ s (λ b. tt)
  handle-Unchanged env wire_batch_export body s = tt
  handle-Unchanged env wire_batch_import body s =
      with_body-Unchanged (ok_or_else body "missing batch body") _ s (λ b. tt)
  handle-Unchanged env wire_attachment_push body s =
      with_body-Unchanged (parse_body serde.attachment_push_request body) _ s (λ b. tt)
  handle-Unchanged env wire_attachment_pull body s =
      with_body-Unchanged (parse_body serde.attachment_pull_request body) _ s (λ b. tt)

  -- A request that ends with an error leaves the sidecar and the world as they were.
  pub dispatch_json_unchanged :
      (env : Environment) (method : HttpMethod) (path : String) (body : Option Value)
      (s s' : System) (e : String)
      → dispatch_json env method path body s ≡ done (err e) s'
      → s' ≡ s
  unfolding dispatch_json
  dispatch_json_unchanged env method path body s s' e h =
      subst (Unchanged s) h (by_route (route_of method (trim path)))
    where
      by_route :
          (route : Option Route) → Unchanged s (handle_route env method (trim path) body route s)
      by_route none = refl
      by_route (some route) = handle-Unchanged env route body s

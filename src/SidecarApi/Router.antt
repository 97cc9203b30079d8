-- ===== src/SidecarApi/Router.antt =====
-- sidecar.rs: build_router and the handlers of the HTTP server, and that they answer as
-- dispatch_json does.
pub mod Paths
pub mod Extraction
pub mod Agreement
use mesh_pad.Base.{
  ℕ, String, Bool, true, false, ◌&&◌, Option, none, some, List, [], ◌∷◌, Result, ok, err,
  ok_or_else, ◌==◌, ◌>>=◌, string_key, if◌then◌else◌,
}
use mesh_pad.External.Json.{Json}
use mesh_pad.External.Base64.{Base64}
use mesh_pad.External.Libp2p.{Libp2p}
use mesh_pad.External.Http.{Http}
use mesh_pad.External.Serde.{Serde}
use mesh_pad.External.Tokio.{Tokio}
use mesh_pad.External.Axum.{Axum, HttpBody}
use mesh_pad.Sidecar.{SidecarState, System, Async, Outcome, done, waiting}
use mesh_pad.SidecarApi.{
  health_json, start_json, stop_json, wire_catalog_json, wire_push_json, wire_pull_json,
  wire_batch_export_json, wire_batch_import_json, wire_attachment_push_json,
  wire_attachment_pull_json,
}
use mesh_pad.SidecarApi.Sync.{Environment, sync_json}
use mesh_pad.SidecarApi.Dispatch.{HttpMethod, get, post, parse_body}

pub data Handler : Type 0 where
  health start stop sync wire_catalog wire_push wire_pull : Handler
  wire_attachment_push wire_attachment_pull wire_batch_export wire_batch_import : Handler
  events_sse : Handler

-- build_router
abbrev pub router : List (HttpMethod × String × Handler)
router =
    (get, "/health", health)
    ∷ (post, "/v1/start", start)
    ∷ (post, "/v1/stop", stop)
    ∷ (post, "/v1/sync", sync)
    ∷ (get, "/v1/wire/catalog", wire_catalog)
    ∷ (post, "/v1/wire/push", wire_push)
    ∷ (post, "/v1/wire/pull", wire_pull)
    ∷ (post, "/v1/wire/attachment/push", wire_attachment_push)
    ∷ (post, "/v1/wire/attachment/pull", wire_attachment_pull)
    ∷ (get, "/v1/wire/batch/export", wire_batch_export)
    ∷ (post, "/v1/wire/batch/import", wire_batch_import)
    ∷ (get, "/v1/events", events_sse)
    ∷ []

-- A response: JSON under a status, axum's own answer to a request without a handler or to a body
-- that its extractor cannot read, or the stream of events.
pub data Response (Value : Type 0) : Type 0 where
  answered : ℕ → Value → Response Value
  no_handler : Response Value
  rejected : Response Value
  stream : Response Value

module _ ⦃json : Json⦄ ⦃libp2p : Libp2p json.Value⦄ ⦃http : Http json.Value⦄ where
  open json use {Value, string, bool, object, as_str}

  -- `Json(body): Json<T>`, with what the extractor gives
  abbrev pub extracted :
      {T : Type 0} → Option T → (T → Async (Response Value)) → Async (Response Value)
  extracted (some body) f s = f body s
  extracted none f s = done rejected s

  abbrev pub shown : (SidecarState → Value) → Async (Response Value)
  shown f s = done (answered 200 (f s.state)) s

  abbrev pub changed : (SidecarState → Value × SidecarState) → Async (Response Value)
  changed f s = let (v, state') = f s.state in done (answered 200 v) (record s { state = state' })

  -- `value.get("status").and_then(|v| v.as_str()) == Some("not_found")`
  abbrev pub is_not_found : Option String → Bool
  is_not_found none = false
  is_not_found (some text) = text == "not_found"

  -- the reply of the handler wire_attachment_pull
  abbrev pub pull_response : Result Value String → Response Value
  pull_response (ok value) =
      if is_not_found (do v ← json.get value "status"; as_str v)
      then answered 404 value
      else answered 200 value
  pull_response (err message) =
      answered 400 (object (("status", string "error") ∷ ("message", string message) ∷ []))

  abbrev pub finished : Outcome Value → Outcome (Response Value)
  finished (done v s) = done (answered 200 v) s
  finished (waiting s) = waiting s

module _ ⦃json : Json⦄ ⦃base64 : Base64⦄ ⦃libp2p : Libp2p json.Value⦄ ⦃http : Http json.Value⦄
    ⦃serde : Serde⦄ ⦃tokio : Tokio⦄ where
  open json use {Value}

  unfoldable pub serve :
      ⦃axum : Axum Value Handler⦄ → Environment → Handler → HttpBody Value → Async (Response Value)
  serve ⦃axum⦄ env health body = shown health_json
  serve ⦃axum⦄ env start body =
      extracted (axum.extract serde.start_request body)
        (λ b. changed (λ s. start_json env.build env.peer_wire_port s b))
  serve ⦃axum⦄ env stop body = changed (λ s. stop_json env.stop s)
  serve ⦃axum⦄ env sync body =
      extracted (axum.extract serde.sync_request body) (λ b s. finished (sync_json env b s))
  serve ⦃axum⦄ env wire_catalog body = shown wire_catalog_json
  serve ⦃axum⦄ env wire_push body =
      extracted (axum.extract serde.wire_push_request body) (λ b. changed (λ s. wire_push_json s b))
  serve ⦃axum⦄ env wire_pull body =
      extracted (axum.extract serde.wire_pull_request body) (λ b. shown (λ s. wire_pull_json s b))
  serve ⦃axum⦄ env wire_attachment_push body =
      extracted (axum.extract serde.attachment_push_request body)
        (λ b. changed (λ s. wire_attachment_push_json s b))
  serve ⦃axum⦄ env wire_attachment_pull body =
      extracted (axum.extract serde.attachment_pull_request body)
        (λ b s. done (pull_response (wire_attachment_pull_json s.state b)) s)
  serve ⦃axum⦄ env wire_batch_export body = shown wire_batch_export_json
  serve ⦃axum⦄ env wire_batch_import body =
      extracted (axum.extract ok body) (λ b. changed (λ s. wire_batch_import_json s b))
  serve ⦃axum⦄ env events_sse body = λ s. done stream s

  abbrev pub serve_found :
      ⦃axum : Axum Value Handler⦄
      → Environment
      → HttpBody Value
      → Option Handler
      → Async (Response Value)
  serve_found env body none s = done no_handler s
  serve_found env body (some handler) s = serve env handler body s

  unfoldable pub http_request :
      ⦃axum : Axum Value Handler⦄
      → Environment
      → HttpMethod
      → String
      → HttpBody Value
      → Async (Response Value)
  http_request ⦃axum⦄ env method path body = serve_found env body (axum.find router method path)

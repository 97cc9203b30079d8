-- ===== src/SidecarApi/Dispatch.antt =====
-- sidecar_api.rs: dispatch_json.
pub mod Hosts
pub mod Outcomes
use mesh_pad.Base.{
  String, Bool, Option, none, some, Result, ok, err, ok_or_else, ◌==◌, string_key, if◌then◌else◌,
}
use mesh_pad.Base.Text.{concat, trim}
use mesh_pad.External.Json.{Json}
use mesh_pad.External.Base64.{Base64}
use mesh_pad.External.Libp2p.{Libp2p}
use mesh_pad.External.Http.{Http}
use mesh_pad.External.Serde.{Serde}
use mesh_pad.External.Tokio.{Tokio}
use mesh_pad.Sidecar.{SidecarState, System, Async, done, waiting, ◌>>=◌, pure}
use mesh_pad.SidecarApi.{
  health_json, start_json, stop_json, wire_catalog_json, wire_push_json, wire_pull_json,
  wire_batch_export_json, wire_batch_import_json, wire_attachment_push_json,
  wire_attachment_pull_json,
}
use mesh_pad.SidecarApi.Sync.{Environment, sync_json}

pub data HttpMethod : Type 0 where
  get post : HttpMethod

-- The arms of the `match` of dispatch_json, without its last.
pub data Route : Type 0 where
  health start stop sync wire_catalog wire_push wire_pull : Route
  wire_batch_export wire_batch_import wire_attachment_push wire_attachment_pull : Route

unfoldable pub route_of : HttpMethod → String → Option Route
route_of get path =
    if path == "/health"
    then some health
    else if path == "/v1/wire/catalog"
    then some wire_catalog
    else if path == "/v1/wire/batch/export"
    then some wire_batch_export
    else none
route_of post path =
    if path == "/v1/start"
    then some start
    else if path == "/v1/stop"
    then some stop
    else if path == "/v1/sync"
    then some sync
    else if path == "/v1/wire/push"
    then some wire_push
    else if path == "/v1/wire/pull"
    then some wire_pull
    else if path == "/v1/wire/batch/import"
    then some wire_batch_import
    else if path == "/v1/wire/attachment/push"
    then some wire_attachment_push
    else if path == "/v1/wire/attachment/pull"
    then some wire_attachment_pull
    else none

-- `{method:?}`
abbrev pub method_text : HttpMethod → String
method_text get = "Get"
method_text post = "Post"

abbrev pub unsupported : HttpMethod → String → String
unsupported method path =
    concat "unsupported route " (concat (method_text method) (concat " " path))

abbrev pub parse_value : {V T : Type 0} → (V → Result T String) → Result V String → Result T String
parse_value from_value (ok v) = from_value v
parse_value from_value (err e) = err e

abbrev pub parse_body : {V T : Type 0} → (V → Result T String) → Option V → Result T String
parse_body from_value body = parse_value from_value (ok_or_else body "missing JSON body")

module _ ⦃json : Json⦄ ⦃libp2p : Libp2p json.Value⦄ ⦃http : Http json.Value⦄ where
  open json use {Value}

  -- `let body = parsed?;` and what follows
  abbrev pub with_body :
      {T : Type 0}
      → Result T String
      → (T → Async (Result Value String))
      → Async (Result Value String)
  with_body (ok body) f = f body
  with_body (err e) f = pure (err e)

  -- a handler that reads the state, and one that changes it
  abbrev pub reading : (SidecarState → Value) → Async (Result Value String)
  reading f s = done (ok (f s.state)) s

  abbrev pub changing : (SidecarState → Value × SidecarState) → Async (Result Value String)
  changing f s = let (v, state') = f s.state in done (ok v) (record s { state = state' })

module _ ⦃json : Json⦄ ⦃base64 : Base64⦄ ⦃libp2p : Libp2p json.Value⦄ ⦃http : Http json.Value⦄
    ⦃serde : Serde⦄ ⦃tokio : Tokio⦄ where
  open json use {Value}

  unfoldable pub handle : Environment → Route → Option Value → Async (Result Value String)
  handle env health body = reading health_json
  handle env start body =
      with_body (parse_body serde.start_request body)
        (λ b. changing (λ s. start_json env.build env.peer_wire_port s b))
  handle env stop body = changing (λ s. stop_json env.stop s)
  handle env sync body =
      with_body (parse_body serde.sync_request body) (λ b. do v ← sync_json env b; pure (ok v))
  handle env wire_catalog body = reading wire_catalog_json
  handle env wire_push body =
      with_body (parse_body serde.wire_push_request body) (λ b. changing (λ s. wire_push_json s b))
  handle env wire_pull body =
      with_body (parse_body serde.wire_pull_request body) (λ b. reading (λ s. wire_pull_json s b))
  handle env wire_batch_export body = reading wire_batch_export_json
  handle env wire_batch_import body =
      with_body (ok_or_else body "missing batch body")
        (λ b. changing (λ s. wire_batch_import_json s b))
  handle env wire_attachment_push body =
      with_body (parse_body serde.attachment_push_request body)
        (λ b. changing (λ s. wire_attachment_push_json s b))
  handle env wire_attachment_pull body =
      with_body (parse_body serde.attachment_pull_request body)
        (λ b s. done (wire_attachment_pull_json s.state b) s)

  abbrev pub handle_route :
      Environment → HttpMethod → String → Option Value → Option Route → Async (Result Value String)
  handle_route env method path body none = pure (err (unsupported method path))
  handle_route env method path body (some route) = handle env route body

  unfoldable pub dispatch_json :
      Environment → HttpMethod → String → Option Value → Async (Result Value String)
  unfolding trim route_of
  dispatch_json env method path body =
      handle_route env method (trim path) body (route_of method (trim path))

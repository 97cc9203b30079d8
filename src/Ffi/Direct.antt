-- ===== src/Ffi/Direct.antt =====
-- ffi.rs: the direct runtime. The process has at most one; a call holds the mutex DIRECT.
pub mod Requests
pub mod Events
use mesh_pad.Base.{
  ℕ, zero, suc, String, Option, none, some, List, [], ◌∷◌, Result, ok, err, if◌then◌else◌,
}
use mesh_pad.Base.Text.{trim, is_empty}
use mesh_pad.External.Json.{Json}
use mesh_pad.External.Base64.{Base64}
use mesh_pad.External.Libp2p.{Libp2p}
use mesh_pad.External.Http.{Http}
use mesh_pad.External.Serde.{Serde}
use mesh_pad.External.Tokio.{Tokio}
use mesh_pad.External.JsonText.{JsonText}
use mesh_pad.External.Broadcast.{Broadcast, Received, received, empty, closed, lagged}
use mesh_pad.Events.{SidecarEvent}
use mesh_pad.Events.Receiver.{event_capacity}
use mesh_pad.Events.Encoding.{event_json}
use mesh_pad.Sidecar.{SidecarState, System, Outcome, done, waiting, new_sidecar_state}
use mesh_pad.SidecarApi.{stop_json}
use mesh_pad.SidecarApi.Sync.{Environment}
use mesh_pad.SidecarApi.Dispatch.{HttpMethod, get, post, dispatch_json}
use mesh_pad.Ffi.{ℤ, pos, CText, text, invalid, json_ptr, error_ptr}

abbrev pub method_of : ℕ → Result HttpMethod String
method_of zero = ok get
method_of (suc zero) = ok post
method_of (suc (suc n)) = err "method must be 0 (GET) or 1 (POST)"

abbrev pub path_of : CText → Result String String
path_of (text path) = ok path
path_of invalid = err "invalid path utf-8"

module _ ⦃json : Json⦄ ⦃texts : JsonText json.Value⦄ where
  open json use {Value, object, string}

  abbrev pub parsed : Result Value String → Result (Option Value) String
  parsed (ok v) = ok (some v)
  parsed (err e) = err e

  unfoldable pub body_value : Option CText → Result (Option Value) String
  unfolding trim
  body_value none = ok none
  body_value (some invalid) = err "invalid body utf-8"
  body_value (some (text s)) = if is_empty (trim s) then ok none else parsed (texts.from_text s)

  -- `serde_json::to_value(event).unwrap_or(json!({ "error": "event encode" }))`
  abbrev pub encoded : Result Value String → Value
  encoded (ok v) = v
  encoded (err e) = object (("error", string "event encode") ∷ [])

  abbrev pub event_ptr : Received → Option String
  event_ptr (received e) = json_ptr (encoded (ok (event_json e)))
  event_ptr empty = none
  event_ptr closed = none
  event_ptr (lagged n) = none

module _ ⦃json : Json⦄ ⦃base64 : Base64⦄ ⦃libp2p : Libp2p json.Value⦄ ⦃http : Http json.Value⦄
    ⦃broadcast : Broadcast⦄ where
  pub record DirectRuntime : Type 0 where
    pub state : SidecarState
    pub events_rx : broadcast.Receiver

  -- DIRECT, and the hosts that the sidecar sends requests to
  pub record Process : Type 0 where
    pub direct : Option DirectRuntime
    pub world : http.World

  -- What a call comes to: a result, or a wait in which it holds the mutex.
  pub data Call : Type 0 where
    returned : Option String → Process → Call
    blocked : Process → Call

  abbrev pub started : Option DirectRuntime → DirectRuntime
  started (some runtime) = runtime
  started none =
      let state = new_sidecar_state 0 in
      record { state = state; events_rx = broadcast.subscribe state.events }

  -- meshpad_ffi_start_direct
  unfoldable pub start_direct : Process → ℕ × Process
  unfolding new_sidecar_state
  start_direct p = (1, record p { direct = some (started p.direct) })

  -- what runtime is left: stop_json ends the loop, and the runtime is dropped with its state
  abbrev pub stopped : Environment → Option DirectRuntime → Option DirectRuntime
  stopped env none = none
  stopped env (some runtime) = let (reply, state') = stop_json env.stop runtime.state in none

  -- meshpad_ffi_stop_direct
  unfoldable pub stop_direct : Environment → Process → ℤ × Process
  unfolding stop_json
  stop_direct env p = (pos 0, record p { direct = stopped env p.direct })

  module _ ⦃serde : Serde⦄ ⦃tokio : Tokio⦄ ⦃texts : JsonText json.Value⦄ where
    open json use {Value}

    abbrev pub reply_ptr : Result Value String → Option String
    reply_ptr (ok value) = json_ptr value
    reply_ptr (err e) = error_ptr e

    abbrev pub with_system : DirectRuntime → System → Process
    with_system runtime s = record {
      direct = some (record runtime { state = s.state });
      world = s.world;
    }

    abbrev pub reply_of : DirectRuntime → Outcome (Result Value String) → Call
    reply_of runtime (done r s) = returned (reply_ptr r) (with_system runtime s)
    reply_of runtime (waiting s) = blocked (with_system runtime s)

    -- the three checks of the arguments, in the order of the source, and the dispatch
    abbrev pub request_checked :
        Environment
        → DirectRuntime
        → Process
        → Result String String
        → Result (Option Value) String
        → Result HttpMethod String
        → Call
    request_checked env runtime p (err e) body method = returned (error_ptr e) p
    request_checked env runtime p (ok path) (err e) method = returned (error_ptr e) p
    request_checked env runtime p (ok path) (ok body) (err e) = returned (error_ptr e) p
    request_checked env runtime p (ok path) (ok body) (ok method) =
        reply_of runtime
          (dispatch_json env method path body (record { state = runtime.state; world = p.world }))

    abbrev pub request_to :
        Environment → ℕ → CText → Option CText → Process → Option DirectRuntime → Call
    request_to env method path body p none = returned (error_ptr "direct runtime not started") p
    request_to env method path body p (some runtime) =
        request_checked env runtime p (path_of path) (body_value body) (method_of method)

    -- meshpad_ffi_request
    unfoldable pub request : Environment → ℕ → CText → Option CText → Process → Call
    unfolding error_ptr body_value dispatch_json
    request env method path body p = request_to env method path body p p.direct

    abbrev pub poll_runtime : Process → Option DirectRuntime → Option String × Process
    poll_runtime p none = (none, p)
    poll_runtime p (some runtime) =
        let (got, rx) = broadcast.try_recv event_capacity runtime.state.events runtime.events_rx in
        (event_ptr got, record p { direct = some (record runtime { events_rx = rx }) })

    -- meshpad_ffi_poll_event
    unfoldable pub poll_event : Process → Option String × Process
    unfolding json_ptr
    poll_event p = poll_runtime p p.direct

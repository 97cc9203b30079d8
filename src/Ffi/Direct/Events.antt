-- ===== src/Ffi/Direct/Events.antt =====
-- meshpad_ffi_poll_event: the events of the sidecar, one for each call.
use mesh_pad.Base.{
  ℕ, zero, suc, ◌≤◌, ◌<◌, ◌≡◌, ◌≢◌, refl, ap, ap₂, ◌∙◌, String, Option, none, some, List, [], ◌∷◌,
  ◌++◌, map, length, arith,
}
use mesh_pad.External.Json.{Json}
use mesh_pad.External.Base64.{Base64}
use mesh_pad.External.Libp2p.{Libp2p}
use mesh_pad.External.Http.{Http}
use mesh_pad.External.Serde.{Serde}
use mesh_pad.External.Tokio.{Tokio}
use mesh_pad.External.JsonText.{JsonText}
use mesh_pad.External.Broadcast.{Broadcast}
use mesh_pad.Events.{SidecarEvent}
use mesh_pad.Events.Encoding.{event_json}
use mesh_pad.Ffi.{json_ptr_text}
use mesh_pad.Events.Receiver.{event_capacity, IsAt, next_receiver, next-nil, next-cons, next-lost}
use mesh_pad.Ffi.Direct.{event_ptr, DirectRuntime, Process, poll_event}

module _ ⦃json : Json⦄ ⦃base64 : Base64⦄ ⦃libp2p : Libp2p json.Value⦄ ⦃http : Http json.Value⦄
    ⦃broadcast : Broadcast⦄ ⦃serde : Serde⦄ ⦃tokio : Tokio⦄ ⦃texts : JsonText json.Value⦄ where
  abbrev pub process_of : http.World → DirectRuntime → Process
  process_of w runtime = record { direct = some runtime; world = w }

  abbrev pub event_text : SidecarEvent → String
  event_text e = texts.to_text (event_json e)

  abbrev collected : Option String → List String → List String
  collected none rest = []
  collected (some t) rest = t ∷ rest

  -- What a client gets that polls until a call gives null, `fuel` times at most.
  unfoldable pub poll_all : ℕ → Process → List String
  unfolding poll_event
  poll_all zero p = []
  poll_all (suc fuel) p = collected (poll_event p).0 (poll_all fuel (poll_event p).1)

  -- How far the polls of a process have come: its runtime's channel has sent `before` and `after`,
  -- and the receiver has got `before`.
  abbrev pub HasSeen : List SidecarEvent → List SidecarEvent → DirectRuntime → Type 0
  HasSeen before after runtime = IsAt before after runtime.state.events runtime.events_rx

  next_runtime : DirectRuntime → DirectRuntime
  next_runtime runtime = record runtime {
    events_rx = next_receiver runtime.state.events runtime.events_rx;
  }

  poll_event-nil :
      (before : List SidecarEvent) (w : http.World) (runtime : DirectRuntime)
      → HasSeen before [] runtime
      → (poll_event (process_of w runtime)).0 ≡ none
  unfolding poll_event
  poll_event-nil before w runtime h =
      ap event_ptr (next-nil before runtime.state.events runtime.events_rx h)

  poll_event-cons :
      (before after : List SidecarEvent) (e : SidecarEvent) (w : http.World)
      (runtime : DirectRuntime)
      → HasSeen before (e ∷ after) runtime
      → length (e ∷ after) ≤ event_capacity
      → ((poll_event (process_of w runtime)).0 ≡ some (event_text e))
        × ((poll_event (process_of w runtime)).1 ≡ process_of w (next_runtime runtime))
        × HasSeen (before ++ e ∷ []) after (next_runtime runtime)
  unfolding poll_event next_runtime
  poll_event-cons before after e w runtime h few =
      let (got, h') = next-cons before after runtime.state.events e runtime.events_rx h few in
      (ap event_ptr got ∙ json_ptr_text (event_json e), refl, h')

  -- A client that polls until it gets null gets the texts of all events that were sent since the last
  -- one that it got, in their order and no others, when these are at most 64: as many calls as there
  -- are events, and one more.
  pub poll_all_lem :
      (before after : List SidecarEvent) (w : http.World) (runtime : DirectRuntime) (fuel : ℕ)
      → HasSeen before after runtime
      → length after ≤ event_capacity
      → length after < fuel
      → poll_all fuel (process_of w runtime) ≡ map event_text after
  unfolding poll_all
  poll_all_lem before after w runtime zero h few enough = absurd (omega (arith, enough))
  poll_all_lem before [] w runtime (suc fuel) h few enough =
      ap (λ o. collected o (poll_all fuel (poll_event (process_of w runtime)).1))
        (poll_event-nil before w runtime h)
  poll_all_lem before (e ∷ after) w runtime (suc fuel) h few enough =
      let (got, next, h') = poll_event-cons before after e w runtime h few in
      ap₂ (λ o p. collected o (poll_all fuel p)) got next
      ∙ ap (◌∷◌ (event_text e)) (
          poll_all_lem (before ++ e ∷ []) after w (next_runtime runtime) fuel h'
            (omega (arith, few)) (omega (arith, enough)))

  -- Where more than 64 events were sent since the last one that the client got, a poll gives null,
  -- as where none was sent, and the next one gives the oldest of the last 64: those before it are
  -- lost.
  pub poll_event_lagged :
      (before lost after : List SidecarEvent) (e : SidecarEvent) (w : http.World)
      (runtime : DirectRuntime)
      → HasSeen before (lost ++ e ∷ after) runtime
      → lost ≢ []
      → length (e ∷ after) ≡ event_capacity
      → ((poll_event (process_of w runtime)).0 ≡ none)
        × ((poll_event (poll_event (process_of w runtime)).1).0 ≡ some (event_text e))
  unfolding poll_event next_runtime
  poll_event_lagged before lost after e w runtime h some_lost full =
      let (missed, h') =
        next-lost before lost (e ∷ after) runtime.state.events runtime.events_rx h some_lost full in
      (
        ap event_ptr missed,
        (poll_event-cons (before ++ lost) after e w (next_runtime runtime) h'
            (omega (arith, full))).0,
      )

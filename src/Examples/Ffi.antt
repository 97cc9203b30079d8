-- ===== src/Examples/Ffi.antt =====
-- The calls of the C ABI at concrete arguments.
use mesh_pad.Base.{
  ℕ, zero, suc, ◌≡◌, refl, none, some, List, [], ◌∷◌, ◌++◌, map, true, false, arith, inr, inl,
}
use mesh_pad.Base.Text.{trim}
use mesh_pad.Events.{SidecarEvent, sync_completed}
use mesh_pad.Events.Encoding.{event_json}
use mesh_pad.Sidecar.{new_sidecar_state}
use mesh_pad.SidecarApi.Dispatch.{get, handle, dispatch_json}
use mesh_pad.SidecarApi.Sync.{sync_json}
use mesh_pad.Ffi.{pos, text, version, version_check}
use mesh_pad.Ffi.Direct.{
  DirectRuntime, Process, Call, returned, blocked, start_direct, stop_direct, request, poll_event,
}
use mesh_pad.Ffi.Direct.Requests.{Answers, IsRefused, request-dispatch_json, request-IsRefused}
use mesh_pad.Ffi.Direct.Events.{
  process_of, event_text, HasSeen, poll_all, poll_all_lem, poll_event_lagged,
}
use mesh_pad.Ffi.Embedded.{
  at, free, looking, slotted, embedded_port, Embedded, Reach, Step, start_returns, here, next,
  start, bind, store_slot, found,
}
use mesh_pad.Ffi.Embedded.Invariant.{Reports, Step-Reports}
use mesh_pad.Ffi.Embedded.Race.{start_race}
use mesh_pad.Ffi.Embedded.Progress.{IsEnding, Reach-IsEnding}
use mesh_pad.Examples.Trees.{trees}
use mesh_pad.Examples.Latin.{latin}
use mesh_pad.Examples.Network.{network}
use mesh_pad.Examples.Requests.{derived, channels, host}
use mesh_pad.Examples.Texts.{printed, numbered}
use mesh_pad.Examples.Sidecars.{env, idle}

-- The version that the library gives passes its own check.
version_checked : version_check (some (text version)) ≡ pos 0
unfolding version_check
version_checked = refl

abbrev runtime : DirectRuntime
runtime = record { state = idle.state; events_rx = 0 }

request-dispatch_json_example :
    Answers runtime.events_rx
      (dispatch_json env get "/health" none (record { state = runtime.state; world = idle.world }))
      (request env 0
        (text "/health")
        (some (text " "))
        (record { direct = some runtime; world = idle.world }))
unfolding trim
request-dispatch_json_example =
    request-dispatch_json env runtime idle.world get "/health" (some (text " ")) none
      (inl (refl, refl))

request-IsRefused_example :
    IsRefused
      (process_of idle.world runtime)
      (request env 2 (text "/health") none (process_of idle.world runtime))
request-IsRefused_example =
    request-IsRefused env 2 (text "/health") none (process_of idle.world runtime)
      (inr (inr (inr (omega arith))))

abbrev happened : ℕ → SidecarEvent
happened n = sync_completed "peer-b" n

abbrev busy : List SidecarEvent → DirectRuntime
busy events = record { state = record (new_sidecar_state 0) { events = events }; events_rx = 1 }

abbrev two_left : DirectRuntime
two_left = busy (happened 1 ∷ happened 2 ∷ happened 3 ∷ [])

two_left-HasSeen : HasSeen (happened 1 ∷ []) (happened 2 ∷ happened 3 ∷ []) two_left
two_left-HasSeen = record { split = refl; seen = refl }

poll_all_lem_example :
    poll_all 3 (process_of idle.world two_left) ≡ map event_text (happened 2 ∷ happened 3 ∷ [])
poll_all_lem_example =
    poll_all_lem (happened 1 ∷ []) (happened 2 ∷ happened 3 ∷ []) idle.world two_left 3
      two_left-HasSeen (omega arith) (omega arith)

abbrev many : ℕ → List SidecarEvent
many zero = []
many (suc n) = happened n ∷ many n

abbrev flooded : DirectRuntime
flooded = busy (happened 0 ∷ happened 1 ∷ happened 2 ∷ many 63)

flooded-HasSeen : HasSeen (happened 0 ∷ []) ((happened 1 ∷ []) ++ happened 2 ∷ many 63) flooded
flooded-HasSeen = record { split = refl; seen = refl }

poll_event_lagged_example :
    ((poll_event (process_of idle.world flooded)).0 ≡ none)
    × ((poll_event (poll_event (process_of idle.world flooded)).1).0
        ≡ some (event_text (happened 2)))
poll_event_lagged_example =
    poll_event_lagged (happened 0 ∷ []) (happened 1 ∷ []) (many 63) (happened 2) idle.world flooded
      flooded-HasSeen (λ e. cc) refl

abbrev process_after : Call → Process
process_after (returned reply p) = p
process_after (blocked p) = p

-- A start of the direct runtime, a sync that has nobody to sync with, its event, and a stop.
abbrev synced : Process
synced = process_after (
    request env 1 (text "/v1/sync") (some (text "{}"))
      (start_direct (record { direct = none; world = idle.world })).1)

sync_polled : poll_all 2 synced ≡ event_text (sync_completed "sidecar" 0) ∷ []
unfolding poll_all request start_direct handle sync_json event_json
sync_polled = refl

sync_stopped : (poll_event (stop_direct env synced).1).0 ≡ none
unfolding poll_event stop_direct request start_direct handle sync_json
sync_stopped = refl

abbrev started_at : Embedded
started_at = at 0 4711 false false (slotted 4711) (looking 200)

started_at-Reach : Reach started_at
started_at-Reach = next (next (next here start) (bind 4711)) store_slot

Step-Reports_example : Reports (start_returns 4711) (at 0 4711 true false (slotted 4711) free)
Step-Reports_example =
    Step-Reports started_at (at 0 4711 true false (slotted 4711) free) (start_returns 4711)
      started_at-Reach (found (λ e. cc))

start_race_example :
    (s : Embedded) × (t : Embedded) × Reach s
    × Step s (start_returns 4711) t
    × (t.server ≡ true)
    × (embedded_port t ≡ 0)
    × Step t (start_returns 0) t
start_race_example = start_race 4711 (λ e. cc)

Reach-IsEnding_example : IsEnding started_at
Reach-IsEnding_example = Reach-IsEnding started_at started_at-Reach tt

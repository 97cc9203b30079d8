-- ===== src/Sidecar/EventStream.antt =====
-- sidecar.rs: events_sse. A client's stream is that of its receiver, without what is no event.
use mesh_pad.Base.{
  ℕ, zero, suc, ◌+◌, ◌≤◌, ◌<◌, ◌≡◌, ap, ◌∙◌, ◌⊎◌, inl, inr, String, List, [], ◌∷◌, ◌++◌, map,
  length, arith,
}
use mesh_pad.External.Json.{Json}
use mesh_pad.External.JsonText.{JsonText}
use mesh_pad.External.Broadcast.{Broadcast, Received, received, empty, closed, lagged}
use mesh_pad.Events.{SidecarEvent}
use mesh_pad.Events.Receiver.{event_capacity, IsAt, next_receiver, next-nil, next-cons, next-lost}
use mesh_pad.Events.Encoding.{event_json}

module _ ⦃json : Json⦄ ⦃broadcast : Broadcast⦄ ⦃texts : JsonText json.Value⦄ where
  open broadcast use {Receiver, subscribe, try_recv, position}

  -- `Event::default().data(payload)`
  abbrev pub payload : SidecarEvent → String
  payload e = texts.to_text (event_json e)

  -- the closure of `filter_map`, before the rest of the stream
  abbrev pub sent_on : Received → List String → List String
  sent_on (received e) rest = payload e ∷ rest
  sent_on (lagged n) rest = rest
  sent_on empty rest = []
  sent_on closed rest = []

  -- What the client is sent until the channel has nothing more, in at most `fuel` items of the
  -- receiver's stream.
  unfoldable pub events_sse : ℕ → List SidecarEvent → Receiver → List String
  events_sse zero sent rx = []
  events_sse (suc fuel) sent rx =
      let (got, rx') = try_recv event_capacity sent rx in sent_on got (events_sse fuel sent rx')

  events_sse-kept :
      (before after sent : List SidecarEvent) (rx : Receiver) (fuel : ℕ)
      → IsAt before after sent rx
      → length after ≤ event_capacity
      → length after < fuel
      → events_sse fuel sent rx ≡ map payload after
  unfolding events_sse
  events_sse-kept before after sent rx zero h few enough = absurd (omega (arith, enough))
  events_sse-kept before [] sent rx (suc fuel) h few enough =
      ap (λ got. sent_on got (events_sse fuel sent (next_receiver sent rx)))
        (next-nil before sent rx h)
  events_sse-kept before (e ∷ after) sent rx (suc fuel) h few enough =
      let (got, h') = next-cons before after sent e rx h few in
      ap (λ g. sent_on g (events_sse fuel sent (next_receiver sent rx))) got
      ∙ ap (◌∷◌ (payload e)) (
          events_sse-kept (before ++ e ∷ []) after sent (next_receiver sent rx) fuel h'
            (omega (arith, few)) (omega (arith, enough)))

  -- What a client of the stream is sent of the events since the last that it got: all of them in
  -- their order, where they are at most 64, and else the last 64 in their order, with no sign of those
  -- that are lost.
  pub events_sse_lem :
      (before lost kept sent : List SidecarEvent) (rx : Receiver) (fuel : ℕ)
      → IsAt before (lost ++ kept) sent rx
      → (lost ≡ []) ⊎ (length kept ≡ event_capacity)
      → length kept ≤ event_capacity
      → length kept + 1 < fuel
      → events_sse fuel sent rx ≡ map payload kept
  unfolding events_sse
  events_sse_lem before lost kept sent rx zero h full few enough = absurd (omega (arith, enough))
  events_sse_lem before [] kept sent rx (suc fuel) h full few enough =
      events_sse-kept before kept sent rx (suc fuel) h few (omega (arith, enough))
  events_sse_lem before (l ∷ ls) kept sent rx (suc fuel) h (inl e) few enough = cc
  events_sse_lem before (l ∷ ls) kept sent rx (suc fuel) h (inr full) few enough =
      let (missed, h') = next-lost before (l ∷ ls) kept sent rx h (λ e. cc) full in
      ap (λ g. sent_on g (events_sse fuel sent (next_receiver sent rx))) missed
      ∙ events_sse-kept (before ++ l ∷ ls) kept sent (next_receiver sent rx) fuel h' few
          (omega (arith, enough))

-- ===== src/Events/Receiver.antt =====
-- A receiver of the broadcast of events, by what it has got and what is left.
use mesh_pad.Base.{
  ℕ, ◌+◌, ◌-◌, ◌≤◌, ◌≡◌, ◌≢◌, refl, sym, ap, ◌∙◌, List, [], ◌∷◌, ◌++◌, length, length-append, arith,
}
use mathlib.Core.List.{append_assoc}
use mesh_pad.External.Broadcast.{Broadcast, Received, received, empty, lagged}
use mesh_pad.Events.{SidecarEvent}

-- `broadcast::channel(64)` of new_sidecar_state
abbrev pub event_capacity : ℕ
event_capacity = 64

module _ ⦃broadcast : Broadcast⦄ where
  open broadcast use {Receiver, try_recv, position}

  -- The receiver has got `before` of what was sent, and `after` is left.
  pub record IsAt (before after sent : List SidecarEvent) (rx : Receiver) : Type 0 where
    pub split : sent ≡ before ++ after
    pub seen : position rx ≡ length before

  abbrev pub next_event : List SidecarEvent → Receiver → Received
  next_event sent rx = (try_recv event_capacity sent rx).0

  abbrev pub next_receiver : List SidecarEvent → Receiver → Receiver
  next_receiver sent rx = (try_recv event_capacity sent rx).1

  pub next-nil :
      (before sent : List SidecarEvent) (rx : Receiver)
      → IsAt before [] sent rx
      → next_event sent rx ≡ empty
  next-nil before sent rx h =
      broadcast.try_recv-empty 6 sent rx
        (h.seen ∙ omega (arith, length-append before []) ∙ ap length (sym h.split))

  pub next-cons :
      (before after sent : List SidecarEvent) (e : SidecarEvent) (rx : Receiver)
      → IsAt before (e ∷ after) sent rx
      → length (e ∷ after) ≤ event_capacity
      → (next_event sent rx ≡ received e)
        × IsAt (before ++ e ∷ []) after sent (next_receiver sent rx)
  next-cons before after sent e rx h few =
      let (got, moved) = broadcast.try_recv-received 6 before after e rx h.seen few in
      (
        ap (λ l. next_event l rx) h.split ∙ got,
        record {
          split = h.split ∙ sym (append_assoc before (e ∷ []) after);
          seen =
              ap (λ l. position (next_receiver l rx)) h.split
              ∙ moved
              ∙ omega (arith, length-append before (e ∷ []));
        },
      )

  -- Where more is left than the channel keeps, the receiver goes on behind what is lost.
  pub next-lost :
      (before lost kept sent : List SidecarEvent) (rx : Receiver)
      → IsAt before (lost ++ kept) sent rx
      → lost ≢ []
      → length kept ≡ event_capacity
      → (next_event sent rx ≡ lagged (length sent - 64 - position rx))
        × IsAt (before ++ lost) kept sent (next_receiver sent rx)
  next-lost before [] kept sent rx h some_lost full = absurd (some_lost refl)
  next-lost before (l ∷ ls) kept sent rx h some_lost full =
      let total : length sent ≡ length before + (length (l ∷ ls) + 64) =
        ap length h.split
        ∙ length-append before ((l ∷ ls) ++ kept)
        ∙ ap (◌+◌ (length before))
            (length-append (l ∷ ls) kept ∙ ap (◌+◌ (length (l ∷ ls))) full) in
      let (missed, moved) = broadcast.try_recv-lagged 6 sent rx (omega (arith, total, h.seen)) in
      (
        missed,
        record {
          split = h.split ∙ sym (append_assoc before (l ∷ ls) kept);
          seen = moved ∙ omega (arith, total, length-append before (l ∷ ls));
        },
      )

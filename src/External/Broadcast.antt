-- ===== src/External/Broadcast.antt =====
-- tokio: the receiver of a broadcast channel. The channel keeps the last values, as many as its
-- capacity, here a power of two; a receiver gets those sent after its subscription in their order,
-- and where the next of them is no longer kept, it learns that it lags and goes on with the oldest
-- that is. `sent` is all that was sent so far.
use mesh_pad.Base.{ℕ, ◌+◌, ◌-◌, ◌^◌, ◌≤◌, ◌<◌, ◌≡◌, List, ◌∷◌, ◌++◌, length}
use mesh_pad.Events.{SidecarEvent}

-- What try_recv gives.
pub data Received : Type 0 where
  received : SidecarEvent → Received
  empty closed : Received
  lagged : ℕ → Received

pub record Broadcast : Type 1 where
  pub Receiver : Type 0
  pub subscribe : List SidecarEvent → Receiver
  pub try_recv : ℕ → List SidecarEvent → Receiver → Received × Receiver
  -- how many of the values sent stand before the next that the receiver gets
  pub position : Receiver → ℕ
  pub position-subscribe : (sent : List SidecarEvent) → position (subscribe sent) ≡ length sent
  pub try_recv-received :
      (k : ℕ) (before after : List SidecarEvent) (e : SidecarEvent) (r : Receiver)
      → position r ≡ length before
      → length (e ∷ after) ≤ 2 ^ k
      → ((try_recv (2 ^ k) (before ++ e ∷ after) r).0 ≡ received e)
        × (position (try_recv (2 ^ k) (before ++ e ∷ after) r).1 ≡ length before + 1)
  pub try_recv-empty :
      (k : ℕ) (sent : List SidecarEvent) (r : Receiver)
      → position r ≡ length sent
      → (try_recv (2 ^ k) sent r).0 ≡ empty
  pub try_recv-lagged :
      (k : ℕ) (sent : List SidecarEvent) (r : Receiver)
      → position r + 2 ^ k < length sent
      → ((try_recv (2 ^ k) sent r).0 ≡ lagged (length sent - 2 ^ k - position r))
        × (position (try_recv (2 ^ k) sent r).1 ≡ length sent - 2 ^ k)

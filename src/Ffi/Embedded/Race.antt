-- ===== src/Ffi/Embedded/Race.antt =====
-- The embedded server: an order of steps in which a start returns before EMBEDDED_PORT is stored.
use mesh_pad.Base.{ℕ, ◌≡◌, ◌≢◌, refl, true, false}
use mesh_pad.Ffi.Embedded.{
  slotted, free, looking, Embedded, at, embedded_port, start_returns, Step, start_again, start,
  found, bind, store_slot, Reach, here, next,
}

-- For each port other than 0 there is an order of the steps in which a start returns it and after
-- which the port that can be read is 0, and another start returns 0 although the server runs: the
-- thread stores the port for the caller first, and for the others only then.
pub start_race :
    (p : ℕ)
    → p ≢ 0
    → (s : Embedded) × (t : Embedded) × Reach s
      × Step s (start_returns p) t
      × (t.server ≡ true)
      × (embedded_port t ≡ 0)
      × Step t (start_returns 0) t
start_race p told = (
  at 0 p false false (slotted p) (looking 200),
  at 0 p true false (slotted p) free,
  next (next (next here start) (bind p)) store_slot,
  found told,
  refl,
  refl,
  start_again,
)

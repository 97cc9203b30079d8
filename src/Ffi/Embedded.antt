-- ===== src/Ffi/Embedded.antt =====
-- ffi.rs: the embedded server, as the steps of the thread that calls start and stop and of the
-- server's thread, in every order. A call holds the mutex EMBEDDED until it returns: the others wait.
pub mod Invariant
pub mod Race
pub mod Progress
use mesh_pad.Base.{ℕ, suc, ◌≢◌, Bool, true, false}
use mesh_pad.Ffi.{ℤ, pos}

-- The server's thread: not there, before `bind_listener`, with a port and then behind each of the two
-- `store`s of it, behind `serve`, and behind the `store` of 0.
pub data Thread : Type 0 where
  absent starting ended : Thread
  bound slotted serving closing : ℕ → Thread

-- The call that holds the mutex: none, the loop of start with the checks that are left, and the
-- `join` of a start that gave up and of a stop.
pub data Caller : Type 0 where
  free joining_start joining_stop : Caller
  looking : ℕ → Caller

-- `port` is EMBEDDED_PORT, `slot` is port_slot, `server` tells whether EMBEDDED has a server,
-- `shutdown` whether something was sent on its shutdown_tx.
pub record Embedded : Type 0 where
  pub port : ℕ
  pub slot : ℕ
  pub server : Bool
  pub shutdown : Bool
  pub thread : Thread
  pub caller : Caller

abbrev pub at : ℕ → ℕ → Bool → Bool → Thread → Caller → Embedded
at port slot server shutdown thread caller = record {
  port = port;
  slot = slot;
  server = server;
  shutdown = shutdown;
  thread = thread;
  caller = caller;
}

-- the process before its first call
abbrev pub initial : Embedded
initial = at 0 0 false false absent free

-- meshpad_ffi_embedded_port
abbrev pub embedded_port : Embedded → ℕ
embedded_port s = s.port

-- What a step returns to a client, if it ends a call.
pub data Label : Type 0 where
  internal : Label
  start_returns : ℕ → Label
  stop_returns : ℤ → Label

-- The first nine are meshpad_ffi_start_embedded and meshpad_ffi_stop_embedded, the others the
-- thread. `serve` returns once it was told to shut down; that its open connections end is taken for
-- granted.
pub data Step : Embedded → Label → Embedded → Type 0 where
  start_again :
      {port slot : ℕ} {shutdown : Bool} {thread : Thread}
      → Step
          (at port slot true shutdown thread free)
          (start_returns port)
          (at port slot true shutdown thread free)
  start :
      {port slot : ℕ} {shutdown : Bool} {thread : Thread}
      → Step
          (at port slot false shutdown thread free)
          internal
          (at port 0 false false starting (looking 200))
  found :
      {port slot n : ℕ} {server shutdown : Bool} {thread : Thread}
      → slot ≢ 0
      → Step
          (at port slot server shutdown thread (looking (suc n)))
          (start_returns slot)
          (at port slot true shutdown thread free)
  not_found :
      {port n : ℕ} {server shutdown : Bool} {thread : Thread}
      → Step
          (at port 0 server shutdown thread (looking (suc n)))
          internal
          (at port 0 server shutdown thread (looking n))
  give_up :
      {port slot : ℕ} {server shutdown : Bool} {thread : Thread}
      → Step
          (at port slot server shutdown thread (looking 0))
          internal
          (at port slot server true thread joining_start)
  start_joined :
      {port slot : ℕ} {server shutdown : Bool}
      → Step
          (at port slot server shutdown ended joining_start)
          (start_returns 0)
          (at port slot server shutdown absent free)
  stop_none :
      {port slot : ℕ} {shutdown : Bool} {thread : Thread}
      → Step
          (at port slot false shutdown thread free)
          (stop_returns (pos 0))
          (at 0 slot false shutdown thread free)
  stop :
      {port slot : ℕ} {shutdown : Bool} {thread : Thread}
      → Step
          (at port slot true shutdown thread free)
          internal
          (at port slot false true thread joining_stop)
  stop_joined :
      {port slot : ℕ} {server shutdown : Bool}
      → Step
          (at port slot server shutdown ended joining_stop)
          (stop_returns (pos 0))
          (at 0 slot server shutdown absent free)
  bind :
      {port slot : ℕ} {server shutdown : Bool} {caller : Caller} (p : ℕ)
      → Step
          (at port slot server shutdown starting caller)
          internal
          (at port slot server shutdown (bound p) caller)
  bind_failed :
      {port slot : ℕ} {server shutdown : Bool} {caller : Caller}
      → Step
          (at port slot server shutdown starting caller)
          internal
          (at port slot server shutdown ended caller)
  store_slot :
      {port slot p : ℕ} {server shutdown : Bool} {caller : Caller}
      → Step
          (at port slot server shutdown (bound p) caller)
          internal
          (at port p server shutdown (slotted p) caller)
  store_port :
      {port slot p : ℕ} {server shutdown : Bool} {caller : Caller}
      → Step
          (at port slot server shutdown (slotted p) caller)
          internal
          (at p slot server shutdown (serving p) caller)
  shut_down :
      {port slot p : ℕ} {server : Bool} {caller : Caller}
      → Step
          (at port slot server true (serving p) caller)
          internal
          (at port slot server true (closing p) caller)
  clear_port :
      {port slot p : ℕ} {server shutdown : Bool} {caller : Caller}
      → Step
          (at port slot server shutdown (closing p) caller)
          internal
          (at 0 slot server shutdown ended caller)

-- What the steps reach from the first call on.
pub data Reach : Embedded → Type 0 where
  here : Reach initial
  next : {s t : Embedded} {l : Label} → Reach s → Step s l t → Reach t

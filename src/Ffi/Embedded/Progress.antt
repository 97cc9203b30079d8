-- ===== src/Ffi/Embedded/Progress.antt =====
-- The embedded server: every call of start and of stop returns, in whatever order the steps come.
use mesh_pad.Base.{ℕ, zero, suc, ◌+◌, ◌<◌, ◌≡◌, ◌⊎◌, inl, inr, Bool, true, false, arith}
use mesh_pad.Ffi.Embedded.{
  Thread, absent, starting, ended, bound, slotted, serving, closing, Caller, free, joining_start,
  joining_stop, looking, Embedded, at, Label, internal, Step, start_again, start, found, not_found,
  give_up, start_joined, stop_none, stop, stop_joined, bind, bind_failed, store_slot, store_port,
  shut_down, clear_port, Reach, next,
}
use mesh_pad.Ffi.Embedded.Invariant.{IsTracked, IsAbsent, Reach-IsTracked}

abbrev pub IsReturn : Label → Type 0
IsReturn internal = ⊥
IsReturn _ = Unit

-- A call is in progress.
abbrev pub IsBusy : Caller → Type 0
IsBusy free = ⊥
IsBusy _ = Unit

-- A step is possible, and each that is ends the call or leads to a state of the same kind: whatever
-- steps are taken, the call ends after finitely many of them.
pub data IsEnding : Embedded → Type 0 where
  ends :
      {s : Embedded}
      → (l : Label) × (t : Embedded) × Step s l t
      → ((l : Label) (t : Embedded) → Step s l t → ¬ IsReturn l → IsEnding t)
      → IsEnding s

-- The steps that are left to the thread and to the caller.
abbrev rank : Thread → ℕ
rank absent = 0
rank ended = 0
rank (closing p) = 1
rank (serving p) = 2
rank (slotted p) = 3
rank (bound p) = 4
rank starting = 5

abbrev checks : Caller → ℕ
checks free = 0
checks joining_start = 1
checks joining_stop = 1
checks (looking n) = n + 2

abbrev measure : Embedded → ℕ
measure s = rank s.thread + checks s.caller

Step-measure :
    {s t : Embedded} {l : Label}
    → Step s l t
    → IsBusy s.caller
    → IsReturn l ⊎ (IsBusy t.caller × (measure t < measure s))
Step-measure start_again busy = absurd busy
Step-measure start busy = absurd busy
Step-measure (found told) busy = inl tt
Step-measure not_found busy = inr (tt, omega arith)
Step-measure give_up busy = inr (tt, omega arith)
Step-measure start_joined busy = inl tt
Step-measure stop_none busy = absurd busy
Step-measure stop busy = absurd busy
Step-measure stop_joined busy = inl tt
Step-measure (bind p) busy = inr (busy, omega arith)
Step-measure bind_failed busy = inr (busy, omega arith)
Step-measure store_slot busy = inr (busy, omega arith)
Step-measure store_port busy = inr (busy, omega arith)
Step-measure shut_down busy = inr (busy, omega arith)
Step-measure clear_port busy = inr (busy, omega arith)

abbrev IsEnabled : Embedded → Type 0
IsEnabled s = (l : Label) × (t : Embedded) × Step s l t

-- A thread that is there and was told to shut down goes on until it ends.
thread-IsEnabled :
    (port slot : ℕ) (server shutdown : Bool) (thread : Thread) (caller : Caller)
    → ¬ IsAbsent thread
    → shutdown ≡ true
    → IsEnabled (at port slot server shutdown ended caller)
    → IsEnabled (at port slot server shutdown thread caller)
thread-IsEnabled port slot server shutdown absent caller there told joins = absurd (there tt)
thread-IsEnabled port slot server shutdown starting caller there told joins = (_, _, bind_failed)
thread-IsEnabled port slot server shutdown ended caller there told joins = joins
thread-IsEnabled port slot server shutdown (bound p) caller there told joins = (_, _, store_slot)
thread-IsEnabled port slot server shutdown (slotted p) caller there told joins = (_, _, store_port)
thread-IsEnabled port slot server true (serving p) caller there told joins = (_, _, shut_down)
thread-IsEnabled port slot server false (serving p) caller there told joins = cc
thread-IsEnabled port slot server shutdown (closing p) caller there told joins = (_, _, clear_port)

busy-IsEnabled :
    (port slot : ℕ) (server shutdown : Bool) (thread : Thread) (caller : Caller)
    → IsTracked (at port slot server shutdown thread caller)
    → IsBusy caller
    → IsEnabled (at port slot server shutdown thread caller)
busy-IsEnabled port slot server shutdown thread free h busy = absurd busy
busy-IsEnabled port slot server shutdown thread (looking zero) h busy = (_, _, give_up)
busy-IsEnabled port zero server shutdown thread (looking (suc n)) h busy = (_, _, not_found)
busy-IsEnabled port (suc slot) server shutdown thread (looking (suc n)) h busy =
    (_, _, found (λ e. cc))
busy-IsEnabled port slot server shutdown thread joining_start h busy =
    thread-IsEnabled port slot server shutdown thread joining_start h.holds.0 h.holds.1.0
      (_, _, start_joined)
busy-IsEnabled port slot server shutdown thread joining_stop h busy =
    thread-IsEnabled port slot server shutdown thread joining_stop h.holds.0 h.holds.1.0
      (_, _, stop_joined)

IsEnding-below : (n : ℕ) (s : Embedded) → Reach s → IsBusy s.caller → measure s < n → IsEnding s
IsEnding-below zero s r busy less = absurd (omega (arith, less))
IsEnding-below (suc n) s r busy less =
    ends
      (busy-IsEnabled s.port s.slot s.server s.shutdown s.thread s.caller (Reach-IsTracked r) busy)
      (λ l t step goes_on. elim (Step-measure step busy) [
        | inl returns ↦ absurd (goes_on returns)
        | inr (busy', smaller) ↦
            IsEnding-below n t (next r step) busy' (omega (arith, less, smaller))
      ])

-- A start or a stop that has begun returns, in every order of the steps of the callers and of the
-- server's thread, where `bind_listener` ends and `serve` returns once it was told to shut down: as
-- long as the call has not returned, some step is possible, and no run of steps goes on without its
-- return.
pub Reach-IsEnding : (s : Embedded) → Reach s → IsBusy s.caller → IsEnding s
Reach-IsEnding s r busy = IsEnding-below (suc (measure s)) s r busy (omega arith)

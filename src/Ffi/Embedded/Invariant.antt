-- ===== src/Ffi/Embedded/Invariant.antt =====
-- The embedded server in every order of steps: what the port is while a server runs and while none
-- does.
use mesh_pad.Base.{ℕ, ◌≡◌, ◌≢◌, refl, sym, subst, ◌∙◌, ◌⊎◌, inl, inr, Bool, true, false}
use mesh_pad.Ffi.{pos}
use mesh_pad.Ffi.Embedded.{
  Thread, absent, starting, ended, bound, slotted, serving, closing, Caller, free, joining_start,
  joining_stop, looking, Embedded, embedded_port, Label, internal, start_returns, stop_returns,
  Step, start_again, start, found, not_found, give_up, start_joined, stop_none, stop, stop_joined,
  bind, bind_failed, store_slot, store_port, shut_down, clear_port, Reach, here, next,
}

-- EMBEDDED_PORT, port_slot and what was sent on shutdown_tx, by where the thread is.
abbrev pub HasStored : Thread → Bool → ℕ → ℕ → Type 0
HasStored absent shutdown slot port = port ≡ 0
HasStored starting shutdown slot port = (slot ≡ 0) × (port ≡ 0)
HasStored ended shutdown slot port = (shutdown ≡ false → slot ≡ 0) × (port ≡ 0)
HasStored (bound p) shutdown slot port = (slot ≡ 0) × (port ≡ 0)
HasStored (slotted p) shutdown slot port = (slot ≡ p) × (port ≡ 0)
HasStored (serving p) shutdown slot port = (slot ≡ p) × (port ≡ p)
HasStored (closing p) shutdown slot port = (slot ≡ p) × ((port ≡ p) × (shutdown ≡ true))

abbrev pub IsAbsent : Thread → Type 0
IsAbsent absent = Unit
IsAbsent _ = ⊥

-- The thread has told its port and has not ended.
abbrev pub IsRunning : Thread → Type 0
IsRunning (slotted p) = Unit
IsRunning (serving p) = Unit
IsRunning _ = ⊥

abbrev pub Holds : Caller → Bool → Bool → Thread → Type 0
Holds free false shutdown thread = IsAbsent thread
Holds free true shutdown thread = IsRunning thread × (shutdown ≡ false)
Holds (looking n) server shutdown thread =
    (¬ IsAbsent thread) × ((shutdown ≡ false) × (server ≡ false))
Holds joining_start server shutdown thread =
    (¬ IsAbsent thread) × ((shutdown ≡ true) × (server ≡ false))
Holds joining_stop server shutdown thread =
    (¬ IsAbsent thread) × ((shutdown ≡ true) × (server ≡ false))

-- Between calls a server is in EMBEDDED exactly while its thread runs, and no thread is left behind;
-- EMBEDDED_PORT is the port of the thread, or 0 before it was stored and after the end.
pub record IsTracked (s : Embedded) : Type 0 where
  pub stored : HasStored s.thread s.shutdown s.slot s.port
  pub holds : Holds s.caller s.server s.shutdown s.thread

-- A step of the thread is seen by the caller only as its end.
advance :
    (caller : Caller) (server shutdown : Bool) (t t' : Thread)
    → ¬ IsAbsent t
    → ¬ IsAbsent t'
    → (shutdown ≡ false → IsRunning t → IsRunning t')
    → Holds caller server shutdown t
    → Holds caller server shutdown t'
advance free false shutdown t t' there there' runs h = absurd (there h)
advance free true shutdown t t' there there' runs h = (runs h.1 h.0, h.1)
advance (looking n) server shutdown t t' there there' runs h = (there', h.1)
advance joining_start server shutdown t t' there there' runs h = (there', h.1)
advance joining_stop server shutdown t t' there there' runs h = (there', h.1)

found-IsRunning :
    (t : Thread) (slot port : ℕ)
    → slot ≢ 0
    → ¬ IsAbsent t
    → HasStored t false slot port
    → IsRunning t
found-IsRunning absent slot port told there h = absurd (there tt)
found-IsRunning starting slot port told there h = absurd (told h.0)
found-IsRunning ended slot port told there h = absurd (told (h.0 refl))
found-IsRunning (bound p) slot port told there h = absurd (told h.0)
found-IsRunning (slotted p) slot port told there h = tt
found-IsRunning (serving p) slot port told there h = tt
found-IsRunning (closing p) slot port told there h = cc

told-HasStored :
    (t : Thread) (shutdown : Bool) (slot port : ℕ)
    → HasStored t shutdown slot port
    → HasStored t true slot port
told-HasStored absent shutdown slot port h = h
told-HasStored starting shutdown slot port h = h
told-HasStored ended shutdown slot port h = (λ e. cc, h.1)
told-HasStored (bound p) shutdown slot port h = h
told-HasStored (slotted p) shutdown slot port h = h
told-HasStored (serving p) shutdown slot port h = h
told-HasStored (closing p) shutdown slot port h = (h.0, (h.1.0, refl))

-- Without a thread the port is 0, whatever is stored elsewhere.
absent_port :
    (t : Thread) (shutdown : Bool) (slot port : ℕ)
    → IsAbsent t
    → HasStored t shutdown slot port
    → port ≡ 0
absent_port absent shutdown slot port gone h = h
absent_port starting shutdown slot port gone h = absurd gone
absent_port ended shutdown slot port gone h = absurd gone
absent_port (bound p) shutdown slot port gone h = absurd gone
absent_port (slotted p) shutdown slot port gone h = absurd gone
absent_port (serving p) shutdown slot port gone h = absurd gone
absent_port (closing p) shutdown slot port gone h = absurd gone

absent_stored : (t : Thread) (shutdown : Bool) (slot : ℕ) → IsAbsent t → HasStored t shutdown slot 0
absent_stored absent shutdown slot gone = refl
absent_stored starting shutdown slot gone = absurd gone
absent_stored ended shutdown slot gone = absurd gone
absent_stored (bound p) shutdown slot gone = absurd gone
absent_stored (slotted p) shutdown slot gone = absurd gone
absent_stored (serving p) shutdown slot gone = absurd gone
absent_stored (closing p) shutdown slot gone = absurd gone

IsRunning-there : (t : Thread) → IsRunning t → ¬ IsAbsent t
IsRunning-there absent runs = absurd runs
IsRunning-there starting runs = λ gone. gone
IsRunning-there ended runs = λ gone. gone
IsRunning-there (bound p) runs = λ gone. gone
IsRunning-there (slotted p) runs = λ gone. gone
IsRunning-there (serving p) runs = λ gone. gone
IsRunning-there (closing p) runs = λ gone. gone

Step-IsTracked : {s t : Embedded} {l : Label} → Step s l t → IsTracked s → IsTracked t
Step-IsTracked start_again h = h
Step-IsTracked (start {port} {slot} {shutdown} {thread}) h = record {
  stored = (refl, absent_port thread shutdown slot port h.holds h.stored);
  holds = (λ gone. gone, (refl, refl));
}
Step-IsTracked (found {port} {slot} {n} {server} {shutdown} {thread} told) h = record {
  stored = h.stored;
  holds = (
    found-IsRunning thread slot port told h.holds.0
        (subst (λ b. HasStored thread b slot port) h.holds.1.0 h.stored),
    h.holds.1.0,
  );
}
Step-IsTracked not_found h = record { stored = h.stored; holds = h.holds }
Step-IsTracked (give_up {port} {slot} {server} {shutdown} {thread}) h = record {
  stored = told-HasStored thread shutdown slot port h.stored;
  holds = (h.holds.0, (refl, h.holds.1.1));
}
Step-IsTracked (start_joined {port} {slot} {server} {shutdown}) h = record {
  stored = h.stored.1;
  holds = subst (λ b. Holds free b shutdown absent) (sym h.holds.1.1) tt;
}
Step-IsTracked (stop_none {port} {slot} {shutdown} {thread}) h = record {
  stored = absent_stored thread shutdown slot h.holds;
  holds = h.holds;
}
Step-IsTracked (stop {port} {slot} {shutdown} {thread}) h = record {
  stored = told-HasStored thread shutdown slot port h.stored;
  holds = (IsRunning-there thread h.holds.0, (refl, refl));
}
Step-IsTracked (stop_joined {port} {slot} {server} {shutdown}) h = record {
  stored = refl;
  holds = subst (λ b. Holds free b shutdown absent) (sym h.holds.1.1) tt;
}
Step-IsTracked (bind {port} {slot} {server} {shutdown} {caller} p) h = record {
  stored = h.stored;
  holds = advance caller server shutdown starting (bound p) (λ e. e) (λ e. e) (λ e r. r) h.holds;
}
Step-IsTracked (bind_failed {port} {slot} {server} {shutdown} {caller}) h = record {
  stored = (λ e. h.stored.0, h.stored.1);
  holds = advance caller server shutdown starting ended (λ e. e) (λ e. e) (λ e r. r) h.holds;
}
Step-IsTracked (store_slot {port} {slot} {p} {server} {shutdown} {caller}) h = record {
  stored = (refl, h.stored.1);
  holds =
      advance caller server shutdown (bound p) (slotted p) (λ e. e) (λ e. e) (λ e r. tt) h.holds;
}
Step-IsTracked (store_port {port} {slot} {p} {server} {shutdown} {caller}) h = record {
  stored = (h.stored.0, refl);
  holds =
      advance caller server shutdown (slotted p) (serving p) (λ e. e) (λ e. e) (λ e r. tt) h.holds;
}
Step-IsTracked (shut_down {port} {slot} {p} {server} {caller}) h = record {
  stored = (h.stored.0, (h.stored.1, refl));
  holds = advance caller server true (serving p) (closing p) (λ e. e) (λ e. e) (λ e r. cc) h.holds;
}
Step-IsTracked (clear_port {port} {slot} {p} {server} {shutdown} {caller}) h = record {
  stored = (λ e. cc, refl);
  holds = advance caller server shutdown (closing p) ended (λ e. e) (λ e. e) (λ e r. r) h.holds;
}

pub Reach-IsTracked : {s : Embedded} → Reach s → IsTracked s
Reach-IsTracked here = record { stored = refl; holds = tt }
Reach-IsTracked (next r step) = Step-IsTracked step (Reach-IsTracked r)

running_port :
    (t : Thread) (shutdown : Bool) (slot port : ℕ)
    → IsRunning t
    → HasStored t shutdown slot port
    → (port ≡ slot) ⊎ (port ≡ 0)
running_port absent shutdown slot port runs h = absurd runs
running_port starting shutdown slot port runs h = absurd runs
running_port ended shutdown slot port runs h = absurd runs
running_port (bound p) shutdown slot port runs h = absurd runs
running_port (slotted p) shutdown slot port runs h = inr h.1
running_port (serving p) shutdown slot port runs h = inl (h.1 ∙ sym h.0)
running_port (closing p) shutdown slot port runs h = absurd runs

-- What holds when a call returns.
abbrev pub Reports : Label → Embedded → Type 0
Reports internal t = Unit
Reports (start_returns p) t =
    ((p ≡ 0) ⊎ ((t.server ≡ true) × IsRunning t.thread))
    × ((embedded_port t ≡ p) ⊎ (embedded_port t ≡ 0))
Reports (stop_returns code) t =
    (code ≡ pos 0) × ((embedded_port t ≡ 0) × ((t.server ≡ false) × IsAbsent t.thread))

-- In every order of the steps of the callers and of the server's thread: where a start returns a
-- port other than 0, the server is kept and its thread runs, and the port that can be read is that
-- port, or 0; a stop returns 0, and then no server is kept, no thread is left and the port that can be
-- read is 0.
pub Step-Reports : (s t : Embedded) (l : Label) → Reach s → Step s l t → Reports l t
Step-Reports s t l r step = by_step step (Reach-IsTracked r) (Reach-IsTracked (next r step))
  where
    by_step : {s t : Embedded} {l : Label} → Step s l t → IsTracked s → IsTracked t → Reports l t
    by_step start_again h h' = (inr (refl, h'.holds.0), inl refl)
    by_step start h h' = tt
    by_step (found {port} {slot} {n} {server} {shutdown} {thread} told) h h' =
        (inr (refl, h'.holds.0), running_port thread shutdown slot port h'.holds.0 h'.stored)
    by_step not_found h h' = tt
    by_step give_up h h' = tt
    by_step start_joined h h' = (inl refl, inr h.stored.1)
    by_step stop_none h h' = (refl, (refl, (refl, h'.holds)))
    by_step stop h h' = tt
    by_step stop_joined h h' = (refl, (refl, (h.holds.1.1, tt)))
    by_step (bind p) h h' = tt
    by_step bind_failed h h' = tt
    by_step store_slot h h' = tt
    by_step store_port h h' = tt
    by_step shut_down h h' = tt
    by_step clear_port h h' = tt

-- ===== src/Base/Results.antt =====
-- Rust's `Result`.
use mathlib.Core.Option.{Option, none, some}

pub data Result {ℓ} (A E : Type ℓ) : Type ℓ where
  ok : A → Result A E
  err : E → Result A E

module _ {ℓ} {A E : Type ℓ} where
  -- Option::ok_or_else
  abbrev pub ok_or_else : Option A → E → Result A E
  ok_or_else none e = err e
  ok_or_else (some a) e = ok a

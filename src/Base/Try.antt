-- ===== src/Base/Try.antt =====
-- Rust's `?` on a `Result`.
use mesh_pad.Base.Results.{Result, ok, err}

infixl 5 ◌>>=◌
abbrev pub ◌>>=◌ {ℓ} : {A B E : Type ℓ} → Result A E → (A → Result B E) → Result B E
ok a >>= f = f a
err e >>= f = err e

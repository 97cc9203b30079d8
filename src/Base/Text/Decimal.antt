-- ===== src/Base/Text/Decimal.antt =====
-- The decimal text of a number, as `format!` prints it.
use Prim.Native.Nat.{ℕ, zero, suc, ◌/◌, ◌%◌}
use Prim.Native.String.{String}
use Prim.Native.Nat.{◌<◌}
use mathlib.Core.Path.{◌≡◌, refl, sym, ◌∙◌}
use mathlib.Core.Logic.{inl, inr}
use native.Mathlib.Omega.{arith}
use text.Mathlib.TextLemmas.{nil-append, append-nil, append_assoc}
use mesh_pad.Base.Tests.{ltb, if◌then◌else◌, Bool-cases}
use mesh_pad.Base.Text.{concat}

abbrev pub digit : ℕ → String
digit zero = "0"
digit (suc zero) = "1"
digit (suc (suc zero)) = "2"
digit (suc (suc (suc zero))) = "3"
digit (suc (suc (suc (suc zero)))) = "4"
digit (suc (suc (suc (suc (suc zero))))) = "5"
digit (suc (suc (suc (suc (suc (suc zero)))))) = "6"
digit (suc (suc (suc (suc (suc (suc (suc zero))))))) = "7"
digit (suc (suc (suc (suc (suc (suc (suc (suc zero)))))))) = "8"
digit _ = "9"

decimal_loop : ℕ → ℕ → String → String
decimal_loop zero n rest = rest
decimal_loop (suc fuel) n rest =
    let more = decimal_loop fuel (n / 10) (concat (digit (n % 10)) rest) in
    if ltb n 10 then concat (digit n) rest else more

-- Each round divides by ten, so as many rounds as the number has units, and one, are enough.
unfoldable pub decimal : ℕ → String
unfolding decimal_loop
decimal n = decimal_loop (suc n) n ""

-- All fuel above the number gives the same text.
decimal_loop-enough :
    (f g n : ℕ) (rest : String) → n < f → n < g → decimal_loop f n rest ≡ decimal_loop g n rest
unfolding decimal_loop
decimal_loop-enough zero g n rest h k = absurd (omega (arith, h))
decimal_loop-enough (suc f) zero n rest h k = absurd (omega (arith, k))
decimal_loop-enough (suc f) (suc g) n rest h k = elim (Bool-cases (ltb n 10)) [
  | inl small ↦ rw small refl
  | inr large ↦ rw large (
      decimal_loop-enough f g (n / 10) (concat (digit (n % 10)) rest) (ground arith) (ground arith))
]

-- The text of what comes after is appended.
decimal_loop-append :
    (f n : ℕ) (rest : String) → decimal_loop f n rest ≡ concat (decimal_loop f n "") rest
unfolding decimal_loop
decimal_loop-append zero n rest = sym (nil-append rest)
decimal_loop-append (suc f) n rest = elim (Bool-cases (ltb n 10)) [
  | inl small ↦ rw small (rw append-nil refl)
  | inr large ↦ rw large (
      decimal_loop-append f (n / 10) (concat (digit (n % 10)) rest)
      ∙ rw (decimal_loop-append f (n / 10) (concat (digit (n % 10)) ""))
          (rw append-nil (sym (append_assoc _ (digit (n % 10)) rest))))
]

-- The decimal text of a number is its digit, if it has one, and else the decimal text of its tenth
-- and its last digit.
pub decimal_digits :
    (n : ℕ) → decimal n ≡ (if ltb n 10 then digit n else concat (decimal (n / 10)) (digit (n % 10)))
unfolding decimal decimal_loop
decimal_digits n = elim (Bool-cases (ltb n 10)) [
  | inl small ↦ rw small (append-nil (digit n))
  | inr large ↦ rw large (
      decimal_loop-append n (n / 10) (concat (digit (n % 10)) "")
      ∙ rw (decimal_loop-enough n (suc (n / 10)) (n / 10) "" (ground arith) (ground arith))
          (rw (append-nil (digit (n % 10))) refl))
]

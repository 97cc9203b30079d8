-- ===== src/Base/Text/Unsigned.antt =====
-- `parse::<u16>` of a text, and that it reads back what `format!` prints.
use Prim.Native.Nat.{ℕ, zero, suc, ◌+◌, ◌-◌, ◌*◌, ◌/◌, ◌%◌, ◌<◌}
use Prim.Native.Char.{code}
use Prim.Native.String.{String}
use mathlib.Core.Path.{◌≡◌, refl, ap, ◌∙◌}
use mathlib.Core.Logic.{inl, inr}
use mathlib.Core.Bool.{false, ◌&&◌}
use mathlib.Core.Option.{Option, none, some}
use native.Mathlib.Omega.{arith}
use text.Mathlib.TextLemmas.{nil-append, cons-append}
use mesh_pad.Base.Tests.{nat_beq, leb, ltb, if◌then◌else◌, Bool-cases}
use mesh_pad.Base.Text.Decimal.{digit, decimal, decimal_digits}
use mesh_pad.Base.Text.{concat}

abbrev pub u16_max : ℕ
u16_max = 65535

-- The digits behind the number `n`; another character or a number above the bound is an error.
unfoldable pub digits_value : String → ℕ → Option ℕ
digits_value String.[] n = some n
digits_value (String.◌∷◌ c s) n =
    let m = n * 10 + (code c - b'0') in
    let rest = digits_value s m in
    if leb b'0' (code c) && leb (code c) b'9' && leb m u16_max then rest else none

abbrev unsigned : String → Option ℕ
unsigned String.[] = none
unsigned (String.◌∷◌ c s) = digits_value (String.◌∷◌ c s) 0

-- str::parse::<u16>; a plus sign may stand before the digits.
unfoldable pub parse_u16 : String → Option ℕ
unfolding digits_value
parse_u16 String.[] = none
parse_u16 (String.◌∷◌ c s) =
    if nat_beq (code c) b'+' then unsigned s else digits_value (String.◌∷◌ c s) 0

digits_value-lt : (s : String) (n r : ℕ) → n < 65536 → digits_value s n ≡ some r → r < 65536
unfolding digits_value
digits_value-lt String.[] n r h e = ground arith
digits_value-lt (String.◌∷◌ c s) n r h e =
    ground (arith, digits_value-lt s (n * 10 + (code c - b'0')) r)

unsigned-lt : (s : String) (r : ℕ) → unsigned s ≡ some r → r < 65536
unsigned-lt String.[] r e = cc
unsigned-lt (String.◌∷◌ c s) r e = digits_value-lt (String.◌∷◌ c s) 0 r (omega arith) e

pub parse_u16-lt : (s : String) (r : ℕ) → parse_u16 s ≡ some r → r < 65536
unfolding parse_u16
parse_u16-lt String.[] r e = cc
parse_u16-lt (String.◌∷◌ c s) r e = elim (Bool-cases (nat_beq (code c) b'+')) [
  | inl plus ↦ unsigned-lt s r (rw plus at e)
  | inr digits ↦ digits_value-lt (String.◌∷◌ c s) 0 r (omega arith) (rw digits at e)
]

-- A text that is not empty and does not begin with a plus sign.
abbrev StartsPlain : String → Type 0
StartsPlain String.[] = ⊥
StartsPlain (String.◌∷◌ c s) = nat_beq (code c) b'+' ≡ false

StartsPlain-concat : (s t : String) → StartsPlain s → StartsPlain (concat s t)
StartsPlain-concat String.[] t h = absurd h
StartsPlain-concat (String.◌∷◌ c s) t h = rw cons-append h

parse_u16-plain : (s : String) → StartsPlain s → parse_u16 s ≡ digits_value s 0
unfolding parse_u16
parse_u16-plain String.[] h = absurd h
parse_u16-plain (String.◌∷◌ c s) h = rw h refl

digit-StartsPlain : (n : ℕ) → StartsPlain (digit n)
digit-StartsPlain zero = refl
digit-StartsPlain (suc zero) = refl
digit-StartsPlain (suc (suc zero)) = refl
digit-StartsPlain (suc (suc (suc zero))) = refl
digit-StartsPlain (suc (suc (suc (suc zero)))) = refl
digit-StartsPlain (suc (suc (suc (suc (suc zero))))) = refl
digit-StartsPlain (suc (suc (suc (suc (suc (suc zero)))))) = refl
digit-StartsPlain (suc (suc (suc (suc (suc (suc (suc zero))))))) = refl
digit-StartsPlain (suc (suc (suc (suc (suc (suc (suc (suc zero)))))))) = refl
digit-StartsPlain (suc (suc (suc (suc (suc (suc (suc (suc (suc n))))))))) = refl

digits_value-digit :
    (d n : ℕ) → d < 10 → n * 10 + d < 65536 → digits_value (digit d) n ≡ some (n * 10 + d)
unfolding digits_value
digits_value-digit zero n h k = ground arith
digits_value-digit (suc zero) n h k = ground arith
digits_value-digit (suc (suc zero)) n h k = ground arith
digits_value-digit (suc (suc (suc zero))) n h k = ground arith
digits_value-digit (suc (suc (suc (suc zero)))) n h k = ground arith
digits_value-digit (suc (suc (suc (suc (suc zero))))) n h k = ground arith
digits_value-digit (suc (suc (suc (suc (suc (suc zero)))))) n h k = ground arith
digits_value-digit (suc (suc (suc (suc (suc (suc (suc zero))))))) n h k = ground arith
digits_value-digit (suc (suc (suc (suc (suc (suc (suc (suc zero)))))))) n h k = ground arith
digits_value-digit (suc (suc (suc (suc (suc (suc (suc (suc (suc zero))))))))) n h k = ground arith
digits_value-digit (suc (suc (suc (suc (suc (suc (suc (suc (suc (suc d)))))))))) n h k =
    absurd (omega arith)

digits_value-concat :
    (s t : String) (n m : ℕ)
    → digits_value s n ≡ some m
    → digits_value (concat s t) n ≡ digits_value t m
unfolding digits_value
digits_value-concat String.[] t n m h = rw nil-append (ground arith)
digits_value-concat (String.◌∷◌ c s) t n m h =
    rw cons-append (ground (arith, digits_value-concat s t (n * 10 + (code c - b'0')) m))

-- Both facts, by strong induction on the number.
abbrev Reads : ℕ → Type 0
Reads n = StartsPlain (decimal n) × (digits_value (decimal n) 0 ≡ some n)

decimal-Reads : (k n : ℕ) → n < k → n < 65536 → Reads n
decimal-Reads zero n h f = absurd (omega arith)
decimal-Reads (suc k) n h f = elim (Bool-cases (ltb n 10)) [
  | inl small ↦ rw (decimal_digits n) (
      rw small (
        digit-StartsPlain n,
        digits_value-digit n 0 (ground arith) (omega arith) ∙ ap some (omega arith),
      ))
  | inr large ↦
      let (plain, tenth) = decimal-Reads k (n / 10) (ground arith) (omega arith) in
      rw (decimal_digits n) (
        rw large (
          StartsPlain-concat (decimal (n / 10)) (digit (n % 10)) plain,
          digits_value-concat (decimal (n / 10)) (digit (n % 10)) 0 (n / 10) tenth
              ∙ digits_value-digit (n % 10) (n / 10) (omega arith) (omega arith)
              ∙ ap some (omega arith),
        ))
]

-- A number below 2^16 is read back from its decimal text.
pub parse_u16-decimal : (n : ℕ) → n < 65536 → parse_u16 (decimal n) ≡ some n
parse_u16-decimal n f =
    let (plain, value) = decimal-Reads (suc n) n (omega arith) f in
    parse_u16-plain (decimal n) plain ∙ value

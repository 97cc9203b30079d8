-- ===== src/Base/Tests.antt =====
-- Boolean tests, the interface of key equality, and arithmetic on u32.
use Prim.Native.Nat.{ℕ, ◌+◌, ◌%◌, ◌^◌, ◌<◌, compare, Ordering}
use Prim.Native.String.{String}
use mathlib.Core.Path.{◌≡◌, refl}
use mathlib.Core.Logic.{◌↔◌, ◌⊎◌, inl, inr, ◌≢◌}
use mathlib.Core.Bool.{Bool, true, false}
use mathlib.Core.Option.{Option, none, some}
use native.Mathlib.Omega.{arith}
use text.Mathlib.Text.{◌==◌ as str_eq}
use text.Mathlib.TextEquality.{eq_iff}

abbrev pub ltb : ℕ → ℕ → Bool
ltb a b = elim (compare a b) [ Ordering.lt ↦ true | _ ↦ false ]

abbrev pub leb : ℕ → ℕ → Bool
leb a b = elim (compare a b) [ Ordering.gt ↦ false | _ ↦ true ]

abbrev pub nat_beq : ℕ → ℕ → Bool
nat_beq a b = elim (compare a b) [ Ordering.eq ↦ true | _ ↦ false ]

infix 1 if◌then◌else◌
abbrev pub if◌then◌else◌ {ℓ} : {A : Type ℓ} → Bool → A → A → A
if true then x else y = x
if false then x else y = y

pub nat_beq_iff : (a b : ℕ) → (nat_beq a b ≡ true) ↔ (a ≡ b)
nat_beq_iff a b = ground arith

-- To split on a computed value and keep the equation.
pub Bool-cases : (b : Bool) → (b ≡ true) ⊎ (b ≡ false)
Bool-cases true = inl refl
Bool-cases false = inr refl

pub Option-cases {ℓ} : {A : Type ℓ} (o : Option A) → (o ≡ none) ⊎ ((a : A) × (o ≡ some a))
Option-cases none = inl refl
Option-cases (some a) = inr (a, refl)

-- What the source asks of the keys of its maps and sets: a test of equality.
pub record HashKey {ℓ} (K : Type ℓ) : Type ℓ where
  pub same : K → K → Bool
  pub same_iff : (x y : K) → (same x y ≡ true) ↔ (x ≡ y)

instance abbrev pub string_key : HashKey String
string_key = record { same_iff = eq_iff; same = str_eq }

instance abbrev pub nat_key : HashKey ℕ
nat_key = record { same_iff = nat_beq_iff; same = nat_beq }

infix 50 ◌==◌
abbrev pub ◌==◌ {ℓ} : {K : Type ℓ} → ⦃key : HashKey K⦄ → K → K → Bool
◌==◌ ⦃key⦄ x y = key.same x y

pub same_self {ℓ} : {A : Type ℓ} ⦃e : HashKey A⦄ (a : A) → e.same a a ≡ true
same_self ⦃e⦄ a = (e.same_iff a a).1 refl

pub same_ne {ℓ} : {A : Type ℓ} ⦃e : HashKey A⦄ (a b : A) → a ≢ b → e.same a b ≡ false
same_ne ⦃e⦄ a b h = elim (Bool-cases (e.same a b)) [
  | inl same ↦ absurd (h ((e.same_iff a b).0 same))
  | inr other ↦ other
]

-- `u32` addition as a release build does it.
abbrev pub u32_mod : ℕ
u32_mod = 2 ^ 32

unfoldable pub add_u32 : ℕ → ℕ → ℕ
add_u32 a b = (a + b) % u32_mod

pub add_u32-eq : (a b : ℕ) → a + b < u32_mod → add_u32 a b ≡ a + b
unfolding add_u32
add_u32-eq a b h = omega arith

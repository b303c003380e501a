-- ===== src/Uint.antt =====
-- The `U256` arithmetic that the code calls (the `ruint` crate, not part of this repository): an
-- interface of the operations with the documented result of each, and an implementation of it.
-- A `U256` is the natural number that it stands for.
use dogeos_revm.Prelude.{
  ℕ, ◌+◌, ◌-◌, ◌*◌, ◌/◌, ◌^◌, ◌≤◌, ◌<◌, ◌≡◌, ◌≢◌, refl, min, Option, none, some, leb, if◌then◌else◌,
  arith,
}
pub mod Laws

-- `U256::MAX`
abbrev pub u256_max : ℕ
u256_max = 2 ^ 256 - 1

pub record UintOps : Type 0 where
  pub saturating_add : ℕ → ℕ → ℕ
  pub saturating_mul : ℕ → ℕ → ℕ
  pub wrapping_div : ℕ → ℕ → ℕ
  pub checked_add : ℕ → ℕ → Option ℕ
  pub checked_sub : ℕ → ℕ → Option ℕ
  pub saturating_add_eq : (a b : ℕ) → saturating_add a b ≡ min (a + b) u256_max
  pub saturating_mul_eq : (a b : ℕ) → saturating_mul a b ≡ min (a * b) u256_max
  -- A division by zero panics: nothing is said of it.
  pub wrapping_div_eq : (a b : ℕ) → 0 < b → wrapping_div a b ≡ a / b
  pub checked_add_eq :
      (a b : ℕ) → checked_add a b ≡ (if leb (a + b) u256_max then some (a + b) else none)
  pub checked_sub_eq : (a b : ℕ) → checked_sub a b ≡ (if leb b a then some (a - b) else none)

-- An implementation.
abbrev pub native : UintOps
native = record {
  saturating_add = λ a b. min (a + b) u256_max;
  saturating_mul = λ a b. min (a * b) u256_max;
  wrapping_div = λ a b. a / b;
  checked_add = λ a b. if leb (a + b) u256_max then some (a + b) else none;
  checked_sub = λ a b. if leb b a then some (a - b) else none;
  saturating_add_eq = λ a b. refl;
  saturating_mul_eq = λ a b. refl;
  wrapping_div_eq = λ a b h. refl;
  checked_add_eq = λ a b. refl;
  checked_sub_eq = λ a b. refl;
}

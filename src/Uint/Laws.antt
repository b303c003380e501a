-- ===== src/Uint/Laws.antt =====
-- Consequences of the documented results of the `U256` operations.
use dogeos_revm.Prelude.{ℕ, ◌+◌, ◌*◌, ◌/◌, ◌≤◌, ◌<◌, ◌≡◌, min, arith}
use dogeos_revm.Uint.{UintOps, u256_max}

min_mono : (a b c : ℕ) → a ≤ b → min a c ≤ min b c
min_mono a b c h = omega arith

div_mono : (a b c : ℕ) → a ≤ b → a / c ≤ b / c
div_mono a b c h = grind arith

module _ (u : UintOps) where
  pub saturating_add_mono :
      (a b c d : ℕ) → a ≤ c → b ≤ d → u.saturating_add a b ≤ u.saturating_add c d
  saturating_add_mono a b c d p q = omega (arith, u.saturating_add_eq a b, u.saturating_add_eq c d)

  pub saturating_mul_mono :
      (a b c d : ℕ) → a ≤ c → b ≤ d → u.saturating_mul a b ≤ u.saturating_mul c d
  saturating_mul_mono a b c d p q = grind (arith, u.saturating_mul_eq a b, u.saturating_mul_eq c d)

  pub wrapping_div_mono : (a b c : ℕ) → 0 < c → a ≤ b → u.wrapping_div a c ≤ u.wrapping_div b c
  wrapping_div_mono a b c p h =
      omega (arith, u.wrapping_div_eq a c p, u.wrapping_div_eq b c p, div_mono a b c h)

  -- Without overflow the saturating operations are the exact ones.
  pub saturating_add_exact : (a b : ℕ) → a + b ≤ u256_max → u.saturating_add a b ≡ a + b
  saturating_add_exact a b h = omega (arith, u.saturating_add_eq a b)

  pub saturating_mul_exact : (a b : ℕ) → a * b ≤ u256_max → u.saturating_mul a b ≡ a * b
  saturating_mul_exact a b h = omega (arith, u.saturating_mul_eq a b)

-- ===== src/L1Block/Saturation.antt =====
-- src/l1block.rs: saturation at 256 bits never shows through the cap on the fee.
use dogeos_revm.Prelude.{
  ℕ, ◌+◌, ◌*◌, ◌/◌, ◌^◌, ◌≤◌, ◌<◌, ◌≡◌, min, leb, Bool-cases, inl, inr, arith,
}
use dogeos_revm.Uint.{UintOps, u256_max}
use dogeos_revm.L1Block.{tx_l1_fee_precision, u96_max}

mul_grows : (a b : ℕ) → 0 < b → a ≤ a * b
mul_grows a b h = grind arith

-- A product of a saturated factor saturates where the product of the exact one does.
min-mul : (a b : ℕ) → min (min a u256_max * b) u256_max ≡ min (a * b) u256_max
min-mul a b = elim (Bool-cases (leb a u256_max)) [
  | inl small ↦ grind arith
  | inr large ↦ elim (Bool-cases (leb 1 b)) [
    | inl some_b ↦ grind (arith, mul_grows a b, mul_grows u256_max b)
    | inr no_b ↦ grind arith
  ]
]

module _ (u : UintOps) where
  pub saturating_mul_min : (a b : ℕ) → u.saturating_mul (min a u256_max) b ≡ min (a * b) u256_max
  saturating_mul_min a b = omega (arith, u.saturating_mul_eq (min a u256_max) b, min-mul a b)

  pub saturating_mul_min_right :
      (a b : ℕ) → u.saturating_mul a (min b u256_max) ≡ min (a * b) u256_max
  saturating_mul_min_right a b = grind (arith, u.saturating_mul_eq a (min b u256_max), min-mul b a)

  pub saturating_add_min :
      (a b : ℕ) → u.saturating_add (min a u256_max) (min b u256_max) ≡ min (a + b) u256_max
  saturating_add_min a b = omega (arith, u.saturating_add_eq (min a u256_max) (min b u256_max))

  pub saturating_add_min_left :
      (a b : ℕ) → u.saturating_add (min a u256_max) b ≡ min (a + b) u256_max
  saturating_add_min_left a b = omega (arith, u.saturating_add_eq (min a u256_max) b)

-- A quotient by the precision is above the cap where its dividend saturates.
pub capped_div :
    (cap x : ℕ)
    → cap ≤ u96_max
    → min (min x u256_max / tx_l1_fee_precision) cap ≡ min (x / tx_l1_fee_precision) cap
capped_div cap x h = omega arith

pub capped_div_twice :
    (cap x : ℕ)
    → cap ≤ u96_max
    → min (min x u256_max / tx_l1_fee_precision / tx_l1_fee_precision) cap
      ≡ min (x / (tx_l1_fee_precision * tx_l1_fee_precision)) cap
capped_div_twice cap x h = omega arith

mul_bound : (b size : ℕ) → b < 2 ^ 192 → size < 2 ^ 64 → b * size < 2 ^ 256
mul_bound b size p q = grind arith

large_product : (b size : ℕ) → size < 2 ^ 64 → u256_max < b * size → 2 ^ 192 ≤ b
large_product b size h p = elim (Bool-cases (leb (2 ^ 192) b)) [
  | inl large ↦ ground arith
  | inr small ↦ absurd (omega (arith, mul_bound b size (ground arith) h))
]

-- The sum of base and penalty term: where the penalty term would saturate, the base term alone is
-- above the cap, as a size is below 2^64.
pub capped_sum :
    (cap per_byte size factor : ℕ)
    → cap ≤ u96_max
    → size < 2 ^ 64
    → let base = per_byte * size in
      min
        (min (min base u256_max + min (base * size) u256_max / factor) u256_max
          / tx_l1_fee_precision)
        cap
      ≡ min ((base + base * size / factor) / tx_l1_fee_precision) cap
capped_sum cap per_byte size factor h short =
    let base = per_byte * size in
    elim (Bool-cases (leb (base * size) u256_max)) [
      | inl fits ↦
          let small : base ≤ u256_max = elim (Bool-cases (leb 1 size)) [
            | inl some_size ↦ grind (arith, mul_grows base size)
            | inr no_size ↦ grind arith
          ] in
          ground (arith, capped_div cap (base + base * size / factor) h)
      | inr over ↦ ground (arith, large_product base size short)
    ]

-- ===== src/L1Block/Exact/Formulas.antt =====
-- src/l1block.rs: the four formulas over the numbers, and each with a cap against the saturating
-- arithmetic.
use dogeos_revm.Prelude.{
  ℕ, ◌+◌, ◌-◌, ◌*◌, ◌/◌, ◌^◌, ◌≤◌, ◌<◌, ◌≡◌, min, max, leb, if◌then◌else◌, Option, none, some, List,
  length, arith,
}
use dogeos_revm.Uint.{UintOps, u256_max}
use dogeos_revm.L1Block.{L1BlockInfo, tx_l1_fee_precision, u96_max}
use dogeos_revm.L1Block.Cost.{calculate_tx_l1_cost_shanghai}
use dogeos_revm.L1Block.Inputs.{Formula, calldata, blob, compression_ratio, compressed_size}
use dogeos_revm.L1Block.Formula.{zeros, calldata_gas_exact}
use dogeos_revm.L1Block.Saturation.{
  saturating_mul_min, saturating_mul_min_right, saturating_add_min, saturating_add_min_left,
  capped_div, capped_div_twice, capped_sum,
}

abbrev pub or_zero : Option ℕ → ℕ
or_zero none = 0
or_zero (some n) = n

abbrev pub fee_per_byte : L1BlockInfo → ℕ
fee_per_byte info =
    or_zero info.l1_commit_scalar * info.l1_base_fee
    + or_zero info.l1_blob_scalar * or_zero info.l1_blob_base_fee

-- The fees as formulas over the numbers, where the needed values are set: the calldata gas, at
-- four for a zero byte and sixteen for any other, with overhead and 64, times base fee and scalar;
-- the calldata gas of the oracle and the blob fee; size, fee per byte and penalty; base term and
-- penalty term, where a factor of zero counts as one.
abbrev pub exact_fee : Formula → L1BlockInfo → List ℕ → Option ℕ → Option ℕ → ℕ
exact_fee calldata info input ratio size =
    (16 * length input - 12 * zeros input + info.l1_fee_overhead + 64)
    * info.l1_base_fee
    * info.l1_base_fee_scalar
    / tx_l1_fee_precision
exact_fee blob info input ratio size =
    (or_zero info.calldata_gas
      + length input * or_zero info.l1_blob_base_fee * or_zero info.l1_blob_scalar)
    / tx_l1_fee_precision
exact_fee compression_ratio info input ratio size =
    length input
    * fee_per_byte info
    * (if leb (or_zero info.penalty_threshold) (or_zero ratio)
        then tx_l1_fee_precision
        else or_zero info.penalty_factor)
    / (tx_l1_fee_precision * tx_l1_fee_precision)
exact_fee compressed_size info input ratio size =
    let base = fee_per_byte info * or_zero size in
    (base + base * or_zero size / max (or_zero info.penalty_factor) 1) / tx_l1_fee_precision

module _ (u : UintOps) (top : ℕ) (low : top ≤ u96_max) where
  pub shanghai_capped :
      (info : L1BlockInfo) (input : List ℕ)
      → 16 * length input < 2 ^ 64
      → min (calculate_tx_l1_cost_shanghai u info input) top
        ≡ min (exact_fee calldata info input none none) top
  unfolding calculate_tx_l1_cost_shanghai
  shanghai_capped info input short =
      let bytes = 16 * length input - 12 * zeros input in
      let gas = bytes + info.l1_fee_overhead + 64 in
      let product = gas * info.l1_base_fee * info.l1_base_fee_scalar in
      ground (
        arith,
        calldata_gas_exact input short,
        u.saturating_add_eq bytes info.l1_fee_overhead,
        saturating_add_min_left u (bytes + info.l1_fee_overhead) 64,
        saturating_mul_min u gas info.l1_base_fee,
        saturating_mul_min u (gas * info.l1_base_fee) info.l1_base_fee_scalar,
        u.wrapping_div_eq (min product u256_max) tx_l1_fee_precision,
        capped_div top product low,
      )

  pub blob_capped :
      (gas size base scalar : ℕ)
      → min
          (u.wrapping_div
            (u.saturating_add gas (u.saturating_mul (u.saturating_mul size base) scalar))
            tx_l1_fee_precision)
          top
        ≡ min ((gas + size * base * scalar) / tx_l1_fee_precision) top
  blob_capped gas size base scalar = ground (
    arith,
    u.saturating_mul_eq size base,
    saturating_mul_min u (size * base) scalar,
    u.saturating_add_eq gas (min (size * base * scalar) u256_max),
    u.wrapping_div_eq (min (gas + size * base * scalar) u256_max) tx_l1_fee_precision,
    capped_div top (gas + size * base * scalar) low,
  )

  pub per_byte_saturates :
      (exec base scalar blob_base : ℕ)
      → u.saturating_add (u.saturating_mul exec base) (u.saturating_mul scalar blob_base)
        ≡ min (exec * base + scalar * blob_base) u256_max
  per_byte_saturates exec base scalar blob_base = ground (
    arith,
    u.saturating_mul_eq exec base,
    u.saturating_mul_eq scalar blob_base,
    saturating_add_min u (exec * base) (scalar * blob_base),
  )

  pub ratio_capped :
      (size per_byte penalty : ℕ)
      → min
          (u.wrapping_div
            (u.wrapping_div
              (u.saturating_mul (u.saturating_mul size (min per_byte u256_max)) penalty)
              tx_l1_fee_precision)
            tx_l1_fee_precision)
          top
        ≡ min (size * per_byte * penalty / (tx_l1_fee_precision * tx_l1_fee_precision)) top
  ratio_capped size per_byte penalty =
      let product = size * per_byte * penalty in
      ground (
        arith,
        saturating_mul_min_right u size per_byte,
        saturating_mul_min u (size * per_byte) penalty,
        u.wrapping_div_eq (min product u256_max) tx_l1_fee_precision,
        u.wrapping_div_eq (min product u256_max / tx_l1_fee_precision) tx_l1_fee_precision,
        capped_div_twice top product low,
      )

  pub size_capped :
      (per_byte size factor : ℕ)
      → size < 2 ^ 64
      → 0 < factor
      → let base = u.saturating_mul (min per_byte u256_max) size in
        let penalty = u.wrapping_div (u.saturating_mul base size) factor in
        min (u.wrapping_div (u.saturating_add base penalty) tx_l1_fee_precision) top
        ≡ min ((per_byte * size + per_byte * size * size / factor) / tx_l1_fee_precision) top
  size_capped per_byte size factor short positive =
      let base = per_byte * size in
      let penalty = min (base * size) u256_max / factor in
      ground (
        arith,
        saturating_mul_min u per_byte size,
        saturating_mul_min u base size,
        u.wrapping_div_eq (min (base * size) u256_max) factor positive,
        u.saturating_add_eq (min base u256_max) penalty,
        u.wrapping_div_eq (min (min base u256_max + penalty) u256_max) tx_l1_fee_precision,
        capped_sum top per_byte size factor low short,
      )

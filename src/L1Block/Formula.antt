-- ===== src/L1Block/Formula.antt =====
-- src/l1block.rs: the fee formulas in exact arithmetic, where nothing saturates.
use native.Mathlib.Nat.{div-le_self}
use mathlib.Core.List.{foldl}
use dogeos_revm.Prelude.{
  ℕ, ◌+◌, ◌-◌, ◌*◌, ◌/◌, ◌^◌, ◌≤◌, ◌<◌, ◌≡◌, max, some, List, [], ◌∷◌, ok, length, leb, ◌==◌,
  if◌then◌else◌, arith,
}
use dogeos_revm.Uint.{UintOps, u256_max}
use dogeos_revm.Uint.Laws.{saturating_add_exact, saturating_mul_exact}
use dogeos_revm.L1Block.{L1BlockInfo, tx_l1_fee_precision}
use dogeos_revm.L1Block.Cost.{
  add_byte_cost, calculate_tx_l1_cost_shanghai, calculate_tx_l1_cost_feynman,
  calculate_tx_l1_cost_galileo,
}

-- An independent count of the calldata gas: four for a zero byte and sixteen for any other.
abbrev pub zeros : List ℕ → ℕ
zeros [] = 0
zeros (b ∷ bs) = (if b == 0 then 1 else 0) + zeros bs

zeros-le : (bs : List ℕ) → zeros bs ≤ length bs
zeros-le [] = omega arith
zeros-le (b ∷ bs) = ground (arith, zeros-le bs)

-- The `u64` sum does not wrap where the calldata is shorter than 2^59 bytes.
foldl-add_byte_cost :
    (acc : ℕ) (bs : List ℕ)
    → acc + 16 * length bs < 2 ^ 64
    → foldl add_byte_cost acc bs ≡ acc + 16 * length bs - 12 * zeros bs
foldl-add_byte_cost acc [] h = omega arith
foldl-add_byte_cost acc (b ∷ bs) h =
    ground (arith, foldl-add_byte_cost (acc + 4) bs, foldl-add_byte_cost (acc + 16) bs, zeros-le bs)

pub calldata_gas_exact :
    (bs : List ℕ)
    → 16 * length bs < 2 ^ 64
    → foldl add_byte_cost 0 bs ≡ 16 * length bs - 12 * zeros bs
calldata_gas_exact bs h = omega (arith, foldl-add_byte_cost 0 bs)

module _ (u : UintOps) where
  -- Before Curie the fee is the calldata gas, at four for a zero byte and sixteen for any other,
  -- plus overhead and 64, times base fee and scalar, over the precision: for calldata of less
  -- than 2^59 bytes and a product that fits 256 bits.
  pub shanghai_fee_exact :
      (info : L1BlockInfo) (input : List ℕ)
      → 16 * length input < 2 ^ 64
      → let gas = 16 * length input - 12 * zeros input + info.l1_fee_overhead + 64 in
        gas ≤ u256_max
        → gas * info.l1_base_fee ≤ u256_max
        → gas * info.l1_base_fee * info.l1_base_fee_scalar ≤ u256_max
        → calculate_tx_l1_cost_shanghai u info input
          ≡ gas * info.l1_base_fee * info.l1_base_fee_scalar / tx_l1_fee_precision
  unfolding calculate_tx_l1_cost_shanghai
  shanghai_fee_exact info input short g p q =
      let bytes = 16 * length input - 12 * zeros input in
      let gas = bytes + info.l1_fee_overhead + 64 in
      ground (
        arith,
        calldata_gas_exact input short,
        saturating_add_exact u bytes info.l1_fee_overhead,
        saturating_add_exact u (bytes + info.l1_fee_overhead) 64 g,
        saturating_mul_exact u gas info.l1_base_fee p,
        saturating_mul_exact u (gas * info.l1_base_fee) info.l1_base_fee_scalar q,
        u.wrapping_div_eq (gas * info.l1_base_fee * info.l1_base_fee_scalar) tx_l1_fee_precision,
      )

  -- The fee per byte of Feynman and of the later hardforks.
  fee_per_byte_exact :
      (exec base blob blob_base : ℕ)
      → exec * base + blob * blob_base ≤ u256_max
      → u.saturating_add (u.saturating_mul exec base) (u.saturating_mul blob blob_base)
        ≡ exec * base + blob * blob_base
  fee_per_byte_exact exec base blob blob_base h = ground (
    arith,
    saturating_mul_exact u exec base,
    saturating_mul_exact u blob blob_base,
    saturating_add_exact u (exec * base) (blob * blob_base),
  )

  module _ (info : L1BlockInfo) (exec blob blob_base factor : ℕ)
      (has_exec : info.l1_commit_scalar ≡ some exec) (has_blob : info.l1_blob_scalar ≡ some blob)
      (has_blob_base : info.l1_blob_base_fee ≡ some blob_base)
      (has_factor : info.penalty_factor ≡ some factor)
      (fits : exec * info.l1_base_fee + blob * blob_base ≤ u256_max) where
    -- Under Feynman the fee is size times fee per byte times penalty, over the precision squared,
    -- rounded down once: the penalty is the precision, so one, from the threshold of the ratio
    -- on, and the factor below it. The ratio is at least one and nothing overflows 256 bits.
    pub feynman_fee_exact :
        (input : List ℕ) (ratio threshold : ℕ)
        → info.penalty_threshold ≡ some threshold
        → tx_l1_fee_precision ≤ ratio
        → let per_byte = exec * info.l1_base_fee + blob * blob_base in
          let penalty = if leb threshold ratio then tx_l1_fee_precision else factor in
          length input * per_byte ≤ u256_max
          → length input * per_byte * penalty ≤ u256_max
          → calculate_tx_l1_cost_feynman u info input ratio
            ≡ ok (length input * per_byte * penalty / (tx_l1_fee_precision * tx_l1_fee_precision))
    unfolding calculate_tx_l1_cost_feynman
    feynman_fee_exact input ratio threshold has_threshold valid p q = ground (
      arith,
      fee_per_byte_exact exec info.l1_base_fee blob blob_base fits,
      saturating_mul_exact u (length input) (exec * info.l1_base_fee + blob * blob_base) p,
      saturating_mul_exact u (length input * (exec * info.l1_base_fee + blob * blob_base))
          (if leb threshold ratio then tx_l1_fee_precision else factor) q,
      u.wrapping_div_eq
          (length input
            * (exec * info.l1_base_fee + blob * blob_base)
            * (if leb threshold ratio then tx_l1_fee_precision else factor))
          tx_l1_fee_precision,
      u.wrapping_div_eq
          (length input
            * (exec * info.l1_base_fee + blob * blob_base)
            * (if leb threshold ratio then tx_l1_fee_precision else factor)
            / tx_l1_fee_precision)
          tx_l1_fee_precision,
    )

    -- From Galileo the fee is base term plus penalty term, over the precision: the base term is
    -- fee per byte times compressed size, and the penalty term is base term times compressed size
    -- over the penalty factor, where a factor of zero counts as one. The compressed size is at
    -- most the transaction's, and nothing overflows 256 bits.
    pub galileo_fee_exact :
        (tx_size size : ℕ)
        → size ≤ tx_size
        → let base = (exec * info.l1_base_fee + blob * blob_base) * size in
          base + base * size ≤ u256_max
          → calculate_tx_l1_cost_galileo u info tx_size size
            ≡ ok ((base + base * size / max factor 1) / tx_l1_fee_precision)
    unfolding calculate_tx_l1_cost_galileo
    galileo_fee_exact tx_size size valid p =
        let base = (exec * info.l1_base_fee + blob * blob_base) * size in
        ground (
          arith,
          fee_per_byte_exact exec info.l1_base_fee blob blob_base fits,
          saturating_mul_exact u (exec * info.l1_base_fee + blob * blob_base) size,
          saturating_mul_exact u base size,
          div-le_self (base * size) (max factor 1),
          u.wrapping_div_eq (base * size) (max factor 1),
          saturating_add_exact u base (base * size / max factor 1),
          u.wrapping_div_eq (base + base * size / max factor 1) tx_l1_fee_precision,
        )

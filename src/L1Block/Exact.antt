-- ===== src/L1Block/Exact.antt =====
-- src/l1block.rs: the result of `try_calculate_tx_l1_cost` in exact arithmetic, for all values of
-- the oracle and all hardforks.
use dogeos_revm.Prelude.{
  ℕ, ◌-◌, ◌*◌, ◌^◌, ◌≤◌, ◌<◌, ◌≡◌, min, max, leb, if◌then◌else◌, Option, none, some, List, length,
  Result, ok, err, ok_or, ◌>>=◌, arith,
}
use dogeos_revm.Uint.{UintOps}
use dogeos_revm.Spec.{
  ScrollSpecId, shanghai, bernoulli, curie, darwin, euclid, feynman, galileo, tsuki, tsuki_v2,
}
use dogeos_revm.L1Block.{
  L1BlockInfo, L1FeeError, missing_compression_ratio, missing_compressed_size, tx_l1_fee_precision,
  u64_max, u96_max,
}
use dogeos_revm.L1Block.Cost.{
  try_calculate_tx_l1_cost, calculate_tx_l1_cost_curie, calculate_tx_l1_cost_feynman,
  calculate_tx_l1_cost_galileo,
}
use dogeos_revm.L1Block.Inputs.{Formula, blob, compression_ratio, compressed_size, formula}
use dogeos_revm.L1Block.Errors.{fee_error}
use dogeos_revm.L1Block.Exact.Formulas.{
  or_zero, fee_per_byte, exact_fee, shanghai_capped, blob_capped, per_byte_saturates, ratio_capped,
  size_capped,
}
pub mod Formulas

abbrev pub cap : ScrollSpecId → ℕ
cap tsuki = 2 ^ 96 - 1
cap tsuki_v2 = 2 ^ 96 - 1
cap _ = 2 ^ 64 - 1

abbrev pub answer : Option L1FeeError → ℕ → Result L1FeeError ℕ
answer none fee = ok fee
answer (some e) fee = err e

-- Result of a formula with a cap, against its errors and the exact fee.
abbrev Answers :
    ℕ → Formula → L1BlockInfo → List ℕ → Option ℕ → Option ℕ → Result L1FeeError ℕ → Type 0
Answers top f info input ratio size r =
    (r >>= λ fee. ok (min fee top))
    ≡ answer (fee_error f info input ratio size) (min (exact_fee f info input ratio size) top)

module _ (u : UintOps) (top : ℕ) (low : top ≤ u96_max) where
  curie-Answers :
      (info : L1BlockInfo) (input : List ℕ) (ratio size : Option ℕ)
      → Answers top blob info input ratio size (calculate_tx_l1_cost_curie u info input)
  unfolding calculate_tx_l1_cost_curie
  curie-Answers info input ratio size = ground (
    arith,
    blob_capped u top low (or_zero info.calldata_gas) (length input) (or_zero info.l1_blob_base_fee)
        (or_zero info.l1_blob_scalar),
  )

  feynman-Answers :
      (info : L1BlockInfo) (input : List ℕ) (ratio size : Option ℕ)
      → Answers top compression_ratio info input ratio size
          (ok_or ratio missing_compression_ratio >>= calculate_tx_l1_cost_feynman u info input)
  unfolding calculate_tx_l1_cost_feynman
  feynman-Answers info input ratio size = ground (
    arith,
    per_byte_saturates u top low (or_zero info.l1_commit_scalar) info.l1_base_fee
        (or_zero info.l1_blob_scalar) (or_zero info.l1_blob_base_fee),
    ratio_capped u top low (length input) (fee_per_byte info) (
        if leb (or_zero info.penalty_threshold) (or_zero ratio)
        then tx_l1_fee_precision
        else or_zero info.penalty_factor),
  )

  galileo-Answers :
      (info : L1BlockInfo) (input : List ℕ) (ratio size : Option ℕ)
      → 16 * length input < 2 ^ 64
      → Answers top compressed_size info input ratio size (
          ok_or size missing_compressed_size >>= calculate_tx_l1_cost_galileo u info (length input))
  unfolding calculate_tx_l1_cost_galileo
  galileo-Answers info input ratio size short = ground (
    arith,
    per_byte_saturates u top low (or_zero info.l1_commit_scalar) info.l1_base_fee
        (or_zero info.l1_blob_scalar) (or_zero info.l1_blob_base_fee),
    size_capped u top low (fee_per_byte info) (or_zero size) (max (or_zero info.penalty_factor) 1),
  )

-- For calldata of less than 2^59 bytes, every hardfork and any values, `try_calculate_tx_l1_cost`
-- ends with the error that the inputs ask for, where there is one, and otherwise with the fee of
-- the hardfork's formula over the numbers, cut off at 64 bits before Tsuki and at 96 bits from
-- Tsuki: saturation at 256 bits never changes the fee.
pub try_calculate_tx_l1_cost_exact :
    (u : UintOps) (info : L1BlockInfo) (input : List ℕ) (ratio size : Option ℕ)
    (spec : ScrollSpecId)
    → 16 * length input < 2 ^ 64
    → try_calculate_tx_l1_cost u info input spec ratio size
      ≡ answer
          (fee_error (formula spec) info input ratio size)
          (min (exact_fee (formula spec) info input ratio size) (cap spec))
unfolding try_calculate_tx_l1_cost
try_calculate_tx_l1_cost_exact u info input ratio size shanghai short =
    ground (arith, shanghai_capped u u64_max (omega arith) info input short)
try_calculate_tx_l1_cost_exact u info input ratio size bernoulli short =
    ground (arith, shanghai_capped u u64_max (omega arith) info input short)
try_calculate_tx_l1_cost_exact u info input ratio size curie short =
    curie-Answers u u64_max (omega arith) info input ratio size
try_calculate_tx_l1_cost_exact u info input ratio size darwin short =
    curie-Answers u u64_max (omega arith) info input ratio size
try_calculate_tx_l1_cost_exact u info input ratio size euclid short =
    curie-Answers u u64_max (omega arith) info input ratio size
try_calculate_tx_l1_cost_exact u info input ratio size feynman short =
    feynman-Answers u u64_max (omega arith) info input ratio size
try_calculate_tx_l1_cost_exact u info input ratio size galileo short =
    galileo-Answers u u64_max (omega arith) info input ratio size short
try_calculate_tx_l1_cost_exact u info input ratio size tsuki short =
    galileo-Answers u u96_max (omega arith) info input ratio size short
try_calculate_tx_l1_cost_exact u info input ratio size tsuki_v2 short =
    galileo-Answers u u96_max (omega arith) info input ratio size short

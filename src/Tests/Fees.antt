-- ===== src/Tests/Fees.antt =====
-- The rollup fee at concrete inputs.
use dogeos_revm.Prelude.{
  ℕ, ◌+◌, ◌-◌, ◌^◌, ◌*◌, ◌/◌, ◌≤◌, ◌≡◌, refl, max, none, some, List, [], ◌∷◌, ok, arith,
}
use dogeos_revm.Uint.{native}
use dogeos_revm.Spec.{feynman, galileo, tsuki}
use dogeos_revm.L1Block.{invalid_compression_ratio, L1BlockInfo, tx_l1_fee_precision}
use dogeos_revm.L1Block.Cost.{
  try_calculate_tx_l1_cost, calculate_tx_l1_cost_feynman, calculate_tx_l1_cost_galileo,
}
use dogeos_revm.L1Block.Errors.{error_of, error_of-try_calculate_tx_l1_cost}
use dogeos_revm.L1Block.Exact.{try_calculate_tx_l1_cost_exact}
use dogeos_revm.L1Block.Formula.{feynman_fee_exact, galileo_fee_exact}
use dogeos_revm.L1Block.Growth.{galileo_fee_mono}

-- One gwei of base fee, and penalties from a ratio of two on, with a factor of three.
abbrev pub sample_info : L1BlockInfo
sample_info = record {
  l1_base_fee = 1_000_000_000;
  l1_fee_overhead = 40;
  l1_base_fee_scalar = 2_000_000_000;
  l1_blob_base_fee = some 30;
  l1_commit_scalar = some 50;
  l1_blob_scalar = some 60;
  calldata_gas = some 50_000_000_000;
  penalty_threshold = some 2_000_000_000;
  penalty_factor = some 3_000_000_000;
}

abbrev pub sample_input : List ℕ
sample_input = 7 ∷ 0 ∷ 9 ∷ []

sample_fee : try_calculate_tx_l1_cost native sample_info sample_input galileo none (some 3) ≡ ok 150
unfolding try_calculate_tx_l1_cost
sample_fee = refl

-- With a base fee of 10^80 the product is above 256 bits, and the fee is the cap.
abbrev dear_info : L1BlockInfo
dear_info = record sample_info { l1_base_fee = 10 ^ 80 }

try_calculate_tx_l1_cost_exact_example :
    try_calculate_tx_l1_cost native dear_info sample_input tsuki none (some 3) ≡ ok (2 ^ 96 - 1)
try_calculate_tx_l1_cost_exact_example =
    try_calculate_tx_l1_cost_exact native dear_info sample_input none (some 3) tsuki (omega arith)

error_of-try_calculate_tx_l1_cost_example :
    error_of (try_calculate_tx_l1_cost native sample_info sample_input feynman (some 3) none)
    ≡ some (invalid_compression_ratio 3)
error_of-try_calculate_tx_l1_cost_example =
    error_of-try_calculate_tx_l1_cost native sample_info sample_input (some 3) none feynman

feynman_fee_exact_example :
    calculate_tx_l1_cost_feynman native sample_info sample_input 1_500_000_000
    ≡ ok (
        3
        * (50 * 1_000_000_000 + 60 * 30)
        * 3_000_000_000
        / (tx_l1_fee_precision * tx_l1_fee_precision))
feynman_fee_exact_example =
    feynman_fee_exact native sample_info 50 60 30 3_000_000_000 refl refl refl refl (omega arith)
      sample_input 1_500_000_000 2_000_000_000 refl (omega arith) (omega arith) (omega arith)

galileo_fee_exact_example :
    calculate_tx_l1_cost_galileo native sample_info 5 3
    ≡ ok (
        ((50 * 1_000_000_000 + 60 * 30) * 3
          + (50 * 1_000_000_000 + 60 * 30) * 3 * 3 / max 3_000_000_000 1)
        / tx_l1_fee_precision)
galileo_fee_exact_example =
    galileo_fee_exact native sample_info 50 60 30 3_000_000_000 refl refl refl refl (omega arith) 5
      3 (omega arith) (omega arith)

galileo_small : calculate_tx_l1_cost_galileo native sample_info 5 3 ≡ ok 150
unfolding calculate_tx_l1_cost_galileo
galileo_small = refl

galileo_large :
    calculate_tx_l1_cost_galileo native (record sample_info { l1_base_fee = 2_000_000_000 }) 9 4
    ≡ ok 400
unfolding calculate_tx_l1_cost_galileo
galileo_large = refl

galileo_fee_mono_example : 150 ≤ 400
galileo_fee_mono_example =
    galileo_fee_mono native sample_info 2_000_000_000 5 3 9 4 150 400 (omega arith) (omega arith)
      galileo_small galileo_large

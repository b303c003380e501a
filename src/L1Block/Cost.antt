-- ===== src/L1Block/Cost.antt =====
-- src/l1block.rs: the rollup fee of each hardfork, and the choice between them.
use dogeos_revm.Prelude.{
  ℕ, ◌+◌, ◌%◌, ◌^◌, min, not, ltb, leb, ◌==◌, if◌then◌else◌, Option, none, some, Result, ok, err,
  ◌>>=◌, ◌>>◌, ok_or, fail_if, List, length,
}
use mathlib.Core.List.{foldl}
use dogeos_revm.Uint.{UintOps}
use dogeos_revm.Spec.{ScrollSpecId, curie, feynman, galileo, tsuki, is_enabled_in}
use dogeos_revm.L1Block.{
  L1BlockInfo, L1FeeError, missing_oracle_value, missing_compression_ratio,
  invalid_compression_ratio, missing_compressed_size, invalid_compressed_size, zero_byte_cost,
  non_zero_byte_cost, tx_l1_commit_extra_cost, tx_l1_fee_precision, u64_max, u96_max,
}

-- The closure of the fold in `pre_curie_l1_gas`, a `u64` sum.
abbrev pub add_byte_cost : ℕ → ℕ → ℕ
add_byte_cost acc byte = (acc + (if byte == 0 then zero_byte_cost else non_zero_byte_cost)) % 2 ^ 64

-- The `match` on the penalty factor in `calculate_tx_l1_cost_galileo`.
abbrev pub sanitized_penalty_factor : Option ℕ → Result L1FeeError ℕ
sanitized_penalty_factor (some f) = if f == 0 then ok 1 else ok f
sanitized_penalty_factor none = err missing_oracle_value

module _ (u : UintOps) where
  -- `pre_curie_l1_gas`
  unfoldable pub pre_curie_l1_gas : L1BlockInfo → List ℕ → ℕ
  pre_curie_l1_gas self input =
      u.saturating_add (u.saturating_add (foldl add_byte_cost 0 input) self.l1_fee_overhead)
        tx_l1_commit_extra_cost

  -- `curie_blob_fee`
  unfoldable pub curie_blob_fee : L1BlockInfo → List ℕ → Result L1FeeError ℕ
  curie_blob_fee self input = do
    blob_base_fee ← ok_or self.l1_blob_base_fee missing_oracle_value
    blob_scalar ← ok_or self.l1_blob_scalar missing_oracle_value
    ok (u.saturating_mul (u.saturating_mul (length input) blob_base_fee) blob_scalar)

  -- `calculate_tx_l1_cost_shanghai`
  unfoldable pub calculate_tx_l1_cost_shanghai : L1BlockInfo → List ℕ → ℕ
  unfolding pre_curie_l1_gas
  calculate_tx_l1_cost_shanghai self input =
      let tx_l1_gas = pre_curie_l1_gas self input in
      u.wrapping_div
        (u.saturating_mul (u.saturating_mul tx_l1_gas self.l1_base_fee) self.l1_base_fee_scalar)
        tx_l1_fee_precision

  -- `calculate_tx_l1_cost_curie`
  unfoldable pub calculate_tx_l1_cost_curie : L1BlockInfo → List ℕ → Result L1FeeError ℕ
  unfolding curie_blob_fee
  calculate_tx_l1_cost_curie self input = do
    blob_fee ← curie_blob_fee self input
    calldata_gas ← ok_or self.calldata_gas missing_oracle_value
    ok (u.wrapping_div (u.saturating_add calldata_gas blob_fee) tx_l1_fee_precision)

  -- `calculate_tx_l1_cost_feynman`
  unfoldable pub calculate_tx_l1_cost_feynman : L1BlockInfo → List ℕ → ℕ → Result L1FeeError ℕ
  calculate_tx_l1_cost_feynman self input compression_ratio = do
    fail_if (ltb compression_ratio tx_l1_fee_precision)
        (invalid_compression_ratio compression_ratio)
    exec_scalar ← ok_or self.l1_commit_scalar missing_oracle_value
    compressed_blob_scalar ← ok_or self.l1_blob_scalar missing_oracle_value
    l1_blob_base_fee ← ok_or self.l1_blob_base_fee missing_oracle_value
    penalty_threshold ← ok_or self.penalty_threshold missing_oracle_value
    penalty_factor ← ok_or self.penalty_factor missing_oracle_value
    let tx_size = length input
    let component_exec = u.saturating_mul exec_scalar self.l1_base_fee
    let component_blob = u.saturating_mul compressed_blob_scalar l1_blob_base_fee
    let fee_per_byte = u.saturating_add component_exec component_blob
    let penalty =
        if leb penalty_threshold compression_ratio then tx_l1_fee_precision else penalty_factor
    ok (
        u.wrapping_div
          (u.wrapping_div (u.saturating_mul (u.saturating_mul tx_size fee_per_byte) penalty)
            tx_l1_fee_precision)
          tx_l1_fee_precision)

  -- `calculate_tx_l1_cost_galileo`
  unfoldable pub calculate_tx_l1_cost_galileo : L1BlockInfo → ℕ → ℕ → Result L1FeeError ℕ
  calculate_tx_l1_cost_galileo self tx_size compressed_size = do
    fail_if (ltb tx_size compressed_size) (invalid_compressed_size compressed_size tx_size)
    exec_scalar ← ok_or self.l1_commit_scalar missing_oracle_value
    blob_scalar ← ok_or self.l1_blob_scalar missing_oracle_value
    l1_blob_base_fee ← ok_or self.l1_blob_base_fee missing_oracle_value
    penalty_factor ← sanitized_penalty_factor self.penalty_factor
    let component_exec = u.saturating_mul exec_scalar self.l1_base_fee
    let component_blob = u.saturating_mul blob_scalar l1_blob_base_fee
    let fee_per_byte = u.saturating_add component_exec component_blob
    let base_term = u.saturating_mul fee_per_byte compressed_size
    let penalty_term = u.wrapping_div (u.saturating_mul base_term compressed_size) penalty_factor
    ok (u.wrapping_div (u.saturating_add base_term penalty_term) tx_l1_fee_precision)

  -- The choice of the formula in `try_calculate_tx_l1_cost`.
  unfoldable pub uncapped_tx_l1_cost :
      L1BlockInfo → List ℕ → ScrollSpecId → Option ℕ → Option ℕ → Result L1FeeError ℕ
  unfolding is_enabled_in calculate_tx_l1_cost_shanghai calculate_tx_l1_cost_curie
      calculate_tx_l1_cost_feynman calculate_tx_l1_cost_galileo
  uncapped_tx_l1_cost self input spec_id compression_ratio compressed_size =
      if not (is_enabled_in spec_id curie)
      then ok (calculate_tx_l1_cost_shanghai self input)
      else if not (is_enabled_in spec_id feynman)
      then calculate_tx_l1_cost_curie self input
      else if not (is_enabled_in spec_id galileo)
      then ok_or compression_ratio missing_compression_ratio
        >>= calculate_tx_l1_cost_feynman self input
      else ok_or compressed_size missing_compressed_size
        >>= calculate_tx_l1_cost_galileo self (length input)

  -- `try_calculate_tx_l1_cost`
  unfoldable pub try_calculate_tx_l1_cost :
      L1BlockInfo → List ℕ → ScrollSpecId → Option ℕ → Option ℕ → Result L1FeeError ℕ
  unfolding uncapped_tx_l1_cost is_enabled_in
  try_calculate_tx_l1_cost self input spec_id compression_ratio compressed_size = do
    l1_cost ← uncapped_tx_l1_cost self input spec_id compression_ratio compressed_size
    if is_enabled_in spec_id tsuki then ok (min l1_cost u96_max) else ok (min l1_cost u64_max)

  -- `calculate_tx_l1_cost`, where `none` stands for the panic.
  unfoldable pub calculate_tx_l1_cost :
      L1BlockInfo → List ℕ → ScrollSpecId → Option ℕ → Option ℕ → Option ℕ
  unfolding try_calculate_tx_l1_cost
  calculate_tx_l1_cost self input spec_id compression_ratio compressed_size =
      elim (try_calculate_tx_l1_cost self input spec_id compression_ratio compressed_size) [
        | ok cost ↦ some cost
        | err _ ↦ none
      ]

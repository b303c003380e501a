-- ===== src/L1Block/Errors.antt =====
-- src/l1block.rs: the error of every fee that cannot be calculated, with what the module's tests
-- assert of it.
use dogeos_revm.Prelude.{
  ℕ, ◌-◌, ◌≡◌, Option, none, some, List, [], ◌∷◌, Result, ok, err, ltb, length, if◌then◌else◌,
  arith, true, refl,
}
use dogeos_revm.Uint.{UintOps}
use dogeos_revm.Spec.{ScrollSpecId, shanghai, curie, feynman, tsuki_v2}
use dogeos_revm.L1Block.{
  L1BlockInfo, empty_info, L1FeeError, missing_oracle_value, missing_compression_ratio,
  invalid_compression_ratio, missing_compressed_size, invalid_compressed_size, tx_l1_fee_precision,
}
use dogeos_revm.L1Block.Cost.{try_calculate_tx_l1_cost}
use dogeos_revm.L1Block.Inputs.{
  Formula, calldata, blob, compression_ratio, compressed_size, formula, has_oracle_values, is_ok,
}

abbrev pub error_of : {E A : Type 0} → Result E A → Option E
error_of (ok _) = none
error_of (err e) = some e

-- Values that a formula needs and that are not set.
abbrev oracle_error : Formula → L1BlockInfo → Option L1FeeError
oracle_error f info = if has_oracle_values f info then none else some missing_oracle_value

-- The errors in their order: what the transaction brings along is looked at first.
abbrev pub fee_error : Formula → L1BlockInfo → List ℕ → Option ℕ → Option ℕ → Option L1FeeError
fee_error calldata info input ratio size = none
fee_error blob info input ratio size = oracle_error blob info
fee_error compression_ratio info input none size = some missing_compression_ratio
fee_error compression_ratio info input (some ratio) size =
    if ltb ratio tx_l1_fee_precision
    then some (invalid_compression_ratio ratio)
    else oracle_error compression_ratio info
fee_error compressed_size info input ratio none = some missing_compressed_size
fee_error compressed_size info input ratio (some size) =
    if ltb (length input) size
    then some (invalid_compressed_size size (length input))
    else oracle_error compressed_size info

-- The fee is calculated, or the call ends with the one error that the inputs ask for: none before
-- Curie; from Curie a missing oracle value; from Feynman first a missing compression ratio, then
-- one below one, then a missing oracle value; from Galileo first a missing compressed size, then
-- one above the transaction's size, then a missing oracle value.
pub error_of-try_calculate_tx_l1_cost :
    (u : UintOps) (info : L1BlockInfo) (input : List ℕ) (ratio size : Option ℕ)
    (spec : ScrollSpecId)
    → error_of (try_calculate_tx_l1_cost u info input spec ratio size)
      ≡ fee_error (formula spec) info input ratio size
unfolding try_calculate_tx_l1_cost
error_of-try_calculate_tx_l1_cost u info input ratio size shanghai = refl
error_of-try_calculate_tx_l1_cost u info input ratio size _ = ground arith

-- The oracle values of `test_invalid_inputs_return_errors`, and its calldata.
abbrev pub ones_info : L1BlockInfo
ones_info = record empty_info {
  l1_blob_base_fee = some 1;
  l1_commit_scalar = some 1;
  l1_blob_scalar = some 1;
  calldata_gas = some 1;
  penalty_threshold = some 1;
  penalty_factor = some 1;
}

abbrev ones_input : List ℕ
ones_input = 1 ∷ 1 ∷ 1 ∷ 1 ∷ []

abbrev low_ratio : ℕ
low_ratio = tx_l1_fee_precision - 1

module _ (u : UintOps) where
  abbrev pub fee_of : L1BlockInfo → ScrollSpecId → Option ℕ → Option ℕ → Result L1FeeError ℕ
  fee_of info = try_calculate_tx_l1_cost u info ones_input

  -- `test_invalid_inputs_return_errors`
  pub record ErrorsOnInvalidInputs : Type 0 where
    pub feynman_calculates : is_ok (fee_of ones_info feynman (some tx_l1_fee_precision) none) ≡ true
    pub tsuki_v2_calculates : is_ok (fee_of ones_info tsuki_v2 none (some 4)) ≡ true
    pub curie_values :
        fee_of empty_info curie (some tx_l1_fee_precision) (some 4) ≡ err missing_oracle_value
    pub feynman_values :
        fee_of empty_info feynman (some tx_l1_fee_precision) (some 4) ≡ err missing_oracle_value
    pub tsuki_v2_values :
        fee_of empty_info tsuki_v2 (some tx_l1_fee_precision) (some 4) ≡ err missing_oracle_value
    pub no_ratio : fee_of ones_info feynman none (some 4) ≡ err missing_compression_ratio
    pub too_low_ratio :
        fee_of ones_info feynman (some low_ratio) none ≡ err (invalid_compression_ratio low_ratio)
    pub no_size :
        fee_of ones_info tsuki_v2 (some tx_l1_fee_precision) none ≡ err missing_compressed_size
    pub too_large_size : fee_of ones_info tsuki_v2 none (some 5) ≡ err (invalid_compressed_size 5 4)

  fees-ErrorsOnInvalidInputs : ErrorsOnInvalidInputs
  unfolding try_calculate_tx_l1_cost
  fees-ErrorsOnInvalidInputs = record {
    feynman_calculates = refl;
    tsuki_v2_calculates = refl;
    curie_values = refl;
    feynman_values = refl;
    tsuki_v2_values = refl;
    no_ratio = refl;
    too_low_ratio = refl;
    no_size = refl;
    too_large_size = refl;
  }

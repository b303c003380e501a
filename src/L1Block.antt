-- ===== src/L1Block.antt =====
-- src/l1block.rs: the constants of the rollup fee, its errors, and the oracle values that it is
-- computed from. `Fetch` reads the values and `Cost` computes the fee; the other children prove.
use dogeos_revm.Prelude.{ℕ, ◌-◌, ◌^◌, Option, none}
pub mod Fetch
pub mod Cost
pub mod Bounds
pub mod Inputs
pub mod Errors
pub mod Formula
pub mod Reads
pub mod Untouched
pub mod Growth
pub mod Saturation
pub mod Exact

-- The costs of a byte of calldata, and the extra cost of a commitment on L1.
abbrev pub zero_byte_cost : ℕ
zero_byte_cost = 4

abbrev pub non_zero_byte_cost : ℕ
non_zero_byte_cost = 16

abbrev pub tx_l1_commit_extra_cost : ℕ
tx_l1_commit_extra_cost = 64

-- `TX_L1_FEE_PRECISION` and `TX_L1_FEE_PRECISION_U256`
abbrev pub tx_l1_fee_precision : ℕ
tx_l1_fee_precision = 1_000_000_000

abbrev pub l1_gas_price_oracle_address : ℕ
l1_gas_price_oracle_address = 0x5300000000000000000000000000000000000002

abbrev pub l1_base_fee_slot : ℕ
l1_base_fee_slot = 1

abbrev pub l1_overhead_slot : ℕ
l1_overhead_slot = 2

abbrev pub l1_scalar_slot : ℕ
l1_scalar_slot = 3

abbrev pub l1_blob_base_fee_slot : ℕ
l1_blob_base_fee_slot = 5

abbrev pub l1_commit_scalar_slot : ℕ
l1_commit_scalar_slot = 6

abbrev pub l1_blob_scalar_slot : ℕ
l1_blob_scalar_slot = 7

abbrev pub penalty_threshold_slot : ℕ
penalty_threshold_slot = 9

abbrev pub penalty_factor_slot : ℕ
penalty_factor_slot = 10

-- `U64_MAX` and `U96_MAX`, from their limbs.
abbrev pub u64_max : ℕ
u64_max = 2 ^ 64 - 1

abbrev pub u96_max : ℕ
u96_max = 2 ^ 96 - 1

pub data L1FeeError : Type 0 where
  missing_oracle_value : L1FeeError
  missing_compression_ratio : L1FeeError
  invalid_compression_ratio : ℕ → L1FeeError
  missing_compressed_size : L1FeeError
  -- the compressed size and the size of the transaction
  invalid_compressed_size : ℕ → ℕ → L1FeeError

pub record L1BlockInfo : Type 0 where
  pub l1_base_fee : ℕ
  pub l1_fee_overhead : ℕ
  pub l1_base_fee_scalar : ℕ
  pub l1_blob_base_fee : Option ℕ
  pub l1_commit_scalar : Option ℕ
  pub l1_blob_scalar : Option ℕ
  pub calldata_gas : Option ℕ
  pub penalty_threshold : Option ℕ
  pub penalty_factor : Option ℕ

-- `L1BlockInfo::default`
abbrev pub empty_info : L1BlockInfo
empty_info = record {
  l1_base_fee = 0;
  l1_fee_overhead = 0;
  l1_base_fee_scalar = 0;
  l1_blob_base_fee = none;
  l1_commit_scalar = none;
  l1_blob_scalar = none;
  calldata_gas = none;
  penalty_threshold = none;
  penalty_factor = none;
}

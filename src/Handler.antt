-- ===== src/Handler.antt =====
-- src/handler.rs: the errors, the configuration and the block that the handler's steps read. The
-- children hold the steps, in the order in which a transaction passes them.
use dogeos_revm.Prelude.{ℕ, Bool, String, List, Option, Result, ok, err}
use dogeos_revm.Spec.{ScrollSpecId}
use dogeos_revm.L1Block.{L1FeeError}
pub mod Env
pub mod InitialGas
pub mod Charge
pub mod Outcome
pub mod Inclusion
pub mod Sequence

pub data InvalidHeader : Type 0 where
  prevrandao_not_set excess_blob_gas_not_set : InvalidHeader

-- The variants of revm's `InvalidTransaction` that the handler builds; `raised_by_revm` stands for
-- those that only revm's own checks return.
pub data InvalidTransaction : Type 0 where
  invalid_chain_id missing_chain_id : InvalidTransaction
  tx_gas_limit_greater_than_cap : ℕ → ℕ → InvalidTransaction
  eip2930_not_supported eip1559_not_supported eip4844_not_supported : InvalidTransaction
  eip7702_not_supported empty_authorization_list : InvalidTransaction
  str : String → InvalidTransaction
  caller_gas_limit_more_than_block create_init_code_size_limit : InvalidTransaction
  -- the gas limit and the initial gas
  call_gas_cost_more_than_gas_limit : ℕ → ℕ → InvalidTransaction
  -- the floor gas and the gas limit
  gas_floor_more_than_gas_limit : ℕ → ℕ → InvalidTransaction
  -- the fee and the balance
  lack_of_fund_for_max_fee : ℕ → ℕ → InvalidTransaction
  overflow_payment_in_transaction reject_caller_with_code : InvalidTransaction
  raised_by_revm : ℕ → InvalidTransaction

-- The texts that the handler makes errors of.
pub data CustomError : Type 0 where
  missing_rlp_bytes : CustomError
  l1_fee : L1FeeError → CustomError

-- `EVMError` over the database's error
pub data EvmError (D : Type 0) : Type 0 where
  header : InvalidHeader → EvmError D
  transaction : InvalidTransaction → EvmError D
  database : D → EvmError D
  custom : CustomError → EvmError D

-- What the methods of revm's `Cfg` answer.
pub record Cfg : Type 0 where
  pub spec : ScrollSpecId
  pub chain_id : ℕ
  pub tx_chain_id_check : Bool
  pub tx_gas_limit_cap : ℕ
  pub max_blobs_per_tx : Option ℕ
  pub max_initcode_size : ℕ
  pub is_base_fee_check_disabled : Bool
  pub is_priority_fee_check_disabled : Bool
  pub is_block_gas_limit_disabled : Bool
  pub is_eip7623_disabled : Bool
  pub is_eip3607_disabled : Bool

-- What the methods of revm's `Block` answer.
pub record Block : Type 0 where
  pub prevrandao : Option ℕ
  pub has_blob_excess_gas_and_price : Bool
  pub basefee : ℕ
  pub blob_gasprice : Option ℕ
  pub gas_limit : ℕ
  pub beneficiary : ℕ

-- ===== src/Handler/Env.antt =====
-- src/handler.rs: `validate_env`, paragraph by paragraph, over revm's own checks.
use mathlib.Core.Option
use dogeos_revm.Prelude.{
  ℕ, ◌<◌, ◌≡◌, Bool, true, false, not, ◌&&◌, List, Option, none, some, ltb, ◌==◌, if◌then◌else◌,
  length, Result, ok, err, ◌>>=◌, ◌>>◌, fail_if, map_err,
}
use dogeos_revm.Spec.{ScrollSpecId, euclid, is_enabled_in, into_eth_spec_id}
use dogeos_revm.Transaction.{
  ScrollTransaction, l1_message_type, tx_type, gas_limit, input, kind, is_create, chain_id,
  gas_price, blob_versioned_hashes, max_fee_per_blob_gas, authorization_list_len,
  max_priority_fee_per_gas, is_l1_msg,
}
use dogeos_revm.Handler.{
  InvalidHeader, prevrandao_not_set, excess_blob_gas_not_set, InvalidTransaction, invalid_chain_id,
  missing_chain_id, tx_gas_limit_greater_than_cap, eip2930_not_supported, eip1559_not_supported,
  eip4844_not_supported, eip7702_not_supported, empty_authorization_list, str,
  caller_gas_limit_more_than_block, create_init_code_size_limit, EvmError, header, transaction, Cfg,
  Block,
}
pub mod Accepted
pub mod Verdict

-- `TransactionType`
pub data TransactionType : Type 0 where
  legacy eip2930 eip1559 eip4844 eip7702 custom_type : TransactionType

-- revm's hardforks, its transaction types and its checks, with what is documented of them: Shanghai
-- comes after the merge, Berlin and London and before Cancun, and the type of L1 messages is none
-- that revm knows.
pub record Validation : Type 1 where
  pub SpecId : Type 0
  pub merge : SpecId
  pub berlin : SpecId
  pub london : SpecId
  pub eth_shanghai : SpecId
  pub cancun : SpecId
  pub eth_is_enabled_in : SpecId → SpecId → Bool
  pub transaction_type : ℕ → TransactionType
  pub max_fee_per_gas : ScrollTransaction → ℕ
  pub validate_legacy_gas_price : ℕ → Option ℕ → Result InvalidTransaction (Unit {0})
  pub validate_priority_fee_tx : ℕ → ℕ → Option ℕ → Bool → Result InvalidTransaction (Unit {0})
  pub validate_eip4844_tx : List ℕ → ℕ → ℕ → Option ℕ → Result InvalidTransaction (Unit {0})
  pub shanghai_merge : eth_is_enabled_in eth_shanghai merge ≡ true
  pub shanghai_berlin : eth_is_enabled_in eth_shanghai berlin ≡ true
  pub shanghai_london : eth_is_enabled_in eth_shanghai london ≡ true
  pub shanghai_itself : eth_is_enabled_in eth_shanghai eth_shanghai ≡ true
  pub shanghai_cancun : eth_is_enabled_in eth_shanghai cancun ≡ false
  pub l1_message_custom : transaction_type l1_message_type ≡ custom_type

abbrev pub is_none : Option ℕ → Bool
is_none none = true
is_none (some _) = false

abbrev pub Check : Type 0
Check = Result InvalidTransaction (Unit {0})

module _ (v : Validation) (cfg : Cfg) (block : Block) (tx : ScrollTransaction) where
  unfoldable pub validate_header : Result InvalidHeader (Unit {0})
  unfolding into_eth_spec_id
  validate_header = do
    fail_if
        (v.eth_is_enabled_in (into_eth_spec_id v.eth_shanghai cfg.spec) v.merge
          && is_none block.prevrandao)
        prevrandao_not_set
    fail_if
        (v.eth_is_enabled_in (into_eth_spec_id v.eth_shanghai cfg.spec) v.cancun
          && not block.has_blob_excess_gas_and_price)
        excess_blob_gas_not_set

  abbrev pub base_fee : Option ℕ
  base_fee = if cfg.is_base_fee_check_disabled then none else some block.basefee

  -- the arms on `tx.chain_id()`
  abbrev pub chain_id_arm : TransactionType → Option ℕ → Check
  chain_id_arm ty (some id) = fail_if (not (id == cfg.chain_id)) invalid_chain_id
  chain_id_arm legacy none = ok tt
  chain_id_arm custom_type none = ok tt
  chain_id_arm eip2930 none = err missing_chain_id
  chain_id_arm eip1559 none = err missing_chain_id
  chain_id_arm eip4844 none = err missing_chain_id
  chain_id_arm eip7702 none = err missing_chain_id

  unfoldable pub validate_chain_id : Check
  validate_chain_id =
      if cfg.tx_chain_id_check
      then chain_id_arm (v.transaction_type (tx_type tx)) (chain_id tx)
      else ok tt

  unfoldable pub validate_gas_cap : Check
  unfolding is_l1_msg
  validate_gas_cap =
      if not (is_l1_msg tx)
      then fail_if (ltb cfg.tx_gas_limit_cap (gas_limit tx))
          (tx_gas_limit_greater_than_cap (gas_limit tx) cfg.tx_gas_limit_cap)
      else ok tt

  -- `validate_priority_fee_for_tx`
  unfoldable pub validate_priority_fee_for_tx : Check
  validate_priority_fee_for_tx =
      v.validate_priority_fee_tx (v.max_fee_per_gas tx)
        (Option.get_or (max_priority_fee_per_gas tx) 0) base_fee cfg.is_priority_fee_check_disabled

  -- the `match` on the type
  unfoldable pub validate_type : TransactionType → Check
  unfolding validate_priority_fee_for_tx is_l1_msg is_enabled_in into_eth_spec_id
  validate_type legacy = v.validate_legacy_gas_price (gas_price tx) base_fee
  validate_type eip2930 = do
    fail_if (not (v.eth_is_enabled_in (into_eth_spec_id v.eth_shanghai cfg.spec) v.berlin))
        eip2930_not_supported
    v.validate_legacy_gas_price (gas_price tx) base_fee
  validate_type eip1559 = do
    fail_if (not (v.eth_is_enabled_in (into_eth_spec_id v.eth_shanghai cfg.spec) v.london))
        eip1559_not_supported
    validate_priority_fee_for_tx
  validate_type eip4844 = do
    fail_if (not (v.eth_is_enabled_in (into_eth_spec_id v.eth_shanghai cfg.spec) v.cancun))
        eip4844_not_supported
    validate_priority_fee_for_tx
    v.validate_eip4844_tx (blob_versioned_hashes tx) (max_fee_per_blob_gas tx)
        (Option.get_or block.blob_gasprice 0) cfg.max_blobs_per_tx
  validate_type eip7702 = do
    fail_if (not (is_enabled_in cfg.spec euclid)) eip7702_not_supported
    validate_priority_fee_for_tx
    fail_if (authorization_list_len tx == 0) empty_authorization_list
  validate_type custom_type = fail_if (not (is_l1_msg tx)) (str "unsupported transaction type")

  unfoldable pub validate_limits : Check
  unfolding into_eth_spec_id
  validate_limits = do
    fail_if (not cfg.is_block_gas_limit_disabled && ltb block.gas_limit (gas_limit tx))
        caller_gas_limit_more_than_block
    fail_if
        (v.eth_is_enabled_in (into_eth_spec_id v.eth_shanghai cfg.spec) v.eth_shanghai
          && is_create (kind tx)
          && ltb cfg.max_initcode_size (length (input tx)))
        create_init_code_size_limit

  unfoldable pub validate_tx_env : Check
  validate_tx_env = do
    validate_chain_id
    validate_gas_cap
    validate_type (v.transaction_type (tx_type tx))
    validate_limits

  -- `validate_env`
  unfoldable pub validate_env : {D : Type 0} → Result (EvmError D) (Unit {0})
  validate_env = map_err header validate_header >> map_err transaction validate_tx_env

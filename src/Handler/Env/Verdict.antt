-- ===== src/Handler/Env/Verdict.antt =====
-- src/handler.rs: `validate_env` as one Boolean formula, for every transaction.
use mathlib.Core.Option
use dogeos_revm.Prelude.{
  ℕ, ◌≡◌, Bool, true, false, ◌&&◌, ◌||◌, not, Option, none, some, leb, ◌==◌, length, arith,
}
use dogeos_revm.Spec.{euclid, is_enabled_in}
use dogeos_revm.Spec.Baseline.{into_eth_spec_id-eq}
use dogeos_revm.Transaction.{
  ScrollTransaction, tx_type, gas_limit, input, kind, is_create, chain_id, gas_price,
  authorization_list_len, max_priority_fee_per_gas, is_l1_msg,
}
use dogeos_revm.L1Block.Inputs.{is_ok}
use dogeos_revm.Handler.{Cfg, Block}
use dogeos_revm.Handler.Env.{
  TransactionType, legacy, eip2930, eip1559, eip4844, eip7702, custom_type, Validation, is_none,
  base_fee, validate_header, validate_chain_id, validate_gas_cap, validate_priority_fee_for_tx,
  validate_type, validate_limits, validate_tx_env, validate_env,
}

-- Whether a transaction of a type may leave its chain id out.
abbrev may_omit_chain_id : TransactionType → Bool
may_omit_chain_id legacy = true
may_omit_chain_id custom_type = true
may_omit_chain_id eip2930 = false
may_omit_chain_id eip1559 = false
may_omit_chain_id eip4844 = false
may_omit_chain_id eip7702 = false

module _ (v : Validation) (cfg : Cfg) (block : Block) (tx : ScrollTransaction) where
  abbrev chain_admissible : TransactionType → Option ℕ → Bool
  chain_admissible ty none = may_omit_chain_id ty
  chain_admissible ty (some id) = id == cfg.chain_id

  -- revm's two checks of the fees.
  abbrev price_admissible : Bool
  price_admissible = is_ok (v.validate_legacy_gas_price (gas_price tx) (base_fee v cfg block tx))

  abbrev priority_admissible : Bool
  priority_admissible = is_ok (
      v.validate_priority_fee_tx (v.max_fee_per_gas tx)
        (Option.get_or (max_priority_fee_per_gas tx) 0) (base_fee v cfg block tx)
        cfg.is_priority_fee_check_disabled)

  -- What each type is asked.
  abbrev type_admissible : TransactionType → Bool
  type_admissible legacy = price_admissible
  type_admissible eip2930 = price_admissible
  type_admissible eip1559 = priority_admissible
  type_admissible eip4844 = false
  type_admissible eip7702 =
      is_enabled_in cfg.spec euclid && priority_admissible && not (authorization_list_len tx == 0)
  type_admissible custom_type = is_l1_msg tx

  -- What is asked of a transaction, all told.
  abbrev pub admissible : Bool
  admissible =
      let ty = v.transaction_type (tx_type tx) in
      not (is_none block.prevrandao)
      && (not cfg.tx_chain_id_check || chain_admissible ty (chain_id tx))
      && (is_l1_msg tx || leb (gas_limit tx) cfg.tx_gas_limit_cap)
      && type_admissible ty
      && (cfg.is_block_gas_limit_disabled || leb (gas_limit tx) block.gas_limit)
      && (not (is_create (kind tx)) || leb (length (input tx)) cfg.max_initcode_size)

  validate_type-admissible :
      (ty : TransactionType) → is_ok (validate_type v cfg block tx ty) ≡ type_admissible ty
  unfolding validate_type validate_priority_fee_for_tx
  validate_type-admissible legacy = ground arith
  validate_type-admissible _ = ground (
    arith,
    into_eth_spec_id-eq v.eth_shanghai cfg.spec,
    v.shanghai_berlin,
    v.shanghai_london,
    v.shanghai_cancun,
  )

  -- `validate_env` accepts exactly the admissible transactions, under every hardfork and
  -- configuration: the block has its randomness; the chain id, where it is checked, is the configured
  -- one, or left out by a legacy transaction or a custom one; the gas limit is within the
  -- transaction cap, L1 messages excepted, and within the block's where that is checked; a legacy or
  -- access-list transaction passes revm's check of the price and a dynamic-fee one that of the
  -- priority fee, a set-code one moreover comes at Euclid or later with an authorization, a blob
  -- transaction never passes, and a custom one exactly as an L1 message, which no check of fees
  -- meets; the init code of a creation is within its limit.
  pub validate_env-admissible :
      (D : Type 0) → is_ok (validate_env v cfg block tx {D = D}) ≡ admissible
  unfolding validate_env validate_tx_env validate_header validate_chain_id validate_gas_cap
      validate_limits
  validate_env-admissible D = ground (
    arith,
    validate_type-admissible (v.transaction_type (tx_type tx)),
    into_eth_spec_id-eq v.eth_shanghai cfg.spec,
    v.shanghai_merge,
    v.shanghai_cancun,
    v.shanghai_itself,
  )

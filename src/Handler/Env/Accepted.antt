-- ===== src/Handler/Env/Accepted.antt =====
-- src/handler.rs: which transactions `validate_env` lets through.
use dogeos_revm.Prelude.{
  ℕ, ◌≤◌, ◌<◌, ◌≡◌, ◌≢◌, ◌⊎◌, Bool, true, false, ◌&&◌, ◌||◌, not, Option, none, some, ok, leb,
  length, ◌==◌, arith,
}
use dogeos_revm.Spec.{euclid, is_enabled_in}
use dogeos_revm.Spec.Baseline.{into_eth_spec_id-eq}
use dogeos_revm.Transaction.{
  ScrollTransaction, tx_type, gas_limit, input, kind, is_create, chain_id, authorization_list_len,
  is_l1_msg,
}
use dogeos_revm.L1Block.Inputs.{is_ok}
use dogeos_revm.Handler.{Cfg, Block}
use dogeos_revm.Handler.Env.{
  TransactionType, legacy, eip4844, eip7702, custom_type, Validation, validate_header,
  validate_chain_id, validate_gas_cap, validate_type, validate_limits, validate_tx_env,
  validate_env, is_none,
}

abbrev some_is : ℕ → Option ℕ → Bool
some_is n none = false
some_is n (some m) = m == n

module _ (v : Validation) (cfg : Cfg) (block : Block) (tx : ScrollTransaction) where
  abbrev type_of : TransactionType
  type_of = v.transaction_type (tx_type tx)

  -- What holds of an accepted transaction.
  pub record IsAcceptable : Type 0 where
    pub prevrandao_set : block.prevrandao ≢ none
    pub chain_matches :
        (cfg.tx_chain_id_check ≡ false)
        ⊎ (chain_id tx ≡ some cfg.chain_id)
        ⊎ ((chain_id tx ≡ none) × ((type_of ≡ legacy) ⊎ (type_of ≡ custom_type)))
    pub within_cap : (is_l1_msg tx ≡ true) ⊎ (gas_limit tx ≤ cfg.tx_gas_limit_cap)
    pub no_blobs : type_of ≢ eip4844
    pub set_code :
        (type_of ≢ eip7702)
        ⊎ ((is_enabled_in cfg.spec euclid ≡ true) × (0 < authorization_list_len tx))
    pub custom_is_l1 : (type_of ≢ custom_type) ⊎ (is_l1_msg tx ≡ true)
    pub within_block : (cfg.is_block_gas_limit_disabled ≡ true) ⊎ (gas_limit tx ≤ block.gas_limit)
    pub initcode_fits : (is_create (kind tx) ≡ false) ⊎ (length (input tx) ≤ cfg.max_initcode_size)

  header_ok : validate_header v cfg block tx ≡ ok tt → block.prevrandao ≢ none
  unfolding validate_header
  header_ok h = λ e. ground (arith, into_eth_spec_id-eq v.eth_shanghai cfg.spec, v.shanghai_merge)

  chain_ok :
      validate_chain_id v cfg block tx ≡ ok tt
      → (cfg.tx_chain_id_check ≡ false)
        ⊎ (chain_id tx ≡ some cfg.chain_id)
        ⊎ ((chain_id tx ≡ none) × ((type_of ≡ legacy) ⊎ (type_of ≡ custom_type)))
  unfolding validate_chain_id
  chain_ok h = ground arith

  cap_ok :
      validate_gas_cap v cfg block tx ≡ ok tt
      → (is_l1_msg tx ≡ true) ⊎ (gas_limit tx ≤ cfg.tx_gas_limit_cap)
  unfolding validate_gas_cap
  cap_ok h = ground arith

  type_ok :
      (ty : TransactionType)
      → validate_type v cfg block tx ty ≡ ok tt
      → (ty ≢ eip4844)
        × ((ty ≢ eip7702)
            ⊎ ((is_enabled_in cfg.spec euclid ≡ true) × (0 < authorization_list_len tx)))
        × ((ty ≢ custom_type) ⊎ (is_l1_msg tx ≡ true))
  unfolding validate_type
  type_ok legacy h = ground arith
  type_ok _ h = ground (arith, into_eth_spec_id-eq v.eth_shanghai cfg.spec, v.shanghai_cancun)

  limits_ok :
      validate_limits v cfg block tx ≡ ok tt
      → ((cfg.is_block_gas_limit_disabled ≡ true) ⊎ (gas_limit tx ≤ block.gas_limit))
        × ((is_create (kind tx) ≡ false) ⊎ (length (input tx) ≤ cfg.max_initcode_size))
  unfolding validate_limits
  limits_ok h = ground (arith, into_eth_spec_id-eq v.eth_shanghai cfg.spec, v.shanghai_itself)

  -- A transaction that passes: the block has its randomness; the chain id, where it is checked, is
  -- the configured one or left out by a legacy transaction or an L1 message; the gas limit is within
  -- the transaction cap, L1 messages excepted, and within the block's; it carries no blobs, under
  -- any hardfork; a set-code transaction comes at Euclid or later with an authorization; the only
  -- custom type is the L1 message; and the init code of a creation has an admissible size.
  validate_env-IsAcceptable :
      (D : Type 0) → validate_env v cfg block tx {D = D} ≡ ok tt → IsAcceptable
  unfolding validate_env validate_tx_env
  validate_env-IsAcceptable D h =
      ground (arith, header_ok, chain_ok, cap_ok, type_ok type_of, limits_ok)

  l1_type : is_l1_msg tx ≡ true → type_of ≡ custom_type
  unfolding is_l1_msg
  l1_type h = ground (arith, v.l1_message_custom)

  -- What `validate_env` asks of an L1 message.
  abbrev pub l1_message_checks : Bool
  l1_message_checks =
      not (is_none block.prevrandao)
      && (not cfg.tx_chain_id_check || is_none (chain_id tx) || some_is cfg.chain_id (chain_id tx))
      && (cfg.is_block_gas_limit_disabled || leb (gas_limit tx) block.gas_limit)
      && (not (is_create (kind tx)) || leb (length (input tx)) cfg.max_initcode_size)

  -- An L1 message is accepted exactly when the block has its randomness, its chain id is absent or
  -- the configured one (where that is checked), its gas limit is within the block's and its init
  -- code fits. Neither the transaction gas cap nor a fee or price has a say, under any hardfork.
  pub l1_message_accepted :
      (D : Type 0)
      → is_l1_msg tx ≡ true
      → is_ok (validate_env v cfg block tx {D = D}) ≡ l1_message_checks
  unfolding validate_env validate_tx_env validate_header validate_chain_id validate_gas_cap
      validate_type validate_limits is_l1_msg
  l1_message_accepted D h = ground (
    arith,
    l1_type h,
    into_eth_spec_id-eq v.eth_shanghai cfg.spec,
    v.shanghai_merge,
    v.shanghai_cancun,
    v.shanghai_itself,
  )

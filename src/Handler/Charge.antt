-- ===== src/Handler/Charge.antt =====
-- src/handler.rs: `pre_execution`, `validate_against_state_and_deduct_caller` and `tx_l1_cost`. The
-- journal and the mainnet handler are revm's and are taken as the operations that are called.
use dogeos_revm.Prelude.{
  ℕ, Bool, true, false, not, ◌&&◌, List, Option, none, some, ltb, if◌then◌else◌, Result, ok, err,
  ok_or, map_err,
}
use dogeos_revm.Action.{Action, ◌>>=◌, ◌>>◌, pure, lift, throw_if, modify, when}
use dogeos_revm.Uint.{UintOps}
use dogeos_revm.Spec.{ScrollSpecId, euclid, tsuki_v2, is_enabled_in}
use dogeos_revm.L1Block.{L1BlockInfo}
use dogeos_revm.L1Block.Cost.{try_calculate_tx_l1_cost}
use dogeos_revm.L1Block.Fetch.{JournalReads, try_fetch_from_journal}
use dogeos_revm.Transaction.{ScrollTransaction, caller, kind, is_call, is_l1_msg, is_system_tx}
use dogeos_revm.Handler.{
  InvalidTransaction, lack_of_fund_for_max_fee, overflow_payment_in_transaction,
  reject_caller_with_code, missing_rlp_bytes, l1_fee, EvmError, transaction, database, custom, Cfg,
}
pub mod Laws
pub mod FeePaid
pub mod L1Message
pub mod SystemTx
pub mod PreExecution
pub mod Free
pub mod Confined
pub mod Cold
pub mod Unseen
pub mod FeeVerdict
pub mod Refusal
pub mod Upgrade
pub mod Upfront

-- A caller's account as loaded with its code.
pub record Code : Type 0 where
  pub is_empty : Bool
  pub is_eip7702 : Bool

pub record CallerAccount : Type 0 where
  pub balance : ℕ
  pub code : Option Code

-- revm's journal, as far as the handler calls it: `load_account_mut` answers with the balance.
pub record Journal (S D : Type 0) : Type 0 where
  pub reads : JournalReads S D
  pub load_account_mut : ℕ → Action S D ℕ
  pub load_account_with_code_mut : ℕ → Action S D CallerAccount
  pub decr_balance : ℕ → ℕ → S → S
  pub bump_nonce : ℕ → S → S
  pub touch : ℕ → S → S
  pub balance_incr : ℕ → ℕ → Action S D (Unit {0})

-- The steps of revm's mainnet handler, two steps that its `Handler` trait has by default, and a
-- default method of its `Transaction`.
pub record Mainnet (S D : Type 0) : Type 0 where
  pub validate_against_state_and_deduct_caller :
      ScrollTransaction → Action S (EvmError D) (Unit {0})
  pub load_accounts : ScrollTransaction → Action S (EvmError D) (Unit {0})
  pub apply_eip7702_auth_list : ScrollTransaction → Action S (EvmError D) ℕ
  pub max_balance_spending : ScrollTransaction → Result InvalidTransaction ℕ

-- The part of the context that the handler changes: the journal, and the chain's L1 values.
pub record Context (S : Type 0) : Type 0 where
  pub journal : S
  pub l1_block_info : L1BlockInfo

-- `tx_l1_cost`
unfoldable pub tx_l1_cost :
    {D : Type 0} → UintOps → L1BlockInfo → ScrollTransaction → ScrollSpecId → Result (EvmError D) ℕ
tx_l1_cost u info tx spec = elim tx.rlp_bytes [
  | none ↦ err (custom missing_rlp_bytes)
  | some rlp_bytes ↦
      map_err (λ e. custom (l1_fee e))
        (try_calculate_tx_l1_cost u info rlp_bytes spec tx.compression_ratio tx.compressed_size)
]

-- `caller_account.code().map(|b| !b.is_empty() && !b.is_eip7702()).unwrap_or(false)`
abbrev pub has_deployed_code : Option Code → Bool
has_deployed_code none = false
has_deployed_code (some b) = not b.is_empty && not b.is_eip7702

-- A call on the journal; the database's error becomes the handler's.
abbrev pub journaled : {S D A : Type 0} → Action S D A → Action (Context S) (EvmError D) A
journaled m c = let (r, s) = m c.journal in (map_err database r, record c { journal = s })

-- A step of the mainnet handler.
abbrev pub mainnet_step :
    {S D A : Type 0} → Action S (EvmError D) A → Action (Context S) (EvmError D) A
mainnet_step m c = let (r, s) = m c.journal in (r, record c { journal = s })

abbrev pub change : {S D : Type 0} → (S → S) → Action (Context S) (EvmError D) (Unit {0})
change f c = (ok tt, record c { journal = f c.journal })

module _ {S D : Type 0} (u : UintOps) (j : Journal S D) (mainnet : Mainnet S D) (cfg : Cfg)
    (tx : ScrollTransaction) where
  abbrev Step : Type 0
  Step = Action (Context S) (EvmError D) (Unit {0})

  -- `!is_l1_msg && !is_system_tx`
  unfoldable pub is_fee_charged : Bool
  unfolding is_l1_msg is_system_tx
  is_fee_charged = not (is_l1_msg tx) && not (is_system_tx tx)

  abbrev pub context_l1_cost : Action (Context S) (EvmError D) ℕ
  context_l1_cost c = (tx_l1_cost u c.l1_block_info tx cfg.spec, c)

  -- before TsukiV2: the L1 fee against the balance that is left
  unfoldable pub charge_l1_fee : Step
  charge_l1_fee = do
    cost ← context_l1_cost
    balance ← journaled (j.load_account_mut (caller tx))
    throw_if (ltb balance cost) (transaction (lack_of_fund_for_max_fee cost balance))
    change (j.decr_balance (caller tx) cost)

  unfoldable pub deduct_before_tsuki_v2 : Step
  deduct_before_tsuki_v2 = do
    when (not (is_l1_msg tx)) (mainnet_step (mainnet.validate_against_state_and_deduct_caller tx))
    when is_fee_charged charge_l1_fee

  -- from TsukiV2: the whole spending against the balance before any deduction; the L1 fee
  unfoldable pub check_total_spending : Action (Context S) (EvmError D) ℕ
  check_total_spending = do
    balance ← journaled (j.load_account_mut (caller tx))
    cost ← context_l1_cost
    spending ← lift (map_err transaction (mainnet.max_balance_spending tx))
    required ←
        lift (ok_or (u.checked_add spending cost) (transaction overflow_payment_in_transaction))
    throw_if (ltb balance required) (transaction (lack_of_fund_for_max_fee required balance))
    pure cost

  unfoldable pub deduct_l1_fee : ℕ → Step
  deduct_l1_fee cost = do
    _ ← journaled (j.load_account_mut (caller tx))
    change (j.decr_balance (caller tx) cost)

  unfoldable pub deduct_from_tsuki_v2 : Step
  deduct_from_tsuki_v2 = do
    cost ← (if is_fee_charged then check_total_spending else pure 0)
    when (not (is_l1_msg tx)) (mainnet_step (mainnet.validate_against_state_and_deduct_caller tx))
    when is_fee_charged (deduct_l1_fee cost)

  abbrev deduct : Step
  deduct =
      if not (is_enabled_in cfg.spec tsuki_v2) then deduct_before_tsuki_v2 else deduct_from_tsuki_v2

  -- the checks of an L1 message
  unfoldable pub check_l1_msg_balance : CallerAccount → Step
  check_l1_msg_balance account = do
    spending ← lift (map_err transaction (mainnet.max_balance_spending tx))
    throw_if (ltb account.balance spending)
        (transaction (lack_of_fund_for_max_fee spending account.balance))

  unfoldable pub l1_msg_checks : Step
  l1_msg_checks = do
    account ← journaled (j.load_account_with_code_mut (caller tx))
    when (not (is_l1_msg tx && is_enabled_in cfg.spec euclid)) (check_l1_msg_balance account)
    throw_if (not cfg.is_eip3607_disabled && has_deployed_code account.code)
        (transaction reject_caller_with_code)
    when (is_call (kind tx)) (change (j.bump_nonce (caller tx)))
    change (j.touch (caller tx))

  -- `validate_against_state_and_deduct_caller`
  unfoldable pub validate_against_state_and_deduct_caller : Step
  validate_against_state_and_deduct_caller = do deduct; when (is_l1_msg tx) l1_msg_checks

  -- the hook of `pre_execution`: fresh L1 values
  unfoldable pub refresh_l1_block_info : Step
  refresh_l1_block_info c =
      let (r, s) = try_fetch_from_journal u j.reads cfg.spec c.journal in
      elim r [
        | ok info ↦ (ok tt, record { journal = s; l1_block_info = info })
        | err e ↦ (err (database e), record c { journal = s })
      ]

  -- `pre_execution`
  unfoldable pub pre_execution : Action (Context S) (EvmError D) ℕ
  pre_execution = do
    when is_fee_charged refresh_l1_block_info
    validate_against_state_and_deduct_caller
    mainnet_step (mainnet.load_accounts tx)
    mainnet_step (mainnet.apply_eip7702_auth_list tx)

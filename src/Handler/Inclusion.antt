-- ===== src/Handler/Inclusion.antt =====
-- src/handler.rs: an L1 message through all the hooks of a transaction. L1 messages are enqueued on
-- L1, and a block has to take them in: no hook may refuse one for what its sender holds.
use dogeos_revm.Prelude.{ℕ, ◌≤◌, ◌≡◌, ◌&&◌, not, true, false, if◌then◌else◌, ok, arith, inl, inr}
use dogeos_revm.Uint.{UintOps}
use dogeos_revm.Spec.{euclid, feynman, is_enabled_in}
use dogeos_revm.Transaction.{ScrollTransaction, caller, gas_limit, is_l1_msg}
use dogeos_revm.Handler.{Cfg, Block}
use dogeos_revm.Handler.Env.{Validation, validate_env}
use dogeos_revm.Handler.Env.Accepted.{l1_message_checks, l1_message_accepted}
use dogeos_revm.Handler.InitialGas.{
  InitialTxGas, InitialAndFloorGas, configured_gas, validate_initial_tx_gas,
}
use dogeos_revm.Handler.InitialGas.Floor.{validate_initial_tx_gas_cases}
use dogeos_revm.Handler.Charge.{
  Journal, Mainnet, Context, CallerAccount, has_deployed_code, is_fee_charged,
  validate_against_state_and_deduct_caller, pre_execution,
}
use dogeos_revm.Handler.Charge.L1Message.{l1_message_outcome}
use dogeos_revm.Handler.Outcome.{
  GasOps, FrameResult, PostMainnet, eip7623_check_gas_floor, refund, reimburse_caller,
  reward_beneficiary,
}
use dogeos_revm.Handler.Outcome.Reward.{l1_message_settles_nothing}

-- revm's two steps over a database that answers.
pub record DatabaseAnswers {S D : Type 0} (m : Mainnet S D) (tx : ScrollTransaction) : Type 0 where
  pub accounts_load : (s : S) → (m.load_accounts tx s).0 ≡ ok tt
  pub refund : S → ℕ
  pub authorities_load : (s : S) → (m.apply_eip7702_auth_list tx s).0 ≡ ok (refund s)

module _ {S D : Type 0} (u : UintOps) (j : Journal S D) (mainnet : Mainnet S D) (cfg : Cfg)
    (tx : ScrollTransaction) where
  l1_message_pre_execution :
      DatabaseAnswers mainnet tx
      → (c : Context S) (account : CallerAccount) → is_l1_msg tx ≡ true
      → is_enabled_in cfg.spec euclid ≡ true
      → (j.load_account_with_code_mut (caller tx) c.journal).0 ≡ ok account
      → has_deployed_code account.code ≡ false
      → (refund : ℕ) × ((pre_execution u j mainnet cfg tx c).0 ≡ ok refund)
  unfolding pre_execution is_fee_charged
  l1_message_pre_execution answers c account h euclid_on loaded no_code =
      let validated = validate_against_state_and_deduct_caller u j mainnet cfg tx c in
      let s = (mainnet.load_accounts tx validated.1.journal).1 in
      (
        answers.refund s,
        ground (
          arith,
          l1_message_outcome u j mainnet cfg tx c h euclid_on,
          answers.accounts_load validated.1.journal,
          answers.authorities_load s,
        ),
      )

  module _ (v : Validation) (initial_tx_gas : InitialTxGas) (block : Block) (g : GasOps)
      {Rest SpecId ResultGas Exec : Type 0}
      (post : PostMainnet S D g.Gas g.I64 Rest SpecId ResultGas Exec) where
    -- From Euclid no hook refuses an L1 message for what its sender holds. Let its chain id, block gas
    -- limit and init code be admissible and its gas limit cover the initial gas and the floor; let
    -- its sender's account hold no deployed code, and the database answer. Then `validate_env`,
    -- `validate_initial_tx_gas` and `pre_execution` succeed, whatever the balances are and the oracle
    -- holds, and after any execution the gas floor, the refund, the caller's reimbursement and the
    -- beneficiary's reward succeed and change neither frame nor context.
    pub l1_message_included :
        DatabaseAnswers mainnet tx
        → (c after : Context S) (frame : FrameResult g.Gas Rest) (account : CallerAccount)
          (gas : InitialAndFloorGas) (r : g.I64)
        → is_l1_msg tx ≡ true
        → is_enabled_in cfg.spec euclid ≡ true
        → l1_message_checks v cfg block tx ≡ true
        → let configured = configured_gas initial_tx_gas cfg tx in
          configured.initial_gas ≤ gas_limit tx
          → (if not cfg.is_eip7623_disabled && is_enabled_in cfg.spec feynman
              then configured.floor_gas
              else 0)
            ≤ gas_limit tx
          → (j.load_account_with_code_mut (caller tx) c.journal).0 ≡ ok account
          → has_deployed_code account.code ≡ false
          → (validate_env v cfg block tx {D = D} ≡ ok tt)
            × ((gas' : InitialAndFloorGas) × (validate_initial_tx_gas initial_tx_gas cfg tx
                  ≡ ok gas'))
            × ((auth_refund : ℕ) × ((pre_execution u j mainnet cfg tx c).0 ≡ ok auth_refund))
            × (eip7623_check_gas_floor u j g post cfg block tx frame gas ≡ frame)
            × (refund u j g post cfg block tx frame r ≡ frame)
            × (reimburse_caller u j g post cfg block tx frame after ≡ (ok tt, after))
            × (reward_beneficiary u j g post cfg block tx frame after ≡ (ok tt, after))
    l1_message_included answers c after frame account gas r h euclid_on checks initial floor loaded
          no_code =
        let (floor_kept, refund_kept, reimbursed, rewarded) =
          l1_message_settles_nothing u j g post cfg block tx frame gas r after h in
        (
          ground (arith, l1_message_accepted v cfg block tx D h),
          elim (validate_initial_tx_gas_cases initial_tx_gas cfg tx) [
            | inl (_, _, e) ↦ (_, e)
            | inr (inl (short, _)) ↦ absurd (omega arith)
            | inr (inr (_, short, _, _)) ↦ absurd (omega arith)
          ],
          l1_message_pre_execution answers c account h euclid_on loaded no_code,
          floor_kept,
          refund_kept,
          reimbursed,
          rewarded,
        )

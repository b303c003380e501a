-- ===== src/Handler/Charge/L1Message.antt =====
-- src/handler.rs: L1 messages are charged nothing before execution, and system transactions no
-- L1 fee; and the check of TsukiV2 that comes before any deduction.
use dogeos_revm.Prelude.{
  ℕ, ◌&&◌, ◌+◌, ◌<◌, ◌≡◌, true, false, not, ok, err, leb, if◌then◌else◌, arith, Result,
}
use dogeos_revm.Uint.{UintOps, u256_max}
use dogeos_revm.Spec.{euclid, tsuki_v2, is_enabled_in}
use dogeos_revm.Transaction.{ScrollTransaction, caller, is_l1_msg, is_system_tx}
use dogeos_revm.Handler.{
  EvmError, Cfg, transaction, database, lack_of_fund_for_max_fee, overflow_payment_in_transaction,
  reject_caller_with_code,
}
use dogeos_revm.Handler.Charge.{
  Journal, Mainnet, Context, CallerAccount, tx_l1_cost, is_fee_charged, has_deployed_code,
  deduct_before_tsuki_v2, check_total_spending, deduct_from_tsuki_v2, check_l1_msg_balance,
  l1_msg_checks, validate_against_state_and_deduct_caller,
}
use dogeos_revm.Handler.Charge.Laws.{CallerLaws}

module _ {S D : Type 0} (u : UintOps) (j : Journal S D) (mainnet : Mainnet S D) (cfg : Cfg)
    (tx : ScrollTransaction) where
  abbrev pub validate : Context S → Result (EvmError D) (Unit {0}) × Context S
  validate = validate_against_state_and_deduct_caller u j mainnet cfg tx

  before_skips :
      (c : Context S)
      → is_l1_msg tx ≡ true
      → deduct_before_tsuki_v2 u j mainnet cfg tx c ≡ (ok tt, c)
  unfolding deduct_before_tsuki_v2 is_fee_charged
  before_skips c h = ground arith

  from_skips :
      (c : Context S) → is_l1_msg tx ≡ true → deduct_from_tsuki_v2 u j mainnet cfg tx c ≡ (ok tt, c)
  unfolding deduct_from_tsuki_v2 is_fee_charged
  from_skips c h = ground arith

  -- An L1 message skips every deduction, under every hardfork.
  pub l1_message_skips :
      (c : Context S) → is_l1_msg tx ≡ true → validate c ≡ l1_msg_checks u j mainnet cfg tx c
  unfolding validate_against_state_and_deduct_caller
  l1_message_skips c h = ground (arith, before_skips c h, from_skips c h)

  abbrev pub sender_verdict : Result D CallerAccount → Result (EvmError D) (Unit {0})
  sender_verdict (err d) = err (database d)
  sender_verdict (ok account) =
      if not cfg.is_eip3607_disabled && has_deployed_code account.code
      then err (transaction reject_caller_with_code)
      else ok tt

  pub l1_message_outcome :
      (c : Context S)
      → is_l1_msg tx ≡ true
      → is_enabled_in cfg.spec euclid ≡ true
      → (validate c).0 ≡ sender_verdict (j.load_account_with_code_mut (caller tx) c.journal).0
  unfolding l1_msg_checks
  l1_message_outcome c h euclid_on = ground (arith, l1_message_skips c h)

  -- No L1 message, accepted or not, changes a balance before it is executed.
  pub l1_message_free :
      (balance : S → ℕ → ℕ)
      → CallerLaws j balance
      → (c : Context S) → is_l1_msg tx ≡ true
      → (a : ℕ) → balance (validate c).1.journal a ≡ balance c.journal a
  unfolding l1_msg_checks check_l1_msg_balance
  l1_message_free balance laws c h a =
      let s = (j.load_account_with_code_mut (caller tx) c.journal).1 in
      ground (
        arith,
        l1_message_skips c h,
        laws.load_with_code_keeps (caller tx) c.journal a,
        laws.bump_nonce_keeps (caller tx) s a,
        laws.touch_keeps (caller tx) s a,
        laws.touch_keeps (caller tx) (j.bump_nonce (caller tx) s) a,
      )

  -- From TsukiV2 a fee-charged transaction whose caller does not hold the maximal spending and the
  -- L1 fee together is refused with both numbers, and one whose sum overflows 256 bits with the
  -- overflow: in either case before any deduction, so only the caller's account has been loaded.
  short_of_funds :
      (c : Context S) (held cost spending : ℕ)
      → is_l1_msg tx ≡ false
      → is_system_tx tx ≡ false
      → is_enabled_in cfg.spec tsuki_v2 ≡ true
      → (j.load_account_mut (caller tx) c.journal).0 ≡ ok held
      → tx_l1_cost {D = D} u c.l1_block_info tx cfg.spec ≡ ok cost
      → mainnet.max_balance_spending tx ≡ ok spending
      → held < spending + cost
      → validate c ≡ (
        err (
            transaction (
              if leb (spending + cost) u256_max
              then lack_of_fund_for_max_fee (spending + cost) held
              else overflow_payment_in_transaction)),
        record c { journal = (j.load_account_mut (caller tx) c.journal).1 },
      )
  unfolding validate_against_state_and_deduct_caller deduct_from_tsuki_v2 is_fee_charged
      check_total_spending
  short_of_funds c held cost spending not_l1 not_system late h e f short =
      ground (arith, u.checked_add_eq spending cost)

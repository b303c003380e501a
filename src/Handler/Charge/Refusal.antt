-- ===== src/Handler/Charge/Refusal.antt =====
-- src/handler.rs: from TsukiV2 a refusal comes before anything is taken, whatever the kind of the
-- transaction.
use dogeos_revm.Prelude.{ℕ, ◌≡◌, true, false, ok, err, arith, Result-cases, Bool-cases, inl, inr}
use dogeos_revm.Uint.{UintOps}
use dogeos_revm.Spec.{tsuki_v2, is_enabled_in}
use dogeos_revm.Transaction.{ScrollTransaction, caller, is_l1_msg}
use dogeos_revm.Handler.{EvmError, Cfg}
use dogeos_revm.Handler.Charge.L1Message.{l1_message_skips}
use dogeos_revm.Handler.Charge.{
  Journal, Mainnet, Context, is_fee_charged, check_total_spending, deduct_l1_fee,
  deduct_from_tsuki_v2, check_l1_msg_balance, l1_msg_checks,
  validate_against_state_and_deduct_caller,
}

-- Something of the journal, such as a balance or a nonce, that loading an account leaves alone,
-- whether the load answers or fails, and the mainnet step too where it refuses. The journal keeps
-- what it has loaded: a caller's account that has been loaded answers again after the mainnet step.
pub record RefusalLaws {S D O : Type 0} (j : Journal S D) (m : Mainnet S D) (observe : S → O)
    : Type 0 where
  pub reload_answers :
      (tx : ScrollTransaction) (s : S) (n : ℕ)
      → (j.load_account_mut (caller tx) s).0 ≡ ok n
      → let passed =
          m.validate_against_state_and_deduct_caller tx (j.load_account_mut (caller tx) s).1 in
        passed.0 ≡ ok tt → (n' : ℕ) × ((j.load_account_mut (caller tx) passed.1).0 ≡ ok n')
  pub load_keeps : (a : ℕ) (s : S) → observe (j.load_account_mut a s).1 ≡ observe s
  pub load_with_code_keeps :
      (a : ℕ) (s : S) → observe (j.load_account_with_code_mut a s).1 ≡ observe s
  pub refusal_keeps :
      (tx : ScrollTransaction) (s : S) (e : EvmError D)
      → (m.validate_against_state_and_deduct_caller tx s).0 ≡ err e
      → observe (m.validate_against_state_and_deduct_caller tx s).1 ≡ observe s

module _ {S D O : Type 0} (u : UintOps) (j : Journal S D) (mainnet : Mainnet S D) (cfg : Cfg)
    (tx : ScrollTransaction) (observe : S → O) (laws : RefusalLaws j mainnet observe) where
  check_total_spending_keeps :
      (c : Context S)
      → observe (check_total_spending u j mainnet cfg tx c).1.journal ≡ observe c.journal
  unfolding check_total_spending
  check_total_spending_keeps c = ground (arith, laws.load_keeps (caller tx) c.journal)

  check_total_spending-loads :
      (c : Context S) (cost : ℕ)
      → (check_total_spending u j mainnet cfg tx c).0 ≡ ok cost
      → (n : ℕ) × ((j.load_account_mut (caller tx) c.journal).0 ≡ ok n)
        × ((check_total_spending u j mainnet cfg tx c).1.journal
            ≡ (j.load_account_mut (caller tx) c.journal).1)
  unfolding check_total_spending
  check_total_spending-loads c cost h =
      elim (Result-cases (j.load_account_mut (caller tx) c.journal).0) [
        | inl (n, e) ↦ (n, e, ground arith)
        | inr (d, e) ↦ absurd (ground arith)
      ]

  deduct_refused :
      (c : Context S) (e : EvmError D)
      → (deduct_from_tsuki_v2 u j mainnet cfg tx c).0 ≡ err e
      → observe (deduct_from_tsuki_v2 u j mainnet cfg tx c).1.journal ≡ observe c.journal
  unfolding deduct_from_tsuki_v2 deduct_l1_fee
  deduct_refused c e h =
      let checked = check_total_spending u j mainnet cfg tx c in
      let kept = check_total_spending_keeps c in
      let late = mainnet.validate_against_state_and_deduct_caller tx checked.1.journal in
      let plain = mainnet.validate_against_state_and_deduct_caller tx c.journal in
      elim (Bool-cases (is_fee_charged u j mainnet cfg tx)) [
        | inr free ↦ elim (Result-cases plain.0) [
          | inl (_, f) ↦ ground arith
          | inr (d, f) ↦ ground (arith, laws.refusal_keeps tx c.journal d f)
        ]
        | inl charged ↦
            let not_l1 : is_l1_msg tx ≡ false = unfold is_fee_charged in ground arith in
            elim (Result-cases checked.0) [
              | inr (d, f) ↦ ground (arith, kept)
              | inl (cost, f) ↦ elim (Result-cases late.0) [
                | inr (d, k) ↦ ground (arith, kept, laws.refusal_keeps tx checked.1.journal d k)
                | inl (_, k) ↦
                    let (n, loaded, same) = check_total_spending-loads c cost f in
                    let (n', answered) = laws.reload_answers tx c.journal n loaded (ground arith) in
                    absurd (ground arith)
              ]
            ]
      ]

  l1_msg_refused :
      (c : Context S) (e : EvmError D)
      → (l1_msg_checks u j mainnet cfg tx c).0 ≡ err e
      → observe (l1_msg_checks u j mainnet cfg tx c).1.journal ≡ observe c.journal
  unfolding l1_msg_checks check_l1_msg_balance
  l1_msg_refused c e h = ground (arith, laws.load_with_code_keeps (caller tx) c.journal)

  -- From TsukiV2 a transaction of any kind that the charging refuses, for its own funds, for the
  -- caller's code, by revm's checks, by the calculation of the fee or because the database fails to
  -- load the caller, leaves alone each observation that loads and revm's own refusals leave alone,
  -- such as a balance or a nonce, where an account once loaded answers again.
  pub refused_unchanged :
      (c : Context S) (e : EvmError D)
      → is_enabled_in cfg.spec tsuki_v2 ≡ true
      → (validate_against_state_and_deduct_caller u j mainnet cfg tx c).0 ≡ err e
      → observe (validate_against_state_and_deduct_caller u j mainnet cfg tx c).1.journal
        ≡ observe c.journal
  unfolding validate_against_state_and_deduct_caller
  refused_unchanged c e late h = elim (Bool-cases (is_l1_msg tx)) [
    | inl message ↦
        let skips = l1_message_skips u j mainnet cfg tx c message in
        ground (arith, skips, l1_msg_refused c e (ground (arith, skips)))
    | inr other ↦ ground (arith, deduct_refused c e)
  ]

-- ===== src/Handler/Charge/FeeVerdict.antt =====
-- src/handler.rs: which error the charging of a fee-charged transaction ends with.
use dogeos_revm.Prelude.{
  ℕ, ◌+◌, ◌-◌, ◌≡◌, true, false, ok, ltb, if◌then◌else◌, arith, Result, Result-cases, inl, inr,
  ◌>>=◌, ◌>>◌, fail_if, map_err,
}
use dogeos_revm.Uint.{UintOps, u256_max}
use dogeos_revm.Spec.{tsuki_v2, is_enabled_in}
use dogeos_revm.Transaction.{ScrollTransaction, caller, is_l1_msg, is_system_tx}
use dogeos_revm.Handler.{
  InvalidTransaction, EvmError, Cfg, transaction, lack_of_fund_for_max_fee,
  overflow_payment_in_transaction,
}
use dogeos_revm.Handler.Charge.{
  Journal, Mainnet, Context, tx_l1_cost, is_fee_charged, charge_l1_fee, deduct_before_tsuki_v2,
  check_total_spending, deduct_l1_fee, deduct_from_tsuki_v2,
  validate_against_state_and_deduct_caller,
}
use dogeos_revm.Handler.Charge.Laws.{CallerLaws, MainnetLaws}

module _ {D : Type 0} where
  -- Before TsukiV2: revm's own verdict first, then the L1 fee against what is left.
  abbrev pub early_verdict :
      Result (EvmError D) (Unit {0}) → Result (EvmError D) ℕ → ℕ → Result (EvmError D) (Unit {0})
  early_verdict mainnet l1_cost left = do
    mainnet
    cost ← l1_cost
    fail_if (ltb left cost) (transaction (lack_of_fund_for_max_fee cost left))

  -- From TsukiV2: the L1 fee first, then all of the spending against all that is held, and revm's
  -- own verdict last.
  abbrev pub late_verdict :
      Result (EvmError D) ℕ
      → Result InvalidTransaction ℕ
      → ℕ
      → Result (EvmError D) (Unit {0})
      → Result (EvmError D) (Unit {0})
  late_verdict l1_cost max_spending held mainnet = do
    cost ← l1_cost
    spending ← map_err transaction max_spending
    fail_if (ltb u256_max (spending + cost)) (transaction overflow_payment_in_transaction)
    fail_if (ltb held (spending + cost))
        (transaction (lack_of_fund_for_max_fee (spending + cost) held))
    mainnet

module _ {S D : Type 0} (u : UintOps) (j : Journal S D) (mainnet : Mainnet S D) (cfg : Cfg)
    (tx : ScrollTransaction) (balance : S → ℕ → ℕ) (laws : CallerLaws j balance)
    (main : MainnetLaws mainnet balance)
    (answers : (a : ℕ) (s : S) → (j.load_account_mut a s).0 ≡ ok (balance s a)) where
  abbrev payer : ℕ
  payer = caller tx

  abbrev cost_of : Context S → Result (EvmError D) ℕ
  cost_of c = tx_l1_cost u c.l1_block_info tx cfg.spec

  -- What the mainnet step answers.
  abbrev pub mainnet_verdict : S → Result (EvmError D) (Unit {0})
  mainnet_verdict s = (mainnet.validate_against_state_and_deduct_caller tx s).0

  early :
      (c : Context S)
      → is_l1_msg tx ≡ false
      → is_fee_charged u j mainnet cfg tx ≡ true
      → (deduct_before_tsuki_v2 u j mainnet cfg tx c).0
        ≡ early_verdict
            (mainnet_verdict c.journal)
            (cost_of c)
            (balance c.journal payer - main.deduction tx)
  unfolding deduct_before_tsuki_v2 charge_l1_fee
  early c not_l1 fee =
      let s = (mainnet.validate_against_state_and_deduct_caller tx c.journal).1 in
      elim (Result-cases (mainnet_verdict c.journal)) [
        | inr (e, f) ↦ ground arith
        | inl (_, f) ↦ ground (arith, answers payer s, main.deducts tx c.journal f payer)
      ]

  late :
      (c : Context S)
      → is_l1_msg tx ≡ false
      → is_fee_charged u j mainnet cfg tx ≡ true
      → (deduct_from_tsuki_v2 u j mainnet cfg tx c).0
        ≡ late_verdict
            (cost_of c)
            (mainnet.max_balance_spending tx)
            (balance c.journal payer)
            (mainnet_verdict (j.load_account_mut payer c.journal).1)
  unfolding deduct_from_tsuki_v2 check_total_spending deduct_l1_fee
  late c not_l1 fee =
      let t = (j.load_account_mut payer c.journal).1 in
      let s = (mainnet.validate_against_state_and_deduct_caller tx t).1 in
      elim (Result-cases (cost_of c)) [
        | inr (e, f) ↦ ground (arith, answers payer c.journal)
        | inl (cost, e) ↦ elim (Result-cases (mainnet.max_balance_spending tx)) [
          | inr (d, f) ↦ ground (arith, answers payer c.journal)
          | inl (spending, f) ↦
              ground
                (arith, answers payer c.journal, answers payer s, u.checked_add_eq spending cost)
        ]
      ]

  -- How the charging of a fee-charged transaction ends, where the journal's loads answer with the
  -- balance. Before TsukiV2 with revm's own error, or else the error of the L1 fee's calculation, or
  -- else with the fee and what the caller has left if that is less than the fee. From TsukiV2 with
  -- the error of the L1 fee's calculation, or else that of the maximal spending, or else the
  -- overflow of their sum, or else with the sum and what the caller holds if that is less, or else
  -- with revm's own error. In all other cases it passes.
  pub fee_charged_verdict :
      (c : Context S)
      → is_l1_msg tx ≡ false
      → is_system_tx tx ≡ false
      → (validate_against_state_and_deduct_caller u j mainnet cfg tx c).0 ≡ (
          if is_enabled_in cfg.spec tsuki_v2
          then late_verdict
              (cost_of c)
              (mainnet.max_balance_spending tx)
              (balance c.journal payer)
              (mainnet_verdict (j.load_account_mut payer c.journal).1)
          else early_verdict
              (mainnet_verdict c.journal)
              (cost_of c)
              (balance c.journal payer - main.deduction tx))
  unfolding validate_against_state_and_deduct_caller
  fee_charged_verdict c not_l1 not_system =
      let fee : is_fee_charged u j mainnet cfg tx ≡ true = unfold is_fee_charged in ground arith in
      ground (arith, early c not_l1 fee, late c not_l1 fee)

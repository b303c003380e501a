-- ===== src/Handler/Charge/Upgrade.antt =====
-- src/handler.rs: what the activation of TsukiV2 changes for a fee-charged transaction.
use dogeos_revm.Prelude.{ℕ, ◌-◌, ◌≤◌, ◌≡◌, ◌∙◌, refl, sym, false, ok, err, arith, Result}
use dogeos_revm.Uint.{UintOps}
use dogeos_revm.Spec.{ScrollSpecId, tsuki, tsuki_v2, is_enabled_in}
use dogeos_revm.Transaction.{ScrollTransaction, caller, is_l1_msg, is_system_tx}
use dogeos_revm.L1Block.{L1BlockInfo}
use dogeos_revm.L1Block.Cost.{try_calculate_tx_l1_cost}
use dogeos_revm.Handler.{InvalidTransaction, EvmError, Cfg}
use dogeos_revm.Handler.Charge.{
  Journal, Mainnet, Context, tx_l1_cost, validate_against_state_and_deduct_caller,
}
use dogeos_revm.Handler.Charge.Laws.{CallerLaws, MainnetLaws}
use dogeos_revm.Handler.Charge.FeePaid.{l1_fee-Paid}
use dogeos_revm.Handler.Charge.FeeVerdict.{early_verdict, late_verdict, fee_charged_verdict}

-- The rules on their own: what passes the later one passes the earlier one, where the deduction is
-- at most the maximal spending.
late_early :
    {D : Type 0} (l1_cost : Result (EvmError D) ℕ) (spending : Result InvalidTransaction ℕ)
    (held deduction : ℕ) (mainnet : Result (EvmError D) (Unit {0}))
    → ((n : ℕ) → spending ≡ ok n → deduction ≤ n)
    → late_verdict l1_cost spending held mainnet ≡ ok tt
    → early_verdict mainnet l1_cost (held - deduction) ≡ ok tt
late_early (err e) spending held deduction mainnet bounded passed = absurd (ground arith)
late_early (ok cost) (err e) held deduction mainnet bounded passed = absurd (ground arith)
late_early (ok cost) (ok n) held deduction (err e) bounded passed = absurd (ground arith)
late_early (ok cost) (ok n) held deduction (ok _) bounded passed = ground (arith, bounded n refl)

-- Tsuki and TsukiV2 have one L1 fee.
tx_l1_cost_same :
    {D : Type 0} (u : UintOps) (info : L1BlockInfo) (tx : ScrollTransaction)
    → tx_l1_cost {D = D} u info tx tsuki ≡ tx_l1_cost u info tx tsuki_v2
unfolding tx_l1_cost try_calculate_tx_l1_cost is_enabled_in
tx_l1_cost_same u info tx = refl

abbrev pub under : ScrollSpecId → Cfg → Cfg
under spec cfg = record cfg { spec = spec }

module _ {S D : Type 0} (u : UintOps) (j : Journal S D) (mainnet : Mainnet S D) (cfg : Cfg)
    (tx : ScrollTransaction) (balance : S → ℕ → ℕ) (laws : CallerLaws j balance)
    (main : MainnetLaws mainnet balance)
    (answers : (a : ℕ) (s : S) → (j.load_account_mut a s).0 ≡ ok (balance s a)) where
  -- What the charging answers under a hardfork, and what it leaves.
  abbrev pub charging : ScrollSpecId → Context S → Result (EvmError D) (Unit {0}) × Context S
  charging spec = validate_against_state_and_deduct_caller u j mainnet (under spec cfg) tx

  passes_before :
      (c : Context S)
      → is_l1_msg tx ≡ false
      → is_system_tx tx ≡ false
      → (mainnet.validate_against_state_and_deduct_caller tx
          (j.load_account_mut (caller tx) c.journal).1).0
        ≡ (mainnet.validate_against_state_and_deduct_caller tx c.journal).0
      → (charging tsuki_v2 c).0 ≡ ok tt
      → (charging tsuki c).0 ≡ ok tt
  unfolding is_enabled_in
  passes_before c not_l1 not_system blind passed =
      let held = balance c.journal (caller tx) in
      let late =
        fee_charged_verdict u j mainnet (under tsuki_v2 cfg) tx balance laws main answers c not_l1
          not_system in
      let early =
        fee_charged_verdict u j mainnet (under tsuki cfg) tx balance laws main answers c not_l1
          not_system in
      early
      ∙ rw (tx_l1_cost_same {D = D} u c.l1_block_info tx, sym blind)
          (late_early (tx_l1_cost u c.l1_block_info tx tsuki_v2) (mainnet.max_balance_spending tx)
            held (main.deduction tx) _ (main.deduction_bounded tx) (sym late ∙ passed))

  -- TsukiV2 only narrows what is accepted: a fee-charged transaction that passes the charging under
  -- TsukiV2 passes it under Tsuki as well, from the same context, and both leave every account with
  -- the same balance. So the activation changes no charge, it only refuses more.
  pub tsuki_v2_narrows :
      (c : Context S)
      → is_l1_msg tx ≡ false
      → is_system_tx tx ≡ false
      → (mainnet.validate_against_state_and_deduct_caller tx
          (j.load_account_mut (caller tx) c.journal).1).0
        ≡ (mainnet.validate_against_state_and_deduct_caller tx c.journal).0
      → (charging tsuki_v2 c).0 ≡ ok tt
      → ((charging tsuki c).0 ≡ ok tt)
        × ((a : ℕ)
            → balance (charging tsuki_v2 c).1.journal a ≡ balance (charging tsuki c).1.journal a)
  tsuki_v2_narrows c not_l1 not_system blind passed =
      let before = passes_before c not_l1 not_system blind passed in
      let (late_cost, late_fee, _, late_pays) =
        l1_fee-Paid u j mainnet (under tsuki_v2 cfg) tx balance laws main c not_l1 not_system
          passed in
      let (early_cost, early_fee, _, early_pays) =
        l1_fee-Paid u j mainnet (under tsuki cfg) tx balance laws main c not_l1 not_system before in
      let same : early_cost ≡ late_cost =
        ground (arith, tx_l1_cost_same {D = D} u c.l1_block_info tx) in
      (before, λ a. ground (arith, late_pays a, early_pays a, same))

-- ===== src/Handler/Charge/Upfront/Before.antt =====
-- src/handler.rs: before TsukiV2, what a caller must hold to pass `pre_execution`.
use dogeos_revm.Prelude.{
  ℕ, ◌+◌, ◌-◌, ◌≡◌, ◌∙◌, false, ltb, if◌then◌else◌, ok, err, arith, Bool-cases, inl, inr,
}
use dogeos_revm.Uint.{UintOps}
use dogeos_revm.Spec.{tsuki_v2, is_enabled_in}
use dogeos_revm.L1Block.{L1BlockInfo}
use dogeos_revm.L1Block.Fetch.{try_fetch_from_journal}
use dogeos_revm.Transaction.{ScrollTransaction, caller, is_l1_msg, is_system_tx}
use dogeos_revm.Handler.{Cfg, transaction, lack_of_fund_for_max_fee}
use dogeos_revm.Handler.Charge.{Journal, Mainnet, Context, tx_l1_cost, pre_execution}
use dogeos_revm.Handler.Charge.Laws.{CallerLaws, MainnetLaws}
use dogeos_revm.Handler.Charge.FeeVerdict.{fee_charged_verdict}
use dogeos_revm.Handler.Charge.PreExecution.{QuietLaws}
use dogeos_revm.Handler.Charge.Upfront.{
  PassesUpfront, Plain, refreshed, fetch_moves_nothing, charged-PassesUpfront,
  refused-pre_execution,
}

module _ {S D : Type 0} (u : UintOps) (j : Journal S D) (mainnet : Mainnet S D) (cfg : Cfg)
    (tx : ScrollTransaction) (balance : S → ℕ → ℕ) (laws : CallerLaws j balance)
    (main : MainnetLaws mainnet balance) (quiet : QuietLaws j mainnet balance)
    (answers : (a : ℕ) (s : S) → (j.load_account_mut a s).0 ≡ ok (balance s a)) (spending : ℕ)
    (plain : Plain u j mainnet cfg tx balance spending) where
  -- Before TsukiV2 such a transaction is refused by revm where its caller does not hold the maximal
  -- spending, then for the L1 fee where what the mainnet deduction has left does not cover the fee,
  -- and passes otherwise, with the deduction and the fee paid and no other balance changed. The sum
  -- of spending and fee is never formed, so it does not overflow.
  pub pre_execution_before_tsuki_v2 :
      (c : Context S) (info : L1BlockInfo) (cost : ℕ)
      → is_l1_msg tx ≡ false
      → is_system_tx tx ≡ false
      → is_enabled_in cfg.spec tsuki_v2 ≡ false
      → (try_fetch_from_journal u j.reads cfg.spec c.journal).0 ≡ ok info
      → tx_l1_cost {D = D} u info tx cfg.spec ≡ ok cost
      → let held = balance c.journal (caller tx) in
        let left = held - main.deduction tx in
        if ltb held spending
        then (pre_execution u j mainnet cfg tx c).0
          ≡ err (transaction (lack_of_fund_for_max_fee spending held))
        else if ltb left cost
        then (pre_execution u j mainnet cfg tx c).0
          ≡ err (transaction (lack_of_fund_for_max_fee cost left))
        else PassesUpfront u j mainnet cfg tx balance (main.deduction tx + cost) c
  pre_execution_before_tsuki_v2 c info cost not_l1 not_system before fetched fee =
      let c₁ = refreshed u j mainnet cfg tx balance laws main quiet answers spending plain info c in
      let held = balance c.journal (caller tx) in
      let left = held - main.deduction tx in
      let same =
        fetch_moves_nothing u j mainnet cfg tx balance laws main quiet answers spending plain
          c.journal (caller tx) in
      let verdict =
        fee_charged_verdict u j mainnet cfg tx balance laws main answers c₁ not_l1 not_system in
      elim (Bool-cases (ltb held spending)) [
        | inl poor ↦
            let refusal = plain.refuses c₁.journal (ground (arith, same)) in
            rw poor (
              refused-pre_execution u j mainnet cfg tx balance laws main quiet answers spending
                plain c info _ not_l1 not_system fetched (verdict ∙ ground (arith, refusal, same)))
        | inr rich ↦
            let acceptance = plain.accepts c₁.journal (ground (arith, same)) in
            elim (Bool-cases (ltb left cost)) [
              | inl short ↦
                  rw (rich, short)
                    (refused-pre_execution u j mainnet cfg tx balance laws main quiet answers
                      spending plain c info _ not_l1 not_system fetched
                      (verdict ∙ ground (arith, acceptance, same)))
              | inr enough ↦
                  rw (rich, enough)
                    (charged-PassesUpfront u j mainnet cfg tx balance laws main quiet answers
                      spending plain c info cost not_l1 not_system fetched fee
                      (verdict ∙ ground (arith, acceptance, same)))
            ]
      ]

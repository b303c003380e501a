-- ===== src/Handler/Sequence/Charged.antt =====
-- src/handler.rs: what `pre_execution` has taken from the caller, for every kind of transaction.
use dogeos_revm.Prelude.{
  ℕ, ◌+◌, ◌≤◌, ◌≡◌, true, false, ok, arith, Result-cases, Bool-cases, inl, inr,
}
use dogeos_revm.Balances.{SameBalances, charged}
use dogeos_revm.Uint.{UintOps}
use dogeos_revm.Transaction.{ScrollTransaction, caller, is_l1_msg, is_system_tx}
use dogeos_revm.Handler.{Cfg, Block}
use dogeos_revm.Handler.Charge.{
  Journal, Mainnet, Context, is_fee_charged, validate_against_state_and_deduct_caller,
  pre_execution,
}
use dogeos_revm.Handler.Charge.Laws.{CallerLaws, MainnetLaws}
use dogeos_revm.Handler.Charge.L1Message.{l1_message_free}
use dogeos_revm.Handler.Charge.SystemTx.{system_tx_mainnet_only}
use dogeos_revm.Handler.Charge.PreExecution.{QuietLaws, current_fee_is_paid}
use dogeos_revm.Handler.Outcome.{GasOps, PostMainnet, rewarded_l1_cost}

module _ {S D : Type 0} (u : UintOps) (j : Journal S D) (mainnet : Mainnet S D) (cfg : Cfg)
    (tx : ScrollTransaction) (balance : S → ℕ → ℕ) (laws : CallerLaws j balance)
    (main : MainnetLaws mainnet balance) (quiet : QuietLaws j mainnet balance) where
  pub pre_execution_message :
      (c : Context S) (refund : ℕ)
      → is_l1_msg tx ≡ true
      → (pre_execution u j mainnet cfg tx c).0 ≡ ok refund
      → SameBalances balance c.journal (pre_execution u j mainnet cfg tx c).1.journal
  unfolding pre_execution is_fee_charged
  pre_execution_message c refund h passed a =
      let charging = validate_against_state_and_deduct_caller u j mainnet cfg tx c in
      let loading = mainnet.load_accounts tx charging.1.journal in
      ground (
        arith,
        l1_message_free u j mainnet cfg tx balance laws c h a,
        quiet.load_accounts_keeps tx charging.1.journal a,
        quiet.auth_list_keeps tx loading.1 a,
      )

  module _ (g : GasOps) {Rest SpecId ResultGas Exec : Type 0}
      (post : PostMainnet S D g.Gas g.I64 Rest SpecId ResultGas Exec) (block : Block) where
    -- What has been charged: the mainnet deduction and the L1 cost that the beneficiary will be
    -- rewarded with.
    pub record Charged (before after : Context S) : Type 0 where
      pub cost : ℕ
      pub rewarded : (rewarded_l1_cost u j g post cfg block tx after).0 ≡ ok cost
      pub covered : main.deduction tx + cost ≤ balance before.journal (caller tx)
      pub pays :
          (a : ℕ)
          → balance after.journal a
            ≡ charged (balance before.journal) (caller tx) (main.deduction tx + cost) a

    pre_execution_fee :
        (c : Context S) (refund : ℕ)
        → is_l1_msg tx ≡ false
        → is_system_tx tx ≡ false
        → (pre_execution u j mainnet cfg tx c).0 ≡ ok refund
        → Charged c (pre_execution u j mainnet cfg tx c).1
    unfolding rewarded_l1_cost
    pre_execution_fee c refund not_l1 not_system passed =
        let (info, cost, _, same, e, covered, pays) =
          current_fee_is_paid u j mainnet cfg tx balance laws main quiet c refund not_l1 not_system
            passed in
        record { cost = cost; rewarded = ground (arith, same, e); covered = covered; pays = pays }

    pre_execution_system :
        (c : Context S) (refund : ℕ)
        → is_l1_msg tx ≡ false
        → is_system_tx tx ≡ true
        → (pre_execution u j mainnet cfg tx c).0 ≡ ok refund
        → Charged c (pre_execution u j mainnet cfg tx c).1
    unfolding rewarded_l1_cost
    pre_execution_system c refund not_l1 system passed =
        let same = system_tx_mainnet_only u j mainnet cfg tx c not_l1 system in
        let charging = mainnet.validate_against_state_and_deduct_caller tx c.journal in
        elim (Result-cases charging.0) [
          | inr (d, f) ↦ absurd (ground (arith, same))
          | inl (_, f) ↦
              let loading = mainnet.load_accounts tx charging.1 in
              elim (Result-cases loading.0) [
                | inr (d, k) ↦ absurd (ground (arith, same))
                | inl (_, k) ↦ record {
                  cost = 0;
                  rewarded = ground arith;
                  covered = ground (arith, main.covered tx c.journal f);
                  pays = λ a. ground (
                    arith,
                    same,
                    main.deducts tx c.journal f a,
                    quiet.load_accounts_keeps tx charging.1 a,
                    quiet.auth_list_keeps tx loading.1 a,
                  );
                }
              ]
        ]

    pub pre_execution-Charged :
        (c : Context S) (refund : ℕ)
        → is_l1_msg tx ≡ false
        → (pre_execution u j mainnet cfg tx c).0 ≡ ok refund
        → Charged c (pre_execution u j mainnet cfg tx c).1
    pre_execution-Charged c refund not_l1 passed = elim (Bool-cases (is_system_tx tx)) [
      | inl system ↦ pre_execution_system c refund not_l1 system passed
      | inr not_system ↦ pre_execution_fee c refund not_l1 not_system passed
    ]

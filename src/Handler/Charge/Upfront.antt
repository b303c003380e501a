-- ===== src/Handler/Charge/Upfront.antt =====
-- src/handler.rs: from TsukiV2, what a caller must hold to pass `pre_execution`, as its tests on
-- lacking funds and on overflow assert it for single amounts.
use dogeos_revm.Prelude.{
  ℕ, ◌+◌, ◌-◌, ◌≤◌, ◌<◌, ◌≡◌, ◌∙◌, true, false, ltb, if◌then◌else◌, ok, err, refl, arith,
  Bool-cases, inl, inr,
}
use dogeos_revm.Balances.{charged}
use dogeos_revm.Uint.{UintOps, u256_max}
use dogeos_revm.Spec.{tsuki_v2, is_enabled_in}
use dogeos_revm.L1Block.{L1BlockInfo}
use dogeos_revm.L1Block.Fetch.{try_fetch_from_journal}
use dogeos_revm.L1Block.Untouched.{try_fetch_from_journal-Stays}
use dogeos_revm.Transaction.{ScrollTransaction, caller, is_l1_msg, is_system_tx}
use dogeos_revm.Handler.{
  EvmError, Cfg, InvalidTransaction, transaction, lack_of_fund_for_max_fee,
  overflow_payment_in_transaction,
}
use dogeos_revm.Handler.Charge.{
  Journal, Mainnet, Context, tx_l1_cost, validate_against_state_and_deduct_caller, pre_execution,
  refresh_l1_block_info, is_fee_charged,
}
use dogeos_revm.Handler.Charge.Laws.{CallerLaws, MainnetLaws}
use dogeos_revm.Handler.Charge.FeeVerdict.{fee_charged_verdict}
use dogeos_revm.Handler.Charge.PreExecution.{QuietLaws, current_fee_is_paid}
use dogeos_revm.Handler.Charge.Refusal.{RefusalLaws, refused_unchanged}
pub mod Before

-- The refusal of a caller who does not hold what is required.
abbrev pub underfunded : ℕ → ℕ → InvalidTransaction
underfunded required held =
    if ltb u256_max required
    then overflow_payment_in_transaction
    else lack_of_fund_for_max_fee required held

module _ {S D : Type 0} (u : UintOps) (j : Journal S D) (mainnet : Mainnet S D) (cfg : Cfg)
    (tx : ScrollTransaction) where
  -- A transaction with which nothing but its funds can be wrong: revm's step passes where the
  -- maximal spending is held and else names it with the balance, and the steps after the charging pass.
  pub record Plain (balance : S → ℕ → ℕ) (spending : ℕ) : Type 0 where
    pub spends : mainnet.max_balance_spending tx ≡ ok spending
    pub accepts :
        (s : S)
        → spending ≤ balance s (caller tx)
        → (mainnet.validate_against_state_and_deduct_caller tx s).0 ≡ ok tt
    pub refuses :
        (s : S)
        → balance s (caller tx) < spending
        → (mainnet.validate_against_state_and_deduct_caller tx s).0
          ≡ err (transaction (lack_of_fund_for_max_fee spending (balance s (caller tx))))
    pub loads : (s : S) → (mainnet.load_accounts tx s).0 ≡ ok tt
    pub authorizes : (s : S) → (gas : ℕ) × ((mainnet.apply_eip7702_auth_list tx s).0 ≡ ok gas)

  -- The assertions of `test_validate_lacking_funds` and `test_upfront_balance_overflow`: the error,
  -- and that something observed, there the balance and the nonce, is as before.
  pub record RefusesUpfront (observe : S → ℕ) (e : InvalidTransaction) (c : Context S)
      : Type 0 where
    pub refused : (pre_execution u j mainnet cfg tx c).0 ≡ err (transaction e)
    pub unchanged : observe (pre_execution u j mainnet cfg tx c).1.journal ≡ observe c.journal

  -- The assertions on a transaction that passes: what the balances are afterwards.
  pub record PassesUpfront (balance : S → ℕ → ℕ) (paid : ℕ) (c : Context S) : Type 0 where
    pub gas : ℕ
    pub passed : (pre_execution u j mainnet cfg tx c).0 ≡ ok gas
    pub charges :
        (a : ℕ)
        → balance (pre_execution u j mainnet cfg tx c).1.journal a
          ≡ charged (balance c.journal) (caller tx) paid a

  module _ (balance : S → ℕ → ℕ) (laws : CallerLaws j balance) (main : MainnetLaws mainnet balance)
      (quiet : QuietLaws j mainnet balance)
      (answers : (a : ℕ) (s : S) → (j.load_account_mut a s).0 ≡ ok (balance s a)) (spending : ℕ)
      (plain : Plain balance spending) where
    pub fetch_moves_nothing :
        (s : S) (a : ℕ) → balance (try_fetch_from_journal u j.reads cfg.spec s).1 a ≡ balance s a
    fetch_moves_nothing s a =
        let reading =
          try_fetch_from_journal-Stays {P = λ s'. balance s' a ≡ balance s a} u j.reads
            (λ slot. record { after = λ s' k. quiet.db_storage_keeps _ slot s' a ∙ k }) cfg.spec in
        reading.after s refl

    abbrev pub refreshed : L1BlockInfo → Context S → Context S
    refreshed info c = record {
      journal = (try_fetch_from_journal u j.reads cfg.spec c.journal).1;
      l1_block_info = info;
    }

    -- What the charging answers with the refreshed values.
    charging_verdict :
        (c : Context S) (info : L1BlockInfo) (cost : ℕ)
        → is_l1_msg tx ≡ false
        → is_system_tx tx ≡ false
        → is_enabled_in cfg.spec tsuki_v2 ≡ true
        → tx_l1_cost {D = D} u info tx cfg.spec ≡ ok cost
        → balance c.journal (caller tx) ≤ u256_max
        → (validate_against_state_and_deduct_caller u j mainnet cfg tx (refreshed info c)).0 ≡ (
            if ltb (balance c.journal (caller tx)) (spending + cost)
            then err (transaction (underfunded (spending + cost) (balance c.journal (caller tx))))
            else ok tt)
    charging_verdict c info cost not_l1 not_system late fee bounded =
        let c₁ = refreshed info c in
        let verdict =
          fee_charged_verdict u j mainnet cfg tx balance laws main answers c₁ not_l1 not_system in
        let same = fetch_moves_nothing c.journal (caller tx) in
        elim (Bool-cases (ltb (balance c.journal (caller tx)) (spending + cost))) [
          | inl short ↦ rw short (verdict ∙ ground (arith, plain.spends, same))
          | inr enough ↦
              let loaded = (j.load_account_mut (caller tx) c₁.journal).1 in
              let holds : spending ≤ balance loaded (caller tx) =
                ground (arith, same, laws.load_keeps (caller tx) c₁.journal (caller tx)) in
              rw enough (verdict ∙ ground (arith, plain.spends, same, plain.accepts loaded holds))
        ]

    -- Where the charging passes with the refreshed values, so does all of `pre_execution`.
    pub charged-PassesUpfront :
        (c : Context S) (info : L1BlockInfo) (cost : ℕ)
        → is_l1_msg tx ≡ false
        → is_system_tx tx ≡ false
        → (try_fetch_from_journal u j.reads cfg.spec c.journal).0 ≡ ok info
        → tx_l1_cost {D = D} u info tx cfg.spec ≡ ok cost
        → (validate_against_state_and_deduct_caller u j mainnet cfg tx (refreshed info c)).0 ≡ ok tt
        → PassesUpfront balance (main.deduction tx + cost) c
    unfolding pre_execution refresh_l1_block_info is_fee_charged
    charged-PassesUpfront c info cost not_l1 not_system fetched fee passed =
        let charging =
          validate_against_state_and_deduct_caller u j mainnet cfg tx (refreshed info c) in
        let loading = mainnet.load_accounts tx charging.1.journal in
        let (gas, authorized) = plain.authorizes loading.1 in
        let whole : (pre_execution u j mainnet cfg tx c).0 ≡ ok gas =
          ground (arith, plain.loads charging.1.journal) in
        let (info', cost', again, _, fee', _, paid) =
          current_fee_is_paid u j mainnet cfg tx balance laws main quiet c gas not_l1 not_system
            whole in
        let one_info : info' ≡ info = ground arith in
        let one_cost : cost ≡ cost' = ground (arith, one_info) in
        record { gas = gas; passed = whole; charges = λ a. rw one_cost (paid a) }

    -- Where it is refused, so is all of `pre_execution`.
    pub refused-pre_execution :
        (c : Context S) (info : L1BlockInfo) (e : EvmError D)
        → is_l1_msg tx ≡ false
        → is_system_tx tx ≡ false
        → (try_fetch_from_journal u j.reads cfg.spec c.journal).0 ≡ ok info
        → (validate_against_state_and_deduct_caller u j mainnet cfg tx (refreshed info c)).0 ≡ err e
        → (pre_execution u j mainnet cfg tx c).0 ≡ err e
    unfolding pre_execution refresh_l1_block_info is_fee_charged
    refused-pre_execution c info e not_l1 not_system fetched refused = ground arith

    module _ (observe : S → ℕ) (refusal : RefusalLaws j mainnet observe)
        (reads_keep : (a slot : ℕ) (s : S)
          → observe (j.reads.db_storage a slot s).1 ≡ observe s) where
      fetch_keeps : (s : S) → observe (try_fetch_from_journal u j.reads cfg.spec s).1 ≡ observe s
      fetch_keeps s =
          let reading =
            try_fetch_from_journal-Stays {P = λ s'. observe s' ≡ observe s} u j.reads
              (λ slot. record { after = λ s' k. reads_keep _ slot s' ∙ k }) cfg.spec in
          reading.after s refl

      -- From TsukiV2 a fee-charged transaction with which nothing else is wrong passes
      -- `pre_execution` exactly when its caller holds the maximal spending and the L1 fee that the
      -- oracle values of the moment ask for. Otherwise it is refused with the sum and the balance, or
      -- for the overflow of the sum, and nothing observed has changed; where it passes, the mainnet
      -- deduction and the fee are paid and no other balance has changed.
      pub pre_execution_upfront :
          (c : Context S) (info : L1BlockInfo) (cost : ℕ)
          → is_l1_msg tx ≡ false
          → is_system_tx tx ≡ false
          → is_enabled_in cfg.spec tsuki_v2 ≡ true
          → (try_fetch_from_journal u j.reads cfg.spec c.journal).0 ≡ ok info
          → tx_l1_cost {D = D} u info tx cfg.spec ≡ ok cost
          → balance c.journal (caller tx) ≤ u256_max
          → let held = balance c.journal (caller tx) in
            if ltb held (spending + cost)
            then RefusesUpfront observe (underfunded (spending + cost) held) c
            else PassesUpfront balance (main.deduction tx + cost) c
      unfolding pre_execution refresh_l1_block_info is_fee_charged
      pre_execution_upfront c info cost not_l1 not_system late fetched fee bounded =
          let c₁ = refreshed info c in
          let verdict = charging_verdict c info cost not_l1 not_system late fee bounded in
          let held = balance c.journal (caller tx) in
          let charging = validate_against_state_and_deduct_caller u j mainnet cfg tx c₁ in
          elim (Bool-cases (ltb held (spending + cost))) [
            | inl short ↦
                let refused : charging.0 ≡ err (transaction (underfunded (spending + cost) held)) =
                  verdict ∙ rw short in
                rw short (record {
                  refused = ground arith;
                  unchanged = ground (
                    arith,
                    fetch_keeps c.journal,
                    refused_unchanged u j mainnet cfg tx observe refusal c₁
                        (transaction (underfunded (spending + cost) held)) late refused,
                  );
                })
            | inr enough ↦
                let passed : charging.0 ≡ ok tt = verdict ∙ rw enough in
                rw enough (charged-PassesUpfront c info cost not_l1 not_system fetched fee passed)
          ]

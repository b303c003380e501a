-- ===== src/Handler/Charge/PreExecution.antt =====
-- src/handler.rs: `pre_execution` as a whole, for a fee-charged transaction.
use dogeos_revm.Prelude.{ℕ, ◌+◌, ◌≤◌, ◌≡◌, ◌∙◌, refl, false, ok, arith, Result-cases, inl, inr}
use dogeos_revm.Balances.{SameBalances, charged}
use dogeos_revm.Uint.{UintOps}
use dogeos_revm.L1Block.{L1BlockInfo}
use dogeos_revm.L1Block.Untouched.{try_fetch_from_journal-Stays}
use dogeos_revm.L1Block.Fetch.{try_fetch_from_journal}
use dogeos_revm.Transaction.{ScrollTransaction, caller, is_l1_msg, is_system_tx}
use dogeos_revm.Handler.{Cfg}
use dogeos_revm.Handler.Charge.{
  Journal, Mainnet, Context, tx_l1_cost, is_fee_charged, charge_l1_fee, deduct_before_tsuki_v2,
  check_total_spending, deduct_l1_fee, deduct_from_tsuki_v2,
  validate_against_state_and_deduct_caller, refresh_l1_block_info, pre_execution,
}
use dogeos_revm.Handler.Charge.Laws.{CallerLaws, MainnetLaws}
use dogeos_revm.Handler.Charge.FeePaid.{l1_fee-Paid}

-- The remaining steps move no balance: reading a slot from the database, loading the accounts of
-- the access list, and setting codes and nonces by an authorization list.
pub record QuietLaws {S D : Type 0} (j : Journal S D) (m : Mainnet S D) (balance : S → ℕ → ℕ)
    : Type 0 where
  pub db_storage_keeps :
      (a slot : ℕ) (s : S) → SameBalances balance s (j.reads.db_storage a slot s).1
  pub load_accounts_keeps :
      (tx : ScrollTransaction) (s : S) → SameBalances balance s (m.load_accounts tx s).1
  pub auth_list_keeps :
      (tx : ScrollTransaction) (s : S) → SameBalances balance s (m.apply_eip7702_auth_list tx s).1

module _ {S D : Type 0} (u : UintOps) (j : Journal S D) (mainnet : Mainnet S D) (cfg : Cfg)
    (tx : ScrollTransaction) where
  -- The charging of a fee-charged transaction keeps the L1 values.
  before-l1_block_info :
      (c : Context S)
      → (deduct_before_tsuki_v2 u j mainnet cfg tx c).1.l1_block_info ≡ c.l1_block_info
  unfolding deduct_before_tsuki_v2 charge_l1_fee
  before-l1_block_info c = ground arith

  check-l1_block_info :
      (c : Context S)
      → (check_total_spending u j mainnet cfg tx c).1.l1_block_info ≡ c.l1_block_info
  unfolding check_total_spending
  check-l1_block_info c = ground arith

  from-l1_block_info :
      (c : Context S)
      → (deduct_from_tsuki_v2 u j mainnet cfg tx c).1.l1_block_info ≡ c.l1_block_info
  unfolding deduct_from_tsuki_v2 deduct_l1_fee
  from-l1_block_info c = ground (arith, check-l1_block_info c)

  validate-l1_block_info :
      (c : Context S)
      → is_l1_msg tx ≡ false
      → (validate_against_state_and_deduct_caller u j mainnet cfg tx c).1.l1_block_info
        ≡ c.l1_block_info
  unfolding validate_against_state_and_deduct_caller
  validate-l1_block_info c not_l1 = ground (arith, before-l1_block_info c, from-l1_block_info c)

  module _ (balance : S → ℕ → ℕ) (laws : CallerLaws j balance) (main : MainnetLaws mainnet balance)
      (quiet : QuietLaws j mainnet balance) where
    fetch_keeps : (s : S) → SameBalances balance s (try_fetch_from_journal u j.reads cfg.spec s).1
    fetch_keeps s a =
        let reading =
          try_fetch_from_journal-Stays {P = λ s'. balance s' a ≡ balance s a} u j.reads
            (λ slot. record { after = λ s' k. quiet.db_storage_keeps _ slot s' a ∙ k }) cfg.spec in
        reading.after s refl

    -- A fee-charged transaction that passes `pre_execution` pays the L1 fee of the moment: the oracle
    -- values are fetched through the journal as it stood before, they are the context's values
    -- afterwards, the fee is calculated from them, and the caller has paid the mainnet deduction and
    -- that fee, which its balance covered; no other balance has changed.
    pub current_fee_is_paid :
        (c : Context S) (gas : ℕ)
        → is_l1_msg tx ≡ false
        → is_system_tx tx ≡ false
        → (pre_execution u j mainnet cfg tx c).0 ≡ ok gas
        → let after = (pre_execution u j mainnet cfg tx c).1 in
          (info : L1BlockInfo) × (cost : ℕ) × ((try_fetch_from_journal u j.reads cfg.spec
              c.journal).0
            ≡ ok info)
          × (after.l1_block_info ≡ info)
          × (tx_l1_cost {D = D} u info tx cfg.spec ≡ ok cost)
          × (main.deduction tx + cost ≤ balance c.journal (caller tx))
          × ((a : ℕ)
              → balance after.journal a
                ≡ charged (balance c.journal) (caller tx) (main.deduction tx + cost) a)
    unfolding pre_execution refresh_l1_block_info is_fee_charged
    current_fee_is_paid c gas not_l1 not_system h =
        let fetched = try_fetch_from_journal u j.reads cfg.spec c.journal in
        elim (Result-cases (try_fetch_from_journal u j.reads cfg.spec c.journal).0) [
          | inr (d, e) ↦ absurd (ground arith)
          | inl (info, e) ↦
              let c₁ = record c { journal = fetched.1; l1_block_info = info } in
              let charging = validate_against_state_and_deduct_caller u j mainnet cfg tx c₁ in
              elim (Result-cases charging.0) [
                | inr (d, f) ↦ absurd (ground arith)
                | inl (_, f) ↦
                    let (cost, k, covered, paid) =
                      l1_fee-Paid u j mainnet cfg tx balance laws main c₁ not_l1 not_system f in
                    let loading = mainnet.load_accounts tx charging.1.journal in
                    elim (Result-cases loading.0) [
                      | inr (d, g) ↦ absurd (ground arith)
                      | inl (_, g) ↦ (
                        info,
                        cost,
                        e,
                        ground (arith, validate-l1_block_info c₁ not_l1),
                        k,
                        ground (arith, fetch_keeps c.journal (caller tx)),
                        λ a. ground (
                          arith,
                          paid a,
                          fetch_keeps c.journal a,
                          quiet.load_accounts_keeps tx charging.1.journal a,
                          quiet.auth_list_keeps tx loading.1 a,
                        ),
                      )
                    ]
              ]
        ]

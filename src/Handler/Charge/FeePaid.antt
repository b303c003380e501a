-- ===== src/Handler/Charge/FeePaid.antt =====
-- src/handler.rs: the L1 fee of a fee-charged transaction is paid in full.
use dogeos_revm.Prelude.{
  ℕ, ◌+◌, ◌≤◌, ◌≡◌, true, false, ok, arith, Result-cases, Bool-cases, inl, inr, Result,
}
use dogeos_revm.Balances.{charged}
use dogeos_revm.Uint.{UintOps}
use dogeos_revm.Spec.{tsuki_v2, is_enabled_in}
use dogeos_revm.Transaction.{ScrollTransaction, caller, is_l1_msg, is_system_tx}
use dogeos_revm.Handler.{EvmError, Cfg}
use dogeos_revm.Handler.Charge.{
  Journal, Mainnet, Context, tx_l1_cost, is_fee_charged, charge_l1_fee, deduct_before_tsuki_v2,
  check_total_spending, deduct_l1_fee, deduct_from_tsuki_v2,
  validate_against_state_and_deduct_caller,
}
use dogeos_revm.Handler.Charge.Laws.{CallerLaws, MainnetLaws}

module _ {S D : Type 0} (u : UintOps) (j : Journal S D) (mainnet : Mainnet S D) (cfg : Cfg)
    (tx : ScrollTransaction) (balance : S → ℕ → ℕ) (laws : CallerLaws j balance)
    (main : MainnetLaws mainnet balance) where
  abbrev l1_cost : Context S → Result (EvmError D) ℕ
  l1_cost c = tx_l1_cost u c.l1_block_info tx cfg.spec

  abbrev payer : ℕ
  payer = caller tx

  -- Before TsukiV2: the fee is covered by what is left, or the step fails.
  charge_l1_fee_pays :
      (c : Context S)
      → (charge_l1_fee u j mainnet cfg tx c).0 ≡ ok tt
      → (cost : ℕ) × (l1_cost c ≡ ok cost)
        × (cost ≤ balance c.journal payer)
        × ((a : ℕ)
            → balance (charge_l1_fee u j mainnet cfg tx c).1.journal a
              ≡ charged (balance c.journal) payer cost a)
  unfolding charge_l1_fee
  charge_l1_fee_pays c h = elim (Result-cases (l1_cost c)) [
    | inr (e, f) ↦ absurd (ground arith)
    | inl (cost, e) ↦ elim (Result-cases (j.load_account_mut payer c.journal).0) [
      | inr (d, f) ↦ absurd (ground arith)
      | inl (n, f) ↦
          let covered : cost ≤ balance (j.load_account_mut payer c.journal).1 payer =
            ground (
              arith,
              laws.load_reports payer c.journal n f,
              laws.load_keeps payer c.journal payer,
            ) in
          (
            cost,
            e,
            ground (arith, laws.load_keeps payer c.journal payer),
            λ a. ground (
              arith,
              laws.load_keeps payer c.journal a,
              laws.decr_balance_takes payer cost (j.load_account_mut payer c.journal).1 covered a,
            ),
          )
    ]
  ]

  -- From TsukiV2: the check leaves the balances alone and bounds all that will be deducted.
  check_total_spending_bounds :
      (c : Context S) (cost : ℕ)
      → (check_total_spending u j mainnet cfg tx c).0 ≡ ok cost
      → (l1_cost c ≡ ok cost)
        × (main.deduction tx + cost ≤ balance c.journal payer)
        × ((check_total_spending u j mainnet cfg tx c).1
            ≡ record c { journal = (j.load_account_mut payer c.journal).1 })
  unfolding check_total_spending
  check_total_spending_bounds c cost h = elim (Result-cases (l1_cost c)) [
    | inr (e, f) ↦ absurd (ground arith)
    | inl (n, e) ↦ elim (Result-cases (mainnet.max_balance_spending tx)) [
      | inr (d, f) ↦ absurd (ground arith)
      | inl (spending, f) ↦ elim (Result-cases (j.load_account_mut payer c.journal).0) [
        | inr (d, g) ↦ absurd (ground arith)
        | inl (held, g) ↦ ground (
          arith,
          laws.load_reports payer c.journal held g,
          main.deduction_bounded tx spending f,
          u.checked_add_eq spending n,
        )
      ]
    ]
  ]

  deduct_l1_fee_pays :
      (c : Context S) (cost : ℕ)
      → cost ≤ balance c.journal payer
      → (deduct_l1_fee u j mainnet cfg tx cost c).0 ≡ ok tt
      → (a : ℕ)
      → balance (deduct_l1_fee u j mainnet cfg tx cost c).1.journal a
        ≡ charged (balance c.journal) payer cost a
  unfolding deduct_l1_fee
  deduct_l1_fee_pays c cost covered h a =
      let covered' : cost ≤ balance (j.load_account_mut payer c.journal).1 payer =
        ground (arith, laws.load_keeps payer c.journal payer) in
      ground (
        arith,
        laws.load_keeps payer c.journal a,
        laws.decr_balance_takes payer cost (j.load_account_mut payer c.journal).1 covered' a,
      )

  -- What a successful step has done: the caller had at least the mainnet deduction and the L1 fee,
  -- and has paid exactly their sum; no other balance has changed.
  abbrev pub Paid : Context S → Context S → Type 0
  Paid c c' =
      (cost : ℕ) × (l1_cost c ≡ ok cost)
      × (main.deduction tx + cost ≤ balance c.journal payer)
      × ((a : ℕ)
          → balance c'.journal a ≡ charged (balance c.journal) payer (main.deduction tx + cost) a)

  deduct_before_tsuki_v2_pays :
      (c : Context S)
      → is_l1_msg tx ≡ false
      → is_fee_charged u j mainnet cfg tx ≡ true
      → (deduct_before_tsuki_v2 u j mainnet cfg tx c).0 ≡ ok tt
      → Paid c (deduct_before_tsuki_v2 u j mainnet cfg tx c).1
  unfolding deduct_before_tsuki_v2
  deduct_before_tsuki_v2_pays c not_l1 fee h =
      let s = (mainnet.validate_against_state_and_deduct_caller tx c.journal).1 in
      elim (Result-cases (mainnet.validate_against_state_and_deduct_caller tx c.journal).0) [
        | inr (e, f) ↦ absurd (ground arith)
        | inl (_, f) ↦
            let (cost, e, covered, paid) =
              charge_l1_fee_pays (record c { journal = s }) (ground arith) in
            (
              cost,
              e,
              ground (arith, main.covered tx c.journal f, main.deducts tx c.journal f payer),
              λ a. ground (
                arith,
                paid a,
                main.covered tx c.journal f,
                main.deducts tx c.journal f payer,
                main.deducts tx c.journal f a,
              ),
            )
      ]

  deduct_from_tsuki_v2_pays :
      (c : Context S)
      → is_l1_msg tx ≡ false
      → is_fee_charged u j mainnet cfg tx ≡ true
      → (deduct_from_tsuki_v2 u j mainnet cfg tx c).0 ≡ ok tt
      → Paid c (deduct_from_tsuki_v2 u j mainnet cfg tx c).1
  unfolding deduct_from_tsuki_v2
  deduct_from_tsuki_v2_pays c not_l1 fee h =
      let t = (j.load_account_mut payer c.journal).1 in
      let s = (mainnet.validate_against_state_and_deduct_caller tx t).1 in
      elim (Result-cases (check_total_spending u j mainnet cfg tx c).0) [
        | inr (e, f) ↦ absurd (ground arith)
        | inl (cost, f) ↦
            let (e, covered, loaded) = check_total_spending_bounds c cost f in
            elim (Result-cases (mainnet.validate_against_state_and_deduct_caller tx t).0) [
              | inr (e', f') ↦ absurd (ground arith)
              | inl (_, f') ↦
                  let deducted = main.deducts tx t f' in
                  let left : cost ≤ balance s payer =
                    ground (arith, deducted payer, laws.load_keeps payer c.journal payer) in
                  (
                    cost,
                    e,
                    covered,
                    λ a. ground (
                      arith,
                      deduct_l1_fee_pays (record c { journal = s }) cost left,
                      deduct_l1_fee_pays (record c { journal = s }) cost left (ground arith) a,
                      deducted payer,
                      deducted a,
                      laws.load_keeps payer c.journal payer,
                      laws.load_keeps payer c.journal a,
                    ),
                  )
            ]
      ]

  -- Under every hardfork, a transaction that is neither an L1 message nor a system transaction and
  -- that passes has paid its L1 fee in full: the caller held at least the mainnet deduction and the
  -- fee, has lost exactly their sum, and no other balance has changed. So the result of the last
  -- `decr_balance`, which the code ignores, is never a refusal.
  pub l1_fee-Paid :
      (c : Context S)
      → is_l1_msg tx ≡ false
      → is_system_tx tx ≡ false
      → (validate_against_state_and_deduct_caller u j mainnet cfg tx c).0 ≡ ok tt
      → Paid c (validate_against_state_and_deduct_caller u j mainnet cfg tx c).1
  unfolding validate_against_state_and_deduct_caller
  l1_fee-Paid c not_l1 not_system h =
      let fee : is_fee_charged u j mainnet cfg tx ≡ true = unfold is_fee_charged in ground arith in
      elim (Bool-cases (is_enabled_in cfg.spec tsuki_v2)) [
        | inl late ↦
            let (cost, e, covered, paid) = deduct_from_tsuki_v2_pays c not_l1 fee (ground arith) in
            (cost, e, covered, λ a. ground (arith, paid a))
        | inr early ↦
            let (cost, e, covered, paid) =
              deduct_before_tsuki_v2_pays c not_l1 fee (ground arith) in
            (cost, e, covered, λ a. ground (arith, paid a))
      ]

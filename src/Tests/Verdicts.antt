-- ===== src/Tests/Verdicts.antt =====
-- How the charging ends for a caller who holds too little, and before and from TsukiV2.
use dogeos_revm.Prelude.{ℕ, ◌≡◌, refl, ok, err, arith}
use dogeos_revm.Uint.{native}
use dogeos_revm.Spec.{tsuki, tsuki_v2, is_enabled_in}
use dogeos_revm.L1Block.Cost.{try_calculate_tx_l1_cost}
use dogeos_revm.Handler.{transaction, lack_of_fund_for_max_fee}
use dogeos_revm.Handler.Charge.{
  tx_l1_cost, validate_against_state_and_deduct_caller, deduct_from_tsuki_v2, is_fee_charged,
  check_total_spending, deduct_l1_fee,
}
use dogeos_revm.Handler.Charge.FeeVerdict.{fee_charged_verdict}
use dogeos_revm.Handler.Charge.Refusal.{RefusalLaws, refused_unchanged}
use dogeos_revm.Handler.Charge.Upgrade.{charging, tsuki_v2_narrows}
use dogeos_revm.Tests.Charging.{plain_not_message, plain_not_system, payment_passes}
use dogeos_revm.Tests.Ledger.{
  ledger_journal, itself, ledger_laws, flat_mainnet, mainnet_laws, tx_of, cfg_of, context_of,
}

-- A caller of 1100 owes a deduction of 1000 and a fee of 150.
fee_charged_verdict_example :
    (validate_against_state_and_deduct_caller native ledger_journal flat_mainnet
      (cfg_of tsuki_v2)
      (tx_of 2)
      (context_of 1100)).0
    ≡ err (transaction (lack_of_fund_for_max_fee 1150 1100))
unfolding is_enabled_in tx_l1_cost try_calculate_tx_l1_cost
fee_charged_verdict_example =
    fee_charged_verdict native ledger_journal flat_mainnet (cfg_of tsuki_v2) (tx_of 2) itself
      ledger_laws mainnet_laws (λ a s. refl) (context_of 1100) plain_not_message plain_not_system

-- The balance of account 1 is left alone by loads and by refusals.
refusal_laws : RefusalLaws ledger_journal flat_mainnet (λ s. s 1)
refusal_laws = record {
  reload_answers = λ tx s n e f. (_, refl);
  load_keeps = λ a s. refl;
  load_with_code_keeps = λ a s. refl;
  refusal_keeps = λ tx s e h. ground arith;
}

refused_1100 :
    (validate_against_state_and_deduct_caller native ledger_journal flat_mainnet
      (cfg_of tsuki_v2)
      (tx_of 2)
      (context_of 1100)).0
    ≡ err (transaction (lack_of_fund_for_max_fee 1150 1100))
unfolding validate_against_state_and_deduct_caller tx_l1_cost try_calculate_tx_l1_cost
    deduct_from_tsuki_v2 is_fee_charged check_total_spending deduct_l1_fee
refused_1100 = refl

refused_unchanged_example :
    (validate_against_state_and_deduct_caller native ledger_journal flat_mainnet
        (cfg_of tsuki_v2)
        (tx_of 2)
        (context_of 1100)).1.journal
      1
    ≡ 1100
unfolding is_enabled_in
refused_unchanged_example =
    refused_unchanged native ledger_journal flat_mainnet (cfg_of tsuki_v2) (tx_of 2) (λ s. s 1)
      refusal_laws (context_of 1100) (transaction (lack_of_fund_for_max_fee 1150 1100)) refl
      refused_1100

-- A caller of 2000 passes under both hardforks, and keeps 850.
tsuki_v2_narrows_example :
    ((charging native ledger_journal flat_mainnet
        (cfg_of tsuki_v2)
        (tx_of 2)
        itself
        ledger_laws
        mainnet_laws
        (λ a s. refl)
        tsuki
        (context_of 2000)).0
      ≡ ok tt)
    × ((a : ℕ)
        → (charging native ledger_journal flat_mainnet
              (cfg_of tsuki_v2)
              (tx_of 2)
              itself
              ledger_laws
              mainnet_laws
              (λ a s. refl)
              tsuki_v2
              (context_of 2000)).1.journal
            a
          ≡ (charging native ledger_journal flat_mainnet
                (cfg_of tsuki_v2)
                (tx_of 2)
                itself
                ledger_laws
                mainnet_laws
                (λ a s. refl)
                tsuki
                (context_of 2000)).1.journal
              a)
tsuki_v2_narrows_example =
    tsuki_v2_narrows native ledger_journal flat_mainnet (cfg_of tsuki_v2) (tx_of 2) itself
      ledger_laws mainnet_laws (λ a s. refl) (context_of 2000) plain_not_message plain_not_system
      refl payment_passes

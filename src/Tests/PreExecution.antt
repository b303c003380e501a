-- ===== src/Tests/PreExecution.antt =====
-- The whole of `pre_execution` at a concrete input.
use dogeos_revm.Prelude.{ℕ, ◌+◌, ◌≤◌, ◌≡◌, refl, ok}
use dogeos_revm.Balances.{SameBalances, charged}
use dogeos_revm.Uint.{native}
use dogeos_revm.Spec.{euclid, tsuki_v2}
use dogeos_revm.L1Block.{L1BlockInfo}
use dogeos_revm.L1Block.Cost.{try_calculate_tx_l1_cost}
use dogeos_revm.L1Block.Fetch.{try_fetch_from_journal}
use dogeos_revm.Handler.Charge.{
  tx_l1_cost, pre_execution, is_fee_charged, refresh_l1_block_info,
  validate_against_state_and_deduct_caller, deduct_from_tsuki_v2, check_total_spending,
  deduct_l1_fee,
}
use dogeos_revm.Handler.Charge.Free.{l1_message_pre_execution_free}
use dogeos_revm.Handler.Charge.PreExecution.{QuietLaws, current_fee_is_paid}
use dogeos_revm.Tests.Charging.{message, plain_not_message, plain_not_system}
use dogeos_revm.Tests.Ledger.{
  ledger_journal, itself, ledger_laws, flat_mainnet, mainnet_laws, tx_of, cfg_of, holding,
  context_of,
}

pub ledger_quiet : QuietLaws ledger_journal flat_mainnet itself
ledger_quiet = record {
  db_storage_keeps = λ a slot s b. refl;
  load_accounts_keeps = λ tx s a. refl;
  auth_list_keeps = λ tx s a. refl;
}

-- The fee from the database's values is 123000000036.
pre_execution_passes :
    (pre_execution native ledger_journal flat_mainnet
      (cfg_of tsuki_v2)
      (tx_of 2)
      (context_of 200_000_000_000)).0
    ≡ ok 0
unfolding pre_execution is_fee_charged refresh_l1_block_info
    validate_against_state_and_deduct_caller deduct_from_tsuki_v2 check_total_spending deduct_l1_fee
    tx_l1_cost try_calculate_tx_l1_cost try_fetch_from_journal
pre_execution_passes = refl

current_fee_is_paid_example :
    (info : L1BlockInfo) × (cost : ℕ) × ((try_fetch_from_journal native ledger_journal.reads
        tsuki_v2
        (holding 200_000_000_000)).0
      ≡ ok info)
    × ((pre_execution native ledger_journal flat_mainnet
          (cfg_of tsuki_v2)
          (tx_of 2)
          (context_of 200_000_000_000)).1.l1_block_info
        ≡ info)
    × (tx_l1_cost {D = Unit {0}} native info (tx_of 2) tsuki_v2 ≡ ok cost)
    × (mainnet_laws.deduction (tx_of 2) + cost ≤ 200_000_000_000)
    × ((a : ℕ)
        → itself
            (pre_execution native ledger_journal flat_mainnet
              (cfg_of tsuki_v2)
              (tx_of 2)
              (context_of 200_000_000_000)).1.journal
            a
          ≡ charged (holding 200_000_000_000) 1 (mainnet_laws.deduction (tx_of 2) + cost) a)
current_fee_is_paid_example =
    current_fee_is_paid native ledger_journal flat_mainnet (cfg_of tsuki_v2) (tx_of 2) itself
      ledger_laws mainnet_laws ledger_quiet (context_of 200_000_000_000) 0 plain_not_message
      plain_not_system pre_execution_passes

l1_message_pre_execution_free_example :
    SameBalances itself
      (holding 7)
      (pre_execution native ledger_journal flat_mainnet
        (cfg_of euclid)
        (tx_of 0x7e)
        (context_of 7)).1.journal
l1_message_pre_execution_free_example =
    l1_message_pre_execution_free native ledger_journal flat_mainnet (cfg_of euclid) (tx_of 0x7e)
      itself ledger_laws ledger_quiet (context_of 7) message

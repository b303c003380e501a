-- ===== src/Tests/Bystanders.antt =====
-- The hooks that move money, seen from an account that takes no part, at concrete inputs.
use dogeos_revm.Prelude.{ℕ, ◌≡◌, ◌≢◌, arith}
use dogeos_revm.Action.{◌>>◌}
use dogeos_revm.Uint.{native}
use dogeos_revm.Spec.{galileo, tsuki_v2}
use dogeos_revm.Handler.Charge.{pre_execution}
use dogeos_revm.Handler.Charge.Confined.{ConfinedLaws, pre_execution_confined}
use dogeos_revm.Handler.Outcome.{reimburse_caller, reward_beneficiary}
use dogeos_revm.Handler.Outcome.Confined.{PayeeLaws, settlement_confined}
use dogeos_revm.Tests.Ledger.{
  ledger_journal, itself, ledger_laws, flat_mainnet, tx_of, cfg_of, sample_block, context_of,
}
use dogeos_revm.Tests.PreExecution.{ledger_quiet}
use dogeos_revm.Tests.Settling.{counters}
use dogeos_revm.Tests.Conservation.{paying_post, final_frame}

flat_confined : ConfinedLaws ledger_journal flat_mainnet itself
flat_confined = record {
  decr_balance_elsewhere = λ a x s b h. ground arith;
  deducts_elsewhere = λ tx s b h. ground arith;
}

paying_payees : PayeeLaws ledger_journal paying_post itself
paying_payees = record {
  incr_elsewhere = λ payee x s b h. ground arith;
  reimburses_elsewhere = λ tx frame s b h. ground arith;
}

two_is_not_one : ◌≢◌ {A = ℕ} 2 1
two_is_not_one = λ h. absurd (ground arith)

two_is_not_nine : ◌≢◌ {A = ℕ} 2 9
two_is_not_nine = λ h. absurd (ground arith)

-- Under Galileo the mainnet deduction has been taken when the L1 fee is found to be too high.
pre_execution_confined_example :
    (pre_execution native ledger_journal flat_mainnet
        (cfg_of galileo)
        (tx_of 2)
        (context_of 1_500)).1.journal
      2
    ≡ 10
pre_execution_confined_example =
    pre_execution_confined native ledger_journal flat_mainnet (cfg_of galileo) (tx_of 2) itself
      ledger_laws ledger_quiet flat_confined (context_of 1_500) 2 two_is_not_one

settlement_confined_example :
    ((reimburse_caller native ledger_journal counters paying_post
            (cfg_of tsuki_v2)
            sample_block
            (tx_of 2)
            final_frame
          >> reward_beneficiary native ledger_journal counters paying_post
              (cfg_of tsuki_v2)
              sample_block
              (tx_of 2)
              final_frame)
        (context_of 1_500)).1.journal
      2
    ≡ 10
settlement_confined_example =
    settlement_confined native ledger_journal (cfg_of tsuki_v2) counters paying_post sample_block
      (tx_of 2) itself paying_payees final_frame (context_of 1_500) 2 two_is_not_one two_is_not_nine

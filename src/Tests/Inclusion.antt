-- ===== src/Tests/Inclusion.antt =====
-- An L1 message whose sender holds nothing, through every hook.
use dogeos_revm.Prelude.{ℕ, ◌≡◌, refl, true, none, ok, arith}
use dogeos_revm.Uint.{native}
use dogeos_revm.Spec.{euclid, tsuki, is_enabled_in}
use dogeos_revm.Handler.Env.{validate_env}
use dogeos_revm.Handler.Env.Accepted.{l1_message_checks}
use dogeos_revm.Handler.Env.Verdict.{admissible, validate_env-admissible}
use dogeos_revm.L1Block.Inputs.{is_ok}
use dogeos_revm.Handler.InitialGas.{InitialTxGas, InitialAndFloorGas, validate_initial_tx_gas}
use dogeos_revm.Handler.Charge.{pre_execution}
use dogeos_revm.Handler.Outcome.{
  eip7623_check_gas_floor, refund, reimburse_caller, reward_beneficiary,
}
use dogeos_revm.Handler.Inclusion.{DatabaseAnswers, l1_message_included}
use dogeos_revm.Tests.Charging.{message}
use dogeos_revm.Tests.Ledger.{ledger_journal, flat_mainnet, tx_of, cfg_of, sample_block, context_of}
use dogeos_revm.Tests.Settling.{counters, sample_frame, plain_post}
use dogeos_revm.Tests.Validation.{accepting}

tsuki_after_euclid : is_enabled_in tsuki euclid ≡ true
unfolding is_enabled_in
tsuki_after_euclid = refl

message_admissible : l1_message_checks accepting (cfg_of tsuki) sample_block (tx_of 0x7e) ≡ true
message_admissible = refl

flat_answers : DatabaseAnswers flat_mainnet (tx_of 0x7e)
flat_answers = record { accounts_load = λ s. refl; refund = λ s. 0; authorities_load = λ s. refl }

-- Initial gas below the limit of 30000, and a floor below it.
abbrev low_floor : InitialTxGas
low_floor input creates accounts slots authorizations = record {
  initial_gas = 21_000;
  floor_gas = 22_000;
}

l1_message_included_example :
    (validate_env accepting (cfg_of tsuki) sample_block (tx_of 0x7e) {D = Unit {0}} ≡ ok tt)
    × ((gas : InitialAndFloorGas) × (validate_initial_tx_gas low_floor (cfg_of tsuki) (tx_of 0x7e)
          ≡ ok gas))
    × ((auth_refund : ℕ) × ((pre_execution native ledger_journal flat_mainnet
            (cfg_of tsuki)
            (tx_of 0x7e)
            (context_of 0)).0
          ≡ ok auth_refund))
    × (eip7623_check_gas_floor native ledger_journal counters plain_post
          (cfg_of tsuki)
          sample_block
          (tx_of 0x7e)
          sample_frame
          (record { initial_gas = 1; floor_gas = 2 })
        ≡ sample_frame)
    × (refund native ledger_journal counters plain_post
          (cfg_of tsuki)
          sample_block
          (tx_of 0x7e)
          sample_frame
          5
        ≡ sample_frame)
    × (reimburse_caller native ledger_journal counters plain_post
          (cfg_of tsuki)
          sample_block
          (tx_of 0x7e)
          sample_frame
          (context_of 7)
        ≡ (ok tt, context_of 7))
    × (reward_beneficiary native ledger_journal counters plain_post
          (cfg_of tsuki)
          sample_block
          (tx_of 0x7e)
          sample_frame
          (context_of 7)
        ≡ (ok tt, context_of 7))
unfolding is_enabled_in
l1_message_included_example =
    l1_message_included native ledger_journal flat_mainnet (cfg_of tsuki) (tx_of 0x7e) accepting
      low_floor sample_block counters plain_post flat_answers (context_of 0) (context_of 7)
      sample_frame (record { balance = 0; code = none }) (record { initial_gas = 1; floor_gas = 2 })
      5 message tsuki_after_euclid message_admissible (omega arith) (omega arith) refl refl

-- A dynamic-fee transaction above the gas cap is refused.
validate_env-admissible_example :
    is_ok (validate_env accepting (cfg_of tsuki) sample_block (tx_of 2) {D = Unit {0}})
    ≡ admissible accepting (cfg_of tsuki) sample_block (tx_of 2)
validate_env-admissible_example =
    validate_env-admissible accepting (cfg_of tsuki) sample_block (tx_of 2) (Unit {0})

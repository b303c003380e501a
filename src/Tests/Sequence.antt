-- ===== src/Tests/Sequence.antt =====
-- Fee-charged transactions and an L1 message across the activation of a hardfork.
use dogeos_revm.Prelude.{◌≡◌, refl, arith}
use dogeos_revm.Balances.{supply}
use dogeos_revm.Uint.{native}
use dogeos_revm.Spec.{ScrollSpecId, galileo, tsuki_v2, is_enabled_in}
use dogeos_revm.Transaction.{ScrollTransaction, caller, gas_limit, is_l1_msg}
use dogeos_revm.L1Block.Cost.{try_calculate_tx_l1_cost}
use dogeos_revm.L1Block.Fetch.{try_fetch_from_journal}
use dogeos_revm.Handler.Charge.{
  Context, pre_execution, tx_l1_cost, validate_against_state_and_deduct_caller,
  deduct_before_tsuki_v2, charge_l1_fee, deduct_from_tsuki_v2, is_fee_charged, check_total_spending,
  deduct_l1_fee, refresh_l1_block_info, l1_msg_checks,
}
use dogeos_revm.Handler.Charge.PreExecution.{QuietLaws}
use dogeos_revm.Handler.Outcome.{
  FrameResult, reimburse_caller, rewarded_l1_cost, reward_beneficiary,
}
use dogeos_revm.Handler.Sequence.{Executes, Step, transact, here, next, reimbursed}
use dogeos_revm.Handler.Sequence.Conserved.{ExecutionLaws}
use dogeos_revm.Handler.Sequence.Chain.{Era, EraLaws, genesis, enter, Chain-total}
use dogeos_revm.Tests.Ledger.{
  Balances, ledger_journal, itself, ledger_laws, tx_of, cfg_of, sample_block, context_of,
}
use dogeos_revm.Tests.Settling.{Counter, counters, ledger_credits}
use dogeos_revm.Tests.Conservation.{priced_mainnet, priced_laws, paying_post, payments, final_frame}

-- An execution that does nothing but spend gas.
abbrev idles : Executes Balances (FrameResult Counter (Unit {0}))
idles tx c frame c' = (c' ≡ c) × (frame ≡ final_frame) × (gas_limit tx ≡ 30_000) × (caller tx ≡ 1)

quiet_laws : QuietLaws ledger_journal priced_mainnet itself
quiet_laws = record {
  db_storage_keeps = λ a slot s b. refl;
  load_accounts_keeps = λ tx s a. refl;
  auth_list_keeps = λ tx s a. refl;
}

idle_execution :
    (spec : ScrollSpecId)
    → ExecutionLaws native ledger_journal priced_mainnet
        (cfg_of spec)
        counters
        paying_post
        sample_block
        idles
        itself
        ledger_laws
        priced_laws
        quiet_laws
        ledger_credits
        payments
        10
unfolding payments priced_laws
idle_execution spec = record {
  keeps_total = λ ran. rw ran.0 refl;
  keeps_l1_values = λ ran. rw ran.0 refl;
  limit_is = λ ran. rw (ran.1, ran.2) refl;
  within_limit = λ ran. rw (ran.1, ran.2) (omega arith);
  caller_below = λ ran. rw ran.3 (omega arith);
}

-- An era under each hardfork.
abbrev eras : ScrollSpecId → Era Balances (Unit {0}) (FrameResult Counter (Unit {0}))
eras spec = record {
  mainnet = priced_mainnet;
  cfg = cfg_of spec;
  block = sample_block;
  executes = idles;
}

eras-EraLaws :
    (spec : ScrollSpecId)
    → EraLaws native ledger_journal counters paying_post itself ledger_laws ledger_credits 10
        (eras spec)
eras-EraLaws spec = record {
  main = priced_laws;
  quiet = quiet_laws;
  pays = payments;
  execution = idle_execution spec;
  below = omega arith;
}

abbrev charged_by : ScrollSpecId → ScrollTransaction → Context Balances → Context Balances
charged_by spec tx c = (pre_execution native ledger_journal priced_mainnet (cfg_of spec) tx c).1

-- The context after a transaction.
abbrev settled : ScrollSpecId → ScrollTransaction → Context Balances → Context Balances
settled spec tx c =
    (reward_beneficiary native ledger_journal counters paying_post (cfg_of spec) sample_block tx
      final_frame
      (reimbursed native ledger_journal priced_mainnet (cfg_of spec) counters paying_post
        sample_block idles tx final_frame (charged_by spec tx c))).1

abbrev Passing : ScrollSpecId → Context Balances → Context Balances → Type 0
Passing spec =
    Step native ledger_journal priced_mainnet (cfg_of spec) counters paying_post sample_block idles

abbrev first_context : Context Balances
first_context = context_of 2_000_000_000_000

-- A fee-charged transaction under Galileo.
abbrev second_context : Context Balances
second_context = settled galileo (tx_of 2) first_context

-- The same under TsukiV2, and an L1 message after it.
abbrev third_context : Context Balances
third_context = settled tsuki_v2 (tx_of 2) second_context

abbrev last_context : Context Balances
last_context = settled tsuki_v2 (tx_of 0x7e) third_context

first_passes : Passing galileo first_context second_context
unfolding pre_execution refresh_l1_block_info validate_against_state_and_deduct_caller tx_l1_cost
    try_calculate_tx_l1_cost deduct_before_tsuki_v2 charge_l1_fee is_fee_charged reimburse_caller
    reward_beneficiary rewarded_l1_cost is_l1_msg is_enabled_in try_fetch_from_journal
first_passes =
    transact (tx_of 2) final_frame 0 first_context (charged_by galileo (tx_of 2) first_context) refl
      (refl, refl, refl, refl) refl refl

second_passes : Passing tsuki_v2 second_context third_context
unfolding pre_execution refresh_l1_block_info validate_against_state_and_deduct_caller tx_l1_cost
    try_calculate_tx_l1_cost deduct_before_tsuki_v2 charge_l1_fee deduct_from_tsuki_v2
    is_fee_charged check_total_spending deduct_l1_fee reimburse_caller reward_beneficiary
    rewarded_l1_cost is_l1_msg is_enabled_in try_fetch_from_journal
second_passes =
    transact (tx_of 2) final_frame 0 second_context (charged_by tsuki_v2 (tx_of 2) second_context)
      refl (refl, refl, refl, refl) refl refl

message_passes : Passing tsuki_v2 third_context last_context
unfolding pre_execution l1_msg_checks validate_against_state_and_deduct_caller deduct_from_tsuki_v2
    is_fee_charged reimburse_caller reward_beneficiary is_l1_msg is_enabled_in
    try_fetch_from_journal
message_passes =
    transact (tx_of 0x7e) final_frame 0 third_context
      (charged_by tsuki_v2 (tx_of 0x7e) third_context) refl (refl, refl, refl, refl) refl refl

-- TsukiV2 is activated between the first transaction and the others.
Chain-total_example : supply 10 last_context.journal ≡ supply 10 first_context.journal
Chain-total_example =
    Chain-total native ledger_journal counters paying_post itself ledger_laws ledger_credits 10 eras
      eras-EraLaws
      (enter tsuki_v2 (enter galileo genesis (next here first_passes))
        (next (next here second_passes) message_passes))
      (omega arith)

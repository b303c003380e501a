-- ===== src/Tests/Charging.antt =====
-- The charging of the caller at concrete inputs.
use dogeos_revm.Prelude.{none, ◌≡◌, refl, true, false, ok}
use dogeos_revm.Uint.{native}
use dogeos_revm.Spec.{tsuki_v2}
use dogeos_revm.Action.{◌>>◌}
use dogeos_revm.Transaction.{ScrollTransaction, system_address, is_l1_msg, is_system_tx}
use dogeos_revm.L1Block.Cost.{try_calculate_tx_l1_cost}
use dogeos_revm.Handler.Charge.{
  Context, mainnet_step, pre_execution, tx_l1_cost, validate_against_state_and_deduct_caller,
  deduct_from_tsuki_v2, is_fee_charged, check_total_spending, deduct_l1_fee,
}
use dogeos_revm.Handler.Charge.SystemTx.{system_tx_mainnet_only}
use dogeos_revm.Tests.Fees.{sample_info}
use dogeos_revm.Tests.Ledger.{
  Balances, base_of, ledger_journal, flat_mainnet, tx_of, cfg_of, context_of,
}

pub plain_not_message : is_l1_msg (tx_of 2) ≡ false
unfolding is_l1_msg
plain_not_message = refl

pub plain_not_system : is_system_tx (tx_of 2) ≡ false
unfolding is_system_tx
plain_not_system = refl

pub message : is_l1_msg (tx_of 0x7e) ≡ true
unfolding is_l1_msg
message = refl

-- A caller of 2000 pays 1000 and the rollup fee of 150.
pub payment_passes :
    (validate_against_state_and_deduct_caller native ledger_journal flat_mainnet
      (cfg_of tsuki_v2)
      (tx_of 2)
      (context_of 2000)).0
    ≡ ok tt
unfolding validate_against_state_and_deduct_caller tx_l1_cost try_calculate_tx_l1_cost
    deduct_from_tsuki_v2 is_fee_charged check_total_spending deduct_l1_fee
payment_passes = refl

fee_of_150 :
    tx_l1_cost {D = Unit {0}} native (context_of 1100).l1_block_info (tx_of 2) tsuki_v2 ≡ ok 150
unfolding tx_l1_cost try_calculate_tx_l1_cost
fee_of_150 = refl

-- A system transaction without its encoded bytes.
abbrev system_tx : ScrollTransaction
system_tx = record (tx_of 2) {
  base = record (base_of 2) { caller = system_address };
  rlp_bytes = none;
}

system_not_message : is_l1_msg system_tx ≡ false
unfolding is_l1_msg
system_not_message = refl

system_is_system : is_system_tx system_tx ≡ true
unfolding is_system_tx
system_is_system = refl

abbrev rich : Context Balances
rich = record { journal = λ a. 5_000; l1_block_info = sample_info }

system_tx_mainnet_only_example :
    pre_execution native ledger_journal flat_mainnet (cfg_of tsuki_v2) system_tx rich
    ≡ (mainnet_step (flat_mainnet.validate_against_state_and_deduct_caller system_tx)
          >> mainnet_step (flat_mainnet.load_accounts system_tx)
          >> mainnet_step (flat_mainnet.apply_eip7702_auth_list system_tx))
        rich
system_tx_mainnet_only_example =
    system_tx_mainnet_only native ledger_journal flat_mainnet (cfg_of tsuki_v2) system_tx rich
      system_not_message system_is_system

-- ===== src/Tests/Conservation.antt =====
-- The fees of a transaction, charged and settled, at concrete inputs.
use dogeos_revm.Prelude.{ℕ, ◌+◌, ◌*◌, ◌≤◌, ◌≡◌, refl, leb, if◌then◌else◌, ok, err, arith}
use dogeos_revm.Balances.{charged, credited}
use dogeos_revm.Uint.{native}
use dogeos_revm.Spec.{tsuki_v2}
use dogeos_revm.Transaction.{ScrollTransaction, is_l1_msg, caller, gas_limit}
use dogeos_revm.L1Block.Cost.{try_calculate_tx_l1_cost}
use dogeos_revm.Handler.{transaction, raised_by_revm}
use dogeos_revm.Handler.Charge.{
  Mainnet, tx_l1_cost, validate_against_state_and_deduct_caller, deduct_from_tsuki_v2,
  is_fee_charged, check_total_spending, deduct_l1_fee,
}
use dogeos_revm.Handler.Charge.Laws.{MainnetLaws}
use dogeos_revm.Handler.Outcome.{
  FrameResult, PostMainnet, reimburse_caller, rewarded_l1_cost, reward_beneficiary,
}
use dogeos_revm.Handler.Outcome.Conservation.{GasPaymentLaws, fees_conserved}
use dogeos_revm.Tests.Charging.{plain_not_message, plain_not_system}
use dogeos_revm.Tests.Ledger.{
  Balances, ledger_journal, itself, ledger_laws, tx_of, cfg_of, sample_block, holding, context_of,
}
use dogeos_revm.Tests.Settling.{Counter, counters, sample_frame, plain_post, ledger_credits}

-- The gas limit at a price of two, deducted from a caller who has it.
abbrev pub priced_mainnet : Mainnet Balances (Unit {0})
priced_mainnet = record {
  validate_against_state_and_deduct_caller = λ tx s.
      if leb (2 * gas_limit tx) (s (caller tx))
      then (ok tt, λ b. charged s (caller tx) (2 * gas_limit tx) b)
      else (err (transaction (raised_by_revm 0)), s);
  load_accounts = λ tx s. (ok tt, s);
  apply_eip7702_auth_list = λ tx s. (ok 0, s);
  max_balance_spending = λ tx. ok (2 * gas_limit tx);
}

pub priced_covered :
    (tx : ScrollTransaction) (s : Balances)
    → (priced_mainnet.validate_against_state_and_deduct_caller tx s).0 ≡ ok tt
    → 2 * gas_limit tx ≤ s (caller tx)
priced_covered tx s h = ground arith

pub priced_deducts :
    (tx : ScrollTransaction) (s : Balances)
    → (priced_mainnet.validate_against_state_and_deduct_caller tx s).0 ≡ ok tt
    → (a : ℕ)
    → (priced_mainnet.validate_against_state_and_deduct_caller tx s).1 a
      ≡ charged s (caller tx) (2 * gas_limit tx) a
priced_deducts tx s h a = ground arith

pub priced_bounded :
    (tx : ScrollTransaction) (n : ℕ)
    → priced_mainnet.max_balance_spending tx ≡ ok n
    → 2 * gas_limit tx ≤ n
priced_bounded tx n h = ground arith

unfoldable pub priced_laws : MainnetLaws priced_mainnet itself
priced_laws = record {
  deduction = λ tx. 2 * gas_limit tx;
  covered = priced_covered;
  deducts = priced_deducts;
  deduction_bounded = priced_bounded;
}

-- What is not used is given back to the caller.
abbrev pub paying_post :
    PostMainnet Balances (Unit {0}) Counter ℕ (Unit {0}) (Unit {0}) (Unit {0}) (Unit {0})
paying_post = record plain_post {
  reimburse_caller = λ tx frame s.
      (ok tt, λ a. credited s (caller tx) (2 * (frame.gas.remaining + frame.gas.refunded)) a);
}

unfoldable pub payments :
    (tx : ScrollTransaction) → GasPaymentLaws counters paying_post sample_block tx priced_laws
unfolding priced_laws
payments tx = record {
  refund_amount = λ r. r;
  deducts_limit = refl;
  used_eq = λ gas. refl;
  reimburse_credits = λ frame s h fits a. refl;
}

-- The counter of the whole transaction.
abbrev pub final_frame : FrameResult Counter (Unit {0})
final_frame = record sample_frame { gas = record sample_frame.gas { limit = 30_000 } }

pub payment_passes :
    (validate_against_state_and_deduct_caller native ledger_journal priced_mainnet
      (cfg_of tsuki_v2)
      (tx_of 2)
      (context_of 90_000)).0
    ≡ ok tt
unfolding validate_against_state_and_deduct_caller tx_l1_cost try_calculate_tx_l1_cost
    deduct_from_tsuki_v2 is_fee_charged check_total_spending deduct_l1_fee
payment_passes = refl

fee_of_150 :
    tx_l1_cost {D = Unit {0}} native (context_of 90_000).l1_block_info (tx_of 2) tsuki_v2 ≡ ok 150
unfolding tx_l1_cost try_calculate_tx_l1_cost
fee_of_150 = refl

reimbursement_passes :
    (reimburse_caller native ledger_journal counters paying_post
      (cfg_of tsuki_v2)
      sample_block
      (tx_of 2)
      final_frame
      (context_of 29_850)).0
    ≡ ok tt
unfolding reimburse_caller is_l1_msg
reimbursement_passes = refl

reward_passes :
    (reward_beneficiary native ledger_journal counters paying_post
      (cfg_of tsuki_v2)
      sample_block
      (tx_of 2)
      final_frame
      (reimburse_caller native ledger_journal counters paying_post
        (cfg_of tsuki_v2)
        sample_block
        (tx_of 2)
        final_frame
        (context_of 29_850)).1).0
    ≡ ok tt
unfolding reward_beneficiary reimburse_caller is_l1_msg rewarded_l1_cost try_calculate_tx_l1_cost
reward_passes = refl

beneficiary_holds :
    (reimburse_caller native ledger_journal counters paying_post
        (cfg_of tsuki_v2)
        sample_block
        (tx_of 2)
        final_frame
        (context_of 29_850)).1.journal
      9
    ≡ 10
unfolding reimburse_caller is_l1_msg
beneficiary_holds = refl

fees_conserved_example :
    (60_000 + 150 ≡ 2 * 4_100 + (2 * 25_900 + 150))
    × ((a : ℕ)
        → (validate_against_state_and_deduct_caller native ledger_journal priced_mainnet
              (cfg_of tsuki_v2)
              (tx_of 2)
              (context_of 90_000)).1.journal
            a
          ≡ charged (holding 90_000) 1 (2 * 4_100 + (2 * 25_900 + 150)) a)
    × ((a : ℕ)
        → (reward_beneficiary native ledger_journal counters paying_post
              (cfg_of tsuki_v2)
              sample_block
              (tx_of 2)
              final_frame
              (reimburse_caller native ledger_journal counters paying_post
                (cfg_of tsuki_v2)
                sample_block
                (tx_of 2)
                final_frame
                (context_of 29_850)).1).1.journal
            a
          ≡ credited (credited (holding 29_850) 1 (2 * 4_100)) 9 (2 * 25_900 + 150) a)
unfolding priced_laws payments
fees_conserved_example =
    fees_conserved native ledger_journal counters paying_post (cfg_of tsuki_v2) sample_block
      (tx_of 2) priced_mainnet itself ledger_laws priced_laws ledger_credits (payments (tx_of 2))
      final_frame (context_of 90_000) (context_of 29_850) 150 plain_not_message plain_not_system
      refl payment_passes fee_of_150 (omega arith) refl (omega arith) reimbursement_passes
      reward_passes (omega arith) (omega (arith, beneficiary_holds))

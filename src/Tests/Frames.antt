-- ===== src/Tests/Frames.antt =====
-- The frames of the tests of src/handler.rs, after execution.
use dogeos_revm.Prelude.{ℕ, ◌+◌, ◌-◌, ◌/◌, ◌≡◌, min, refl}
use dogeos_revm.Uint.{native}
use dogeos_revm.Spec.{euclid}
use dogeos_revm.L1Block.Cost.{try_calculate_tx_l1_cost}
use dogeos_revm.L1Block.Fetch.{try_fetch_from_journal}
use dogeos_revm.Transaction.{ScrollTransaction, call}
use dogeos_revm.Handler.Charge.{
  Context, tx_l1_cost, validate_against_state_and_deduct_caller, pre_execution,
  refresh_l1_block_info, is_fee_charged, deduct_before_tsuki_v2, charge_l1_fee,
}
use dogeos_revm.Handler.Outcome.{
  FrameResult, PostMainnet, success, last_frame_result, refund, reward_beneficiary, reward_of,
  rewarded_l1_cost,
}
use dogeos_revm.Tests.Ledger.{Balances, cfg_of, sample_block}
use dogeos_revm.Tests.Settling.{Counter, counters, plain_post}
use dogeos_revm.Tests.Upfront.{fee_journal, l1_data_cost, payment, buying_gas, funded}

abbrev basic_tx : ScrollTransaction
basic_tx = payment (call 0xdead1, 21_000) 0

-- The frame of `test_last_frame_result` and `test_refund`: ten spent and ten to be refunded.
abbrev returned_frame : FrameResult Counter (Unit {0})
returned_frame = record {
  result = success;
  gas = record { limit = 21_000; remaining = 20_990; refunded = 10 };
  rest = tt;
}

-- `test_last_frame_result`
abbrev last_frame_gas : Counter
unfolding last_frame_result
last_frame_gas = (last_frame_result counters basic_tx returned_frame).gas

last_frame_keeps_gas : last_frame_gas ≡ returned_frame.gas
unfolding last_frame_result
last_frame_keeps_gas = refl

-- revm's refund from London: at most a fifth of what is spent.
abbrev london_post :
    PostMainnet Balances (Unit {0}) Counter ℕ (Unit {0}) (Unit {0}) (Unit {0}) (Unit {0})
london_post = record plain_post {
  refund = λ spec gas r. record gas {
    refunded = min (gas.refunded + r) ((gas.limit - gas.remaining) / 5);
  };
  effective_gas_price = λ tx basefee. 1;
}

-- `test_refund`
abbrev refunded_gas : Counter
unfolding refund
refunded_gas =
    (refund native fee_journal counters london_post (cfg_of euclid) sample_block basic_tx
      returned_frame 0).gas

fifth_is_refunded : refunded_gas ≡ record returned_frame.gas { refunded = 2 }
unfolding refund
fifth_is_refunded = refl

-- The frame of `test_reward_beneficiary`: all of the gas is spent.
abbrev spent_frame : FrameResult Counter (Unit {0})
spent_frame = record {
  result = success;
  gas = record { limit = 21_000; remaining = 0; refunded = 0 };
  rest = tt;
}

-- `pre_execution` and the reward, by a caller who holds the gas and the fee.
abbrev rewarded : Context Balances
rewarded =
    let charged =
      (pre_execution native fee_journal buying_gas (cfg_of euclid) basic_tx
        (funded (21_000 + l1_data_cost))).1 in
    (reward_beneficiary native fee_journal counters london_post (cfg_of euclid) sample_block
      basic_tx spent_frame charged).1

-- `test_reward_beneficiary`
beneficiary_rewarded : rewarded.journal sample_block.beneficiary ≡ 21_000 + l1_data_cost
unfolding pre_execution is_fee_charged refresh_l1_block_info try_fetch_from_journal
    validate_against_state_and_deduct_caller deduct_before_tsuki_v2 charge_l1_fee tx_l1_cost
    try_calculate_tx_l1_cost reward_beneficiary reward_of rewarded_l1_cost
beneficiary_rewarded = refl

-- ===== src/Tests/Upfront.antt =====
-- The transactions of the tests of src/handler.rs, over a journal that is its balances.
use dogeos_revm.Prelude.{
  ℕ, ◌+◌, ◌-◌, ◌*◌, ◌≡◌, List, [], ◌∷◌, none, some, ltb, ◌==◌, if◌then◌else◌, Result, ok, err, refl,
  map, replicate,
}
use dogeos_revm.Balances.{charged}
use dogeos_revm.Uint.{native, u256_max}
use dogeos_revm.Spec.{ScrollSpecId, tsuki, tsuki_v2}
use dogeos_revm.L1Block.{empty_info}
use dogeos_revm.L1Block.Cost.{try_calculate_tx_l1_cost}
use dogeos_revm.L1Block.Fetch.{try_fetch_from_journal}
use dogeos_revm.Transaction.{ScrollTransaction, TxKind, call, create, caller}
use dogeos_revm.Handler.{
  EvmError, transaction, lack_of_fund_for_max_fee, overflow_payment_in_transaction,
}
use dogeos_revm.Handler.Charge.{
  Journal, Mainnet, Context, tx_l1_cost, validate_against_state_and_deduct_caller, pre_execution,
  refresh_l1_block_info, is_fee_charged, deduct_from_tsuki_v2, deduct_before_tsuki_v2,
  charge_l1_fee, check_total_spending, deduct_l1_fee,
}
use dogeos_revm.Tests.Ledger.{Balances, ledger_journal, base_of, cfg_of}

-- The oracle of the tests: 10000 in every slot, but for the blob scalar and the penalty factor.
-- With it the fee of four bytes is `L1_DATA_COST`.
abbrev pub oracle_slot : ℕ → ℕ
oracle_slot slot = if slot == 7 then 1_000_000_000 else if slot == 10 then u256_max else 10_000

abbrev pub l1_data_cost : ℕ
l1_data_cost = 40_000

abbrev pub fee_journal : Journal Balances (Unit {0})
fee_journal = record ledger_journal {
  reads = record { evm_state = λ s a. none; db_storage = λ a slot s. (ok (oracle_slot slot), s) };
}

-- The two cases of a test: a call and a creation, with their intrinsic gas.
abbrev pub cases : List (TxKind × ℕ)
cases = (call 0xdead1, 21_000) ∷ (create, 53_000) ∷ []

-- The transaction of a case, with a gas price of one.
abbrev pub payment : TxKind × ℕ → ℕ → ScrollTransaction
payment (kind, gas) value = record {
  base = record (base_of 0) { kind = kind; gas_limit = gas; gas_price = 1; value = value };
  rlp_bytes = some (replicate 4 1);
  compression_ratio = some 1_000_000_000;
  compressed_size = some 4;
}

-- The value of `test_upfront_balance_overflow`: gas and value fit exactly.
abbrev pub largest_value : TxKind × ℕ → ℕ
largest_value case = u256_max - case.1

abbrev pub spending_of : ScrollTransaction → ℕ
spending_of tx = tx.base.gas_limit * tx.base.gas_price + tx.base.value

-- revm's step for these transactions: the gas is bought where gas and value are held.
abbrev pub buying_gas : Mainnet Balances (Unit {0})
buying_gas = record {
  validate_against_state_and_deduct_caller = λ tx s.
      if ltb (s (caller tx)) (spending_of tx)
      then (err (transaction (lack_of_fund_for_max_fee (spending_of tx) (s (caller tx)))), s)
      else (ok tt, charged s (caller tx) (tx.base.gas_limit * tx.base.gas_price));
  load_accounts = λ tx s. (ok tt, s);
  apply_eip7702_auth_list = λ tx s. (ok 0, s);
  max_balance_spending = λ tx. ok (spending_of tx);
}

abbrev pub funded : ℕ → Context Balances
funded amount = record { journal = λ a. if a == 1 then amount else 0; l1_block_info = empty_info }

abbrev pub Outcome : Type 0
Outcome = Result (EvmError (Unit {0})) ℕ × ℕ

-- `pre_execution` under a hardfork of a case with a value, by a caller with an amount: the result
-- and what the caller holds afterwards.
abbrev pub outcome : ScrollSpecId → TxKind × ℕ → ℕ → ℕ → Outcome
outcome spec case value amount =
    let (result, c) =
      pre_execution native fee_journal buying_gas (cfg_of spec) (payment case value)
        (funded amount) in
    (result, c.journal 1)

-- `test_validate_lacking_funds`: one less than gas, value and fee.
abbrev lacking_funds : TxKind × ℕ → Outcome
lacking_funds case = outcome tsuki_v2 case 100 (case.1 + 100 + l1_data_cost - 1)

abbrev lacking_expected : TxKind × ℕ → Outcome
lacking_expected case =
    let required = case.1 + 100 + l1_data_cost in
    (err (transaction (lack_of_fund_for_max_fee required (required - 1))), required - 1)

lacking_funds_refused : map lacking_funds cases ≡ map lacking_expected cases
unfolding pre_execution is_fee_charged refresh_l1_block_info try_fetch_from_journal
    validate_against_state_and_deduct_caller deduct_from_tsuki_v2 check_total_spending deduct_l1_fee
    tx_l1_cost try_calculate_tx_l1_cost
lacking_funds_refused = refl

-- The charging in `test_exact_upfront_balance`: exactly gas, value and fee. The value is left for
-- the execution to move.
abbrev exact_funds : TxKind × ℕ → Outcome
exact_funds case = outcome tsuki_v2 case 100 (case.1 + 100 + l1_data_cost)

exact_funds_pass : map exact_funds cases ≡ replicate 2 (ok 0, 100)
unfolding pre_execution is_fee_charged refresh_l1_block_info try_fetch_from_journal
    validate_against_state_and_deduct_caller deduct_from_tsuki_v2 check_total_spending deduct_l1_fee
    tx_l1_cost try_calculate_tx_l1_cost
exact_funds_pass = refl

-- `test_upfront_balance_overflow`
abbrev overflowing : TxKind × ℕ → Outcome
overflowing case = outcome tsuki_v2 case (largest_value case) u256_max

overflowing_refused :
    map overflowing cases
    ≡ replicate 2 (err (transaction overflow_payment_in_transaction), u256_max)
unfolding pre_execution is_fee_charged refresh_l1_block_info try_fetch_from_journal
    validate_against_state_and_deduct_caller deduct_from_tsuki_v2 check_total_spending deduct_l1_fee
    tx_l1_cost try_calculate_tx_l1_cost
overflowing_refused = refl

-- `test_upfront_balance_overflow_before_tsuki_v2`: the fee is not added, and what is left covers it.
abbrev overflowing_before : TxKind × ℕ → Outcome
overflowing_before case = outcome tsuki case (largest_value case) u256_max

overflowing_before_passes :
    map overflowing_before cases ≡ map (λ case. (ok 0, u256_max - case.1 - l1_data_cost)) cases
unfolding pre_execution is_fee_charged refresh_l1_block_info try_fetch_from_journal
    validate_against_state_and_deduct_caller deduct_before_tsuki_v2 charge_l1_fee tx_l1_cost
    try_calculate_tx_l1_cost
overflowing_before_passes = refl

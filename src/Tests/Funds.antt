-- ===== src/Tests/Funds.antt =====
-- What a caller must hold, at the first of the tests of src/handler.rs.
use dogeos_revm.Prelude.{err, ◌*◌, ◌≡◌, false, some, ok, refl, arith}
use dogeos_revm.Uint.{native, u256_max}
use dogeos_revm.Spec.{ScrollSpecId, tsuki, tsuki_v2, is_enabled_in}
use dogeos_revm.L1Block.{L1BlockInfo}
use dogeos_revm.L1Block.Cost.{try_calculate_tx_l1_cost}
use dogeos_revm.L1Block.Fetch.{try_fetch_from_journal}
use dogeos_revm.Transaction.{ScrollTransaction, call, is_l1_msg, is_system_tx}
use dogeos_revm.Handler.Charge.{tx_l1_cost}
use dogeos_revm.Handler.Charge.Laws.{CallerLaws, MainnetLaws}
use dogeos_revm.Handler.Charge.PreExecution.{QuietLaws}
use dogeos_revm.Handler.Charge.Refusal.{RefusalLaws}
use dogeos_revm.Handler.Charge.Upfront.{Plain, RefusesUpfront, underfunded, pre_execution_upfront}
use dogeos_revm.Handler.Charge.Upfront.Before.{pre_execution_before_tsuki_v2}
use dogeos_revm.Handler.{transaction, lack_of_fund_for_max_fee}
use dogeos_revm.Handler.Charge.{pre_execution}
use dogeos_revm.Tests.Ledger.{itself, cfg_of}
use dogeos_revm.Tests.Upfront.{fee_journal, l1_data_cost, payment, buying_gas, funded}

fee_laws : CallerLaws fee_journal itself
fee_laws = record {
  load_reports = λ a s n h. ground arith;
  load_keeps = λ a s b. refl;
  load_with_code_keeps = λ a s b. refl;
  decr_balance_takes = λ a x s h b. refl;
  bump_nonce_keeps = λ a s b. refl;
  touch_keeps = λ a s b. refl;
}

buying_laws : MainnetLaws buying_gas itself
buying_laws = record {
  deduction = λ tx. tx.base.gas_limit * tx.base.gas_price;
  covered = λ tx s h. ground arith;
  deducts = λ tx s h a. ground arith;
  deduction_bounded = λ tx n h. ground arith;
}

fee_quiet : QuietLaws fee_journal buying_gas itself
fee_quiet = record {
  db_storage_keeps = λ a slot s b. refl;
  load_accounts_keeps = λ tx s a. refl;
  auth_list_keeps = λ tx s a. refl;
}

fee_refusals : RefusalLaws fee_journal buying_gas (λ s. s 1)
fee_refusals = record {
  reload_answers = λ tx s n e f. (_, refl);
  load_keeps = λ a s. refl;
  load_with_code_keeps = λ a s. refl;
  refusal_keeps = λ tx s e h. ground arith;
}

abbrev called : ScrollTransaction
called = payment (call 0xdead1, 21_000) 100

called-Plain :
    (spec : ScrollSpecId) → Plain native fee_journal buying_gas (cfg_of spec) called itself 21_100
called-Plain spec = record {
  spends = refl;
  accepts = λ s held. ground arith;
  refuses = λ s short. ground arith;
  loads = λ s. refl;
  authorizes = λ s. (0, refl);
}

-- The oracle's values and the fee that they give.
abbrev fee_info : L1BlockInfo
fee_info = record {
  l1_base_fee = 10_000;
  l1_fee_overhead = 10_000;
  l1_base_fee_scalar = 10_000;
  l1_blob_base_fee = some 10_000;
  l1_commit_scalar = some 10_000;
  l1_blob_scalar = some 1_000_000_000;
  calldata_gas = some 100_000_000;
  penalty_threshold = some 10_000;
  penalty_factor = some u256_max;
}

fetched :
    (try_fetch_from_journal native fee_journal.reads tsuki_v2 (funded 61_099).journal).0
    ≡ ok fee_info
unfolding try_fetch_from_journal
fetched = refl

fee_is_l1_data_cost : tx_l1_cost {D = Unit {0}} native fee_info called tsuki_v2 ≡ ok l1_data_cost
unfolding tx_l1_cost try_calculate_tx_l1_cost
fee_is_l1_data_cost = refl

fee_is_l1_data_cost_before :
    tx_l1_cost {D = Unit {0}} native fee_info called tsuki ≡ ok l1_data_cost
unfolding tx_l1_cost try_calculate_tx_l1_cost
fee_is_l1_data_cost_before = refl

called_not_message : is_l1_msg called ≡ false
unfolding is_l1_msg
called_not_message = refl

called_not_system : is_system_tx called ≡ false
unfolding is_system_tx
called_not_system = refl

pre_execution_upfront_example :
    RefusesUpfront native fee_journal buying_gas
      (cfg_of tsuki_v2)
      called
      (λ s. s 1)
      (underfunded 61_100 61_099)
      (funded 61_099)
unfolding is_enabled_in
pre_execution_upfront_example =
    pre_execution_upfront native fee_journal buying_gas (cfg_of tsuki_v2) called itself fee_laws
      buying_laws fee_quiet (λ a s. refl) 21_100 (called-Plain tsuki_v2) (λ s. s 1) fee_refusals
      (λ a slot s. refl) (funded 61_099) fee_info l1_data_cost called_not_message called_not_system
      refl fetched fee_is_l1_data_cost (omega arith)

fetched_before :
    (try_fetch_from_journal native fee_journal.reads tsuki (funded 60_999).journal).0 ≡ ok fee_info
unfolding try_fetch_from_journal
fetched_before = refl

-- The maximal spending is held, but 39999 of it are left for a fee of 40000.
pre_execution_before_tsuki_v2_example :
    (pre_execution native fee_journal buying_gas (cfg_of tsuki) called (funded 60_999)).0
    ≡ err (transaction (lack_of_fund_for_max_fee l1_data_cost 39_999))
unfolding is_enabled_in buying_laws
pre_execution_before_tsuki_v2_example =
    pre_execution_before_tsuki_v2 native fee_journal buying_gas (cfg_of tsuki) called itself
      fee_laws buying_laws fee_quiet (λ a s. refl) 21_100 (called-Plain tsuki) (funded 60_999)
      fee_info l1_data_cost called_not_message called_not_system refl fetched_before
      fee_is_l1_data_cost_before

-- ===== src/Tests/Oracle.antt =====
-- Reading the oracle at concrete inputs.
use dogeos_revm.Prelude.{false, [], ◌∷◌, ℕ, ◌+◌, ◌≡◌, refl, none, some, ok, ◌==◌, if◌then◌else◌}
use dogeos_revm.Action.{Action, ◌>>=◌, pure}
use dogeos_revm.Uint.{native}
use dogeos_revm.Spec.{curie, galileo}
use dogeos_revm.L1Block.{L1BlockInfo, l1_gas_price_oracle_address}
use dogeos_revm.L1Block.Cost.{try_calculate_tx_l1_cost}
use dogeos_revm.L1Block.Fetch.{JournalReads, try_fetch_with}
use dogeos_revm.L1Block.Inputs.{formula, is_ok, fetched_fee_depends_on_tx}
use dogeos_revm.L1Block.Reads.{read_all, slots, assemble, try_fetch_with-read_all}

-- A database whose slot holds its own number and that counts its reads.
abbrev counting : ℕ → Action ℕ (Unit {0}) ℕ
counting slot reads = (ok slot, reads + 1)

abbrev counted_info : L1BlockInfo
counted_info = record {
  l1_base_fee = 1;
  l1_fee_overhead = 2;
  l1_base_fee_scalar = 3;
  l1_blob_base_fee = some 5;
  l1_commit_scalar = some 6;
  l1_blob_scalar = some 7;
  calldata_gas = some 6;
  penalty_threshold = some 9;
  penalty_factor = some 10;
}

galileo_fetch : try_fetch_with native counting galileo 0 ≡ (ok counted_info, 8)
unfolding try_fetch_with
galileo_fetch = refl

-- A transaction of three bytes that claims a compressed size of four.
fetched_fee_depends_on_tx_example :
    is_ok (try_calculate_tx_l1_cost native counted_info (7 ∷ 0 ∷ 9 ∷ []) galileo none (some 4))
    ≡ false
fetched_fee_depends_on_tx_example =
    fetched_fee_depends_on_tx native counting 0 counted_info 8 galileo (7 ∷ 0 ∷ 9 ∷ []) none
      (some 4) galileo_fetch

try_fetch_with-read_all_example :
    try_fetch_with native counting curie 0
    ≡ (read_all counting (slots (formula curie)) >>= λ vs. pure (assemble native vs)) 0
try_fetch_with-read_all_example = try_fetch_with-read_all native counting 0 curie

-- A journal that holds slot 5 of the oracle, over a database whose slot holds its own number.
abbrev updated : JournalReads ℕ (Unit {0})
updated = record {
  evm_state = λ s a.
      if a == l1_gas_price_oracle_address
      then some (record {
        storage = λ slot. if slot == 5 then some (record { present_value = 77 }) else none;
      })
      else none;
  db_storage = λ a slot s. (ok slot, s);
}

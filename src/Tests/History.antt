-- ===== src/Tests/History.antt =====
-- A host whose history contract holds the hashes of the first three blocks.
use dogeos_revm.Prelude.{ℕ, ◌+◌, ◌*◌, ◌≡◌, Bool, true, false, some, Result, ok, err, refl, arith}
use dogeos_revm.Uint.{native}
use dogeos_revm.Spec.{feynman, tsuki_v2, is_enabled_in}
use dogeos_revm.Instructions.{HostOps, StateLoad, LoadError, cold_load_skipped}
use dogeos_revm.Instructions.Blockhash.{blockhash}
use dogeos_revm.Instructions.Blockhash.Ring.{ring, Served, HistoryLaws, blockhash-Served}
use dogeos_revm.Tests.Machine.{machines, host_at, asking}

abbrev hash_of_block : ℕ → ℕ
hash_of_block n = n * 7 + 1

abbrev written : ℕ → ℕ
written slot = ring hash_of_block 3 slot

abbrev load_written : ℕ → Bool → Result LoadError StateLoad
load_written slot true = err cold_load_skipped
load_written slot false = ok (record { value = written slot; is_cold = true })

skipped_is_not_loaded :
    (slot : ℕ) (v : StateLoad) → load_written slot true ≡ ok v → v.is_cold ≡ false
skipped_is_not_loaded slot v e = absurd (ground arith)

loaded_is_written :
    (slot : ℕ) (skip : Bool) (v : StateLoad)
    → load_written slot skip ≡ ok v
    → v.value ≡ written slot
loaded_is_written slot true v e = absurd (ground arith)
loaded_is_written slot false v e = ground arith

abbrev historian : HostOps ℕ
historian = record (host_at tsuki_v2) {
  block_number = 3;
  sload_skip_cold_load = λ a slot skip h. (load_written slot skip, h);
  sload = λ a slot h. (some (written slot), h);
  skipped_load_is_warm = λ a slot h v e. skipped_is_not_loaded slot v e;
}

historian-HistoryLaws : HistoryLaws historian (λ h slot. written slot)
historian-HistoryLaws = record {
  skip_load_reads = λ slot skip h load e. loaded_is_written slot skip load e;
  load_reads = λ slot h word e. ground arith;
  account_keeps = λ h slot. refl;
  prepared_keeps = λ slot index skip h. refl;
}

feynman_on : is_enabled_in tsuki_v2 feynman ≡ true
unfolding is_enabled_in
feynman_on = refl

-- Block 1 of three.
blockhash-Served_example : Served machines 8 (blockhash native machines historian (asking 1) 0).0
blockhash-Served_example =
    blockhash-Served native machines historian (λ h slot. written slot) historian-HistoryLaws
      hash_of_block (asking 1) 0 1 (λ slot. refl) (omega arith) refl (omega arith) (omega arith)
      (omega arith) feynman_on

-- ===== src/Tests/Transient.antt =====
-- A host whose state is its transient storage, and whose hash is the value of the hashed bytes.
use dogeos_revm.Prelude.{
  ℕ, ◌≡◌, refl, true, false, ◌&&◌, [], ◌∷◌, min, none, some, ◌==◌, if◌then◌else◌, Result, ok, err,
  arith, be_value,
}
use dogeos_revm.L1Block.{u64_max}
use dogeos_revm.Spec.{curie, is_enabled_in}
use dogeos_revm.Instructions.{HostOps, StateLoad, LoadError, cold_load_skipped}
use dogeos_revm.Instructions.Simple.{tload}
use dogeos_revm.Instructions.Simple.Transient.{
  TransientLaws, transient_refines, store, load, accesses, last_written,
}
use dogeos_revm.Tests.Machine.{Machine, machines, asking}

abbrev Storage : Type 0
Storage = ℕ → ℕ → ℕ

abbrev written : ℕ → ℕ → ℕ → Storage → Storage
written a index value h a' index' = if (a == a') && (index == index') then value else h a' index'

never_loaded :
    (v : StateLoad) (r : Result LoadError StateLoad)
    → r ≡ err cold_load_skipped
    → r ≡ ok v
    → v.is_cold ≡ false
never_loaded v r e f = absurd (ground arith)

abbrev storing_host : HostOps Storage
storing_host = record {
  spec = curie;
  block_number = 300;
  chain_id = 534_352;
  basefee = 7;
  warm_storage_read_cost = 100;
  cold_storage_additional_cost = 2_000;
  mcopy_cost = λ n. n;
  block_hash_history = 256;
  as_u64_saturated = λ n. min n u64_max;
  keccak_word = be_value 0;
  leading_zeros = λ n. 0;
  sload_skip_cold_load = λ a index skip h. (err cold_load_skipped, h);
  load_account_info_skip_cold_load = λ a h. (ok tt, h);
  Checkpoint = Unit {0};
  checkpoint = λ h. (tt, h);
  checkpoint_revert = λ c h. h;
  load_account_delegated = λ a h. (true, h);
  sload = λ a index h. (some 0, h);
  tstore = written;
  tload = λ a index h. h a index;
  as_u64_saturated_eq = λ n. refl;
  skipped_load_is_warm = λ a index h v e. never_loaded v (err cold_load_skipped) refl e;
}

storing_laws : TransientLaws storing_host
storing_laws = record { tload-tstore = λ a a' index index' value h. refl }

-- Slot 8 is set to 9.
abbrev storing : Machine
storing = record { stack = 8 ∷ 9 ∷ []; gas_left = 500; halted = none }

abbrev empty : Storage
empty a index = 0

-- Under a frame of contract 5, slot 8 is set to 9, and then read.
transient_refines_example :
    tload machines storing_host
      (asking 8)
      (accesses machines storing_host (store storing ∷ load (asking 8) ∷ []) empty)
    ≡ (
      machines.set_top
          (last_written machines storing_host (store storing ∷ load (asking 8) ∷ []) 5 8 0)
          (asking 8),
      accesses machines storing_host (store storing ∷ load (asking 8) ∷ []) empty,
    )
unfolding is_enabled_in
transient_refines_example =
    transient_refines machines storing_host storing_laws (store storing ∷ load (asking 8) ∷ [])
      (asking 8) empty

last_written_9 : last_written machines storing_host (store storing ∷ load (asking 8) ∷ []) 5 8 0 ≡ 9
unfolding is_enabled_in
last_written_9 = refl

-- ===== src/Tests/Machine.antt =====
-- A small interpreter and a small host.
use dogeos_revm.Prelude.{
  ℕ, ◌+◌, ◌-◌, ◌*◌, ◌≡◌, refl, min, Bool, true, false, List, [], ◌∷◌, Option, none, some, leb,
  if◌then◌else◌, Result, ok, err, arith,
}
use mathlib.Core.List.{foldl}
use dogeos_revm.L1Block.{u64_max}
use dogeos_revm.Spec.{ScrollSpecId}
use dogeos_revm.Instructions.{
  InstructionResult, InterpreterOps, StateLoad, LoadError, cold_load_skipped, HostOps,
  not_activated, fatal_external_error,
}

-- A stack, the gas that is left, and how the interpreter has halted.
pub record Machine : Type 0 where
  pub stack : List ℕ
  pub gas_left : ℕ
  pub halted : Option ℕ

abbrev pub stop : ℕ → Machine → Machine
stop code m = record m { halted = some code }

abbrev pub code_of : InstructionResult → ℕ
code_of not_activated = 1
code_of fatal_external_error = 2

abbrev pub top_of : List ℕ → Machine → Result Machine ℕ
top_of [] m = err (stop 4 m)
top_of (x ∷ xs) m = ok x

abbrev pub pop2_of : List ℕ → Machine → Result Machine (ℕ × ℕ × Machine)
pop2_of (x ∷ y ∷ rest) m = ok (x, y, record m { stack = rest })
pop2_of (x ∷ []) m = err (stop 4 m)
pop2_of [] m = err (stop 4 m)

abbrev pub replace_top : ℕ → List ℕ → List ℕ
replace_top n [] = []
replace_top n (x ∷ xs) = n ∷ xs

abbrev pub pay : ℕ → Machine → Machine
pay n m = record m { gas_left = m.gas_left - n }

-- No memory: MCOPY finds nothing to pop.
abbrev pub machines : InterpreterOps Machine
machines = record {
  popn_top = λ m. top_of m.stack m;
  set_top = λ n m. record m { stack = replace_top n m.stack };
  popn2 = λ m. pop2_of m.stack m;
  popn3 = λ m. err (stop 4 m);
  push = λ n m. record m { stack = n ∷ m.stack };
  remaining = λ m. m.gas_left;
  spend = pay;
  halt_oog = stop 3;
  gas = λ n m. if leb n m.gas_left then ok (pay n m) else err (stop 3 m);
  halt = λ r m. stop (code_of r) m;
  halt_fatal = stop 2;
  require_non_staticcall = λ m. ok tt;
  target_address = λ m. 5;
  as_usize_or_fail = λ n m. ok n;
  resize_memory = λ at n m. ok m;
  copy_memory = λ to from n m. m;
  gas_eq = λ n m. refl;
  spend-remaining = λ n m. refl;
}

abbrev pub load_slot : ℕ → Bool → Result LoadError StateLoad
load_slot index true = err cold_load_skipped
load_slot index false = ok (record { value = index * 10; is_cold = true })

pub skipped_is_no_load :
    (index : ℕ) (v : StateLoad) → load_slot index true ≡ ok v → v.is_cold ≡ false
skipped_is_no_load index v e = absurd (ground arith)

-- A host at block 300 that counts the transient stores; all slots are cold, and hold ten times
-- their number.
abbrev pub host_at : ScrollSpecId → HostOps ℕ
host_at spec = record {
  spec = spec;
  block_number = 300;
  chain_id = 534_352;
  basefee = 7;
  warm_storage_read_cost = 100;
  cold_storage_additional_cost = 2_000;
  mcopy_cost = λ n. n;
  block_hash_history = 256;
  as_u64_saturated = λ n. min n u64_max;
  keccak_word = foldl (λ n b. n + b) 0;
  leading_zeros = λ n. 256 - n;
  sload_skip_cold_load = λ a index skip h. (load_slot index skip, h);
  load_account_info_skip_cold_load = λ a h. (ok tt, h);
  Checkpoint = Unit {0};
  checkpoint = λ h. (tt, h);
  checkpoint_revert = λ c h. h;
  load_account_delegated = λ a h. (true, h);
  sload = λ a index h. (some (index * 10), h);
  tstore = λ a index value h. h + 1;
  tload = λ a index h. h;
  as_u64_saturated_eq = λ n. refl;
  skipped_load_is_warm = λ a index h v e. skipped_is_no_load index v e;
}

abbrev pub asking : ℕ → Machine
asking n = record { stack = n ∷ []; gas_left = 2_150; halted = none }

-- ===== src/Tests/Transfers.antt =====
-- The native transfer over balances alone.
use dogeos_revm.Prelude.{
  ℕ, ◌+◌, ◌*◌, ◌∷◌, [], ◌≡◌, refl, true, false, ◌++◌, replicate, Option, none, some, leb, ◌==◌,
  if◌then◌else◌, Result, ok, arith,
}
use mathlib.Core.List.{foldl}
use dogeos_revm.Uint.{native}
use dogeos_revm.Precompile.Transfer.{
  native_doge_token_address, PrecompileInput, Internals, ByteOps, from_of, to_of, value_of, run,
}
use dogeos_revm.Precompile.Transfer.Settlement.{
  moved_balance, Moved, JournalLaws, Settles, run-Settles,
}

-- A journal that is its balances, with databases that never fail.
abbrev pub moves : ℕ → ℕ → ℕ → (ℕ → ℕ) → Result (Unit {0}) (Option ℕ) × (ℕ → ℕ)
moves from to value s =
    if leb value (s from) then (ok none, moved_balance s from to value) else (ok (some 0), s)

abbrev pub ledger : Internals (ℕ → ℕ) (Unit {0})
ledger = record { load_account = λ a s. (ok (record { balance = s a }), s); transfer = moves }

abbrev pub itself : (ℕ → ℕ) → ℕ → ℕ
itself s a = s a

moves-Moved :
    (from to value : ℕ) (s : ℕ → ℕ)
    → (moves from to value s).0 ≡ ok none
    → Moved itself from to value s (moves from to value s).1
moves-Moved from to value s h = record { covered = ground arith; moved = λ a. ground arith }

ledger_laws : JournalLaws ledger itself
ledger_laws = record {
  load_reports = λ a s info h. ground arith;
  load_keeps = λ a s b. refl;
  transfer_moves = moves-Moved;
  transfer_refuses = λ from to value e s h fits a. ground arith;
}

abbrev pub byte_ops : ByteOps
byte_ops = record {
  address_from_slice = foldl (λ n b. n * 256 + b) 0;
  u256_from_be_slice = foldl (λ n b. n * 256 + b) 0;
}

-- From account 1 to account 2, the value 5.
abbrev pub sample_call : PrecompileInput
sample_call = record {
  input_bytes =
      replicate 31 0 ++ (1 ∷ []) ++ replicate 31 0 ++ (2 ∷ []) ++ replicate 31 0 ++ (5 ∷ []);
  gas = 10_000;
  caller = native_doge_token_address;
  is_static = false;
  is_direct_call = true;
}

abbrev pub before : ℕ → ℕ
before a = if a == 1 then 8 else 3

run-Settles_example :
    Settles itself
      (from_of byte_ops sample_call.input_bytes)
      (to_of byte_ops sample_call.input_bytes)
      (value_of byte_ops sample_call.input_bytes)
      before
      (run native ledger byte_ops sample_call before)
run-Settles_example = run-Settles native ledger itself ledger_laws byte_ops sample_call before

-- The receiver's balance afterwards.
receiver_balance : (run native ledger byte_ops sample_call before).1 2 ≡ 8
unfolding run
receiver_balance = refl

abbrev pub static_call : PrecompileInput
static_call = record sample_call { is_static = true }

-- ===== src/Tests/Supply.antt =====
-- Sequences of native transfers over balances alone.
use package.native.Mathlib.Nat.{mod-lt}
use mathlib.Core.List.{foldl}
use dogeos_revm.Prelude.{
  ℕ, ◌+◌, ◌*◌, ◌%◌, ◌≤◌, ◌≡◌, refl, List, [], ◌∷◌, Option, none, some, Result, ok, if◌then◌else◌,
  arith, be_value,
}
use dogeos_revm.Balances.{supply}
use dogeos_revm.Uint.{native, u256_max}
use dogeos_revm.Precompile.Transfer.{PrecompileInput, Internals, ByteOps, run}
use dogeos_revm.Precompile.Transfer.Settlement.{moved_balance, Moved, JournalLaws}
use dogeos_revm.Precompile.Transfer.Ledger.{
  Ledger, AnsweringLaws, possible, runs, spec_calls, spec_move, verdict_of, runs_refines,
}
use dogeos_revm.Precompile.Transfer.Calldata.{BigEndian, calldata, requested_transfer}
use dogeos_revm.Precompile.Transfer.Supply.{runs_conserve}
use dogeos_revm.Tests.Transfers.{itself, sample_call, static_call, before}

-- A journal that is its balances, and moves what is possible.
abbrev strict_moves : ℕ → ℕ → ℕ → Ledger → Result (Unit {0}) (Option ℕ) × Ledger
strict_moves from to value s =
    if possible from to value s then (ok none, moved_balance s from to value) else (ok (some 0), s)

abbrev strict : Internals Ledger (Unit {0})
strict = record {
  load_account = λ a s. (ok (record { balance = s a }), s);
  transfer = strict_moves;
}

strict_moves-Moved :
    (from to value : ℕ) (s : Ledger)
    → (strict_moves from to value s).0 ≡ ok none
    → Moved itself from to value s (strict_moves from to value s).1
strict_moves-Moved from to value s h = record { covered = ground arith; moved = λ a. ground arith }

strict_laws : JournalLaws strict itself
strict_laws = record {
  load_reports = λ a s info h. ground arith;
  load_keeps = λ a s b. refl;
  transfer_moves = strict_moves-Moved;
  transfer_refuses = λ from to value e s h fits a. ground arith;
}

strict_answers : AnsweringLaws strict itself
strict_answers = record {
  load_answers = λ a s. refl;
  transfer_covered = λ from to value s h. ground arith;
  transfer_short = λ from to value s h. (0, ground arith);
}

-- Addresses below ten.
abbrev small_addresses : ByteOps
small_addresses = record {
  address_from_slice = λ bytes. foldl (λ n b. n * 256 + b) 0 bytes % 10;
  u256_from_be_slice = foldl (λ n b. n * 256 + b) 0;
}

-- The sample call twice, the second one uncovered, and a static one.
abbrev session : List PrecompileInput
session = sample_call ∷ sample_call ∷ static_call ∷ []

before_bounded : (a : ℕ) → before a ≤ u256_max
before_bounded a = ground arith

runs_refines_example :
    runs native strict small_addresses session before ≡ spec_calls small_addresses session before
runs_refines_example =
    runs_refines native strict itself strict_laws strict_answers small_addresses session before

runs_conserve_example :
    let s' = (runs native strict small_addresses session before).1 in
    (supply 10 s' ≡ supply 10 before) × ((a : ℕ) → s' a ≤ u256_max)
runs_conserve_example =
    runs_conserve native strict itself strict_laws strict_answers small_addresses 10
      (λ bytes. mod-lt (foldl (λ n b. n * 256 + b) 0 bytes) (omega arith)) session before
      before_bounded

abbrev byte_values : ByteOps
byte_values = record { address_from_slice = be_value 0; u256_from_be_slice = be_value 0 }

big_endian : BigEndian byte_values
big_endian = record { address_be = λ bytes h. refl; word_be = λ bytes h. refl }

requested_transfer_example :
    let (result, s') =
      run native strict byte_values (record sample_call { input_bytes = calldata 1 2 5 }) before in
    (verdict_of result, s') ≡ spec_move 1 2 5 before
requested_transfer_example =
    requested_transfer byte_values big_endian native strict itself strict_laws strict_answers 1 2 5
      (record sample_call { input_bytes = calldata 1 2 5 }) before (omega arith) (omega arith)
      (omega arith) refl refl refl refl (omega arith)

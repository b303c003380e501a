-- ===== src/Precompile/Transfer.antt =====
-- src/precompile/transfer.rs: the native transfer. The journal behind `input.internals_mut()` is
-- revm's and is taken as its two operations; a state holds everything that they may change.
use dogeos_revm.Prelude.{
  ℕ, ◌+◌, Bool, true, false, not, List, [], length, take, drop, Option, none, some, ltb, ◌==◌,
  if◌then◌else◌, Result, ok, err, fail_if, ◌>>=◌, ◌>>◌,
}
use dogeos_revm.Uint.{UintOps}
use dogeos_revm.Precompile.{
  PrecompileError, out_of_gas, other, fatal, PrecompileOutput, PrecompileResult,
}
pub mod Settlement
pub mod Ledger
pub mod Calldata
pub mod Supply

abbrev pub native_doge_token_address : ℕ
native_doge_token_address = 0x530000000000000000000000000000000000d09e

abbrev pub gas_cost : ℕ
gas_cost = 9000

abbrev pub call_data_length : ℕ
call_data_length = 32 + 32 + 32

-- What is used of alloy-evm's `PrecompileInput`.
pub record PrecompileInput : Type 0 where
  pub input_bytes : List ℕ
  pub gas : ℕ
  pub caller : ℕ
  pub is_static : Bool
  pub is_direct_call : Bool

-- What is used of a loaded account, and of the journal. `transfer` answers with a transfer error,
-- here a number, or with nothing.
pub record AccountInfo : Type 0 where
  pub balance : ℕ

pub record Internals (S DbError : Type 0) : Type 0 where
  pub load_account : ℕ → S → Result DbError AccountInfo × S
  pub transfer : ℕ → ℕ → ℕ → S → Result DbError (Option ℕ) × S

-- `Address::from_slice` and `U256::from_be_slice`
pub record ByteOps : Type 0 where
  pub address_from_slice : List ℕ → ℕ
  pub u256_from_be_slice : List ℕ → ℕ

-- `PrecompileOutput::new` and `PrecompileOutput::new_reverted` with no bytes
abbrev pub output : ℕ → PrecompileOutput
output gas = record { gas_used = gas; bytes = []; reverted = false }

abbrev pub reverted_output : ℕ → PrecompileOutput
reverted_output gas = record { gas_used = gas; bytes = []; reverted = true }

-- `&bytes[lo..hi]`, by its start and its length
abbrev pub slice : List ℕ → ℕ → ℕ → List ℕ
slice bytes start count = take count (drop start bytes)

abbrev pub from_of : ByteOps → List ℕ → ℕ
from_of b input_bytes = b.address_from_slice (slice input_bytes 12 20)

abbrev pub to_of : ByteOps → List ℕ → ℕ
to_of b input_bytes = b.address_from_slice (slice input_bytes 44 20)

abbrev pub value_of : ByteOps → List ℕ → ℕ
value_of b input_bytes = b.u256_from_be_slice (slice input_bytes 64 32)

-- The early returns of `run`.
unfoldable pub guards : PrecompileInput → Result PrecompileError (Unit {0})
guards input = do
  fail_if input.is_static (other "transfer precompile cannot be called in a static context")
  fail_if (not input.is_direct_call)
      (other "transfer precompile must be called directly, not via delegatecall or callcode")
  fail_if (not (input.caller == native_doge_token_address))
      (other "transfer precompile can only be called by the allowed caller")
  fail_if (ltb input.gas gas_cost) out_of_gas
  fail_if (not (length input.input_bytes == call_data_length))
      (other "transfer precompile expects exactly 96 bytes of calldata")

-- The result of the last `match`.
abbrev pub answer : {DbError : Type 0} → Result DbError (Option ℕ) → PrecompileResult
answer (ok none) = ok (output gas_cost)
answer (ok (some _)) = ok (reverted_output gas_cost)
answer (err _) = err fatal

module _ {S DbError : Type 0} (u : UintOps) (j : Internals S DbError) where
  -- the last `match`: move the value
  unfoldable pub move_value : ℕ → ℕ → ℕ → S → PrecompileResult × S
  move_value from to value s = let (moved, s') = j.transfer from to value s in (answer moved, s')

  -- the arms of the first `match`: by the sum of the receiver's balance and the value
  unfoldable pub after_check : ℕ → ℕ → ℕ → Option ℕ → S → PrecompileResult × S
  unfolding move_value
  after_check from to value none s = (ok (reverted_output gas_cost), s)
  after_check from to value (some _) s = move_value from to value s

  -- and by the loaded account
  unfoldable pub after_load : ℕ → ℕ → ℕ → Result DbError AccountInfo → S → PrecompileResult × S
  unfolding after_check
  after_load from to value (ok account) s =
      after_check from to value (u.checked_add account.balance value) s
  after_load from to value (err _) s = (err fatal, s)

  -- the check of the receiver's balance, and then the move
  unfoldable pub check_and_move : ℕ → ℕ → ℕ → S → PrecompileResult × S
  unfolding move_value after_load
  check_and_move from to value s =
      if not (from == to)
      then (let (loaded, s') = j.load_account to s in after_load from to value loaded s')
      else move_value from to value s

  -- `run` after its early returns
  unfoldable pub after_guards :
      ByteOps → PrecompileInput → Result PrecompileError (Unit {0}) → S → PrecompileResult × S
  unfolding check_and_move
  after_guards b input (err e) s = (err e, s)
  after_guards b input (ok _) s =
      check_and_move (from_of b input.input_bytes) (to_of b input.input_bytes)
        (value_of b input.input_bytes) s

  -- `run`
  unfoldable pub run : ByteOps → PrecompileInput → S → PrecompileResult × S
  unfolding after_guards guards
  run b input s = after_guards b input (guards input) s

-- ===== src/Precompile/Transfer/Ledger.antt =====
-- src/precompile/transfer.rs: the abstract ledger that the native transfer promises, over balances
-- alone, and that `run` implements it call by call.
use mathlib.Core.Path.{fun_ext}
use dogeos_revm.Prelude.{
  ℕ, ◌+◌, ◌≤◌, ◌≡◌, ◌⊎◌, refl, true, false, not, ◌&&◌, ◌||◌, Bool, List, [], ◌∷◌, length, none,
  some, leb, ◌==◌, if◌then◌else◌, ok, err, arith, Bool-cases, inl, inr,
}
use dogeos_revm.Uint.{UintOps, u256_max}
use dogeos_revm.Precompile.{PrecompileResult}
use dogeos_revm.Precompile.Transfer.{
  native_doge_token_address, PrecompileInput, Internals, ByteOps, from_of, to_of, value_of, guards,
  move_value, after_check, after_load, check_and_move, run,
}
use dogeos_revm.Precompile.Transfer.Settlement.{moved_balance, JournalLaws}

abbrev pub Ledger : Type 0
Ledger = ℕ → ℕ

-- How a call ends, as its caller sees it.
pub data Verdict : Type 0 where
  done reverted refused : Verdict

abbrev pub verdict_of : PrecompileResult → Verdict
verdict_of (ok out) = if out.reverted then reverted else done
verdict_of (err _) = refused

-- Who may call, and how.
abbrev pub permitted : PrecompileInput → Bool
permitted input =
    not input.is_static
    && input.is_direct_call
    && (input.caller == native_doge_token_address)
    && leb 9000 input.gas
    && (length input.input_bytes == 96)

-- Whether the sender has the value and the receiver can hold it.
abbrev pub possible : ℕ → ℕ → ℕ → Ledger → Bool
possible from to value ledger =
    leb value (ledger from) && ((from == to) || leb (ledger to + value) u256_max)

abbrev pub spec_move : ℕ → ℕ → ℕ → Ledger → Verdict × Ledger
spec_move from to value ledger =
    if possible from to value ledger
    then (done, moved_balance ledger from to value)
    else (reverted, ledger)

-- One call on the abstract ledger.
abbrev pub spec_call : ByteOps → PrecompileInput → Ledger → Verdict × Ledger
spec_call b input ledger =
    let bytes = input.input_bytes in
    if permitted input
    then spec_move (from_of b bytes) (to_of b bytes) (value_of b bytes) ledger
    else (refused, ledger)

abbrev pub spec_calls : ByteOps → List PrecompileInput → Ledger → List Verdict × Ledger
spec_calls b [] ledger = ([], ledger)
spec_calls b (input ∷ inputs) ledger =
    let (verdict, ledger') = spec_call b input ledger in
    let (verdicts, ledger'') = spec_calls b inputs ledger' in (verdict ∷ verdicts, ledger'')

-- revm's journal over a database that answers: an account is loaded, and a transfer fails exactly
-- when the sender lacks the value or the receiver would overflow.
pub record AnsweringLaws {S DbError : Type 0} (j : Internals S DbError) (balance : S → ℕ → ℕ)
    : Type 0 where
  pub load_answers :
      (a : ℕ) (s : S) → (j.load_account a s).0 ≡ ok (record { balance = balance s a })
  pub transfer_covered :
      (from to value : ℕ) (s : S)
      → possible from to value (balance s) ≡ true
      → (j.transfer from to value s).0 ≡ ok none
  pub transfer_short :
      (from to value : ℕ) (s : S)
      → possible from to value (balance s) ≡ false
      → (code : ℕ) × ((j.transfer from to value s).0 ≡ ok (some code))

module _ {S DbError : Type 0} (u : UintOps) (j : Internals S DbError) (b : ByteOps) where
  -- A sequence of calls, with the verdict of each.
  unfoldable pub runs : List PrecompileInput → S → List Verdict × S
  unfolding run
  runs [] s = ([], s)
  runs (input ∷ inputs) s =
      let (result, s') = run u j b input s in
      let (verdicts, s'') = runs inputs s' in (verdict_of result ∷ verdicts, s'')

module _ {S DbError : Type 0} (u : UintOps) (j : Internals S DbError) (balance : S → ℕ → ℕ)
    (laws : JournalLaws j balance) (answers : AnsweringLaws j balance) where
  abbrev pub View : PrecompileResult × S → Verdict × Ledger
  View (result, s) = (verdict_of result, balance s)

  move_value-possible :
      (from to value : ℕ) (s : S)
      → possible from to value (balance s) ≡ true
      → View (move_value u j from to value s) ≡ (done, moved_balance (balance s) from to value)
  unfolding move_value
  move_value-possible from to value s h =
      let e = answers.transfer_covered from to value s h in
      rw (e, fun_ext (laws.transfer_moves from to value s e).moved) refl

  move_value_impossible :
      (from to value : ℕ) (s : S)
      → possible from to value (balance s) ≡ false
      → (from ≡ to) ⊎ (balance s to + value ≤ u256_max)
      → View (move_value u j from to value s) ≡ (reverted, balance s)
  unfolding move_value
  move_value_impossible from to value s h fits =
      let (code, e) = answers.transfer_short from to value s h in
      rw (e, fun_ext (laws.transfer_refuses from to value code s e fits)) refl

  -- The move where the receiver can hold the value, or is the sender.
  move_value_refines :
      (from to value : ℕ) (s : S)
      → (from ≡ to) ⊎ (balance s to + value ≤ u256_max)
      → View (move_value u j from to value s) ≡ spec_move from to value (balance s)
  move_value_refines from to value s fits = elim (Bool-cases (possible from to value (balance s))) [
    | inl can ↦ ground (arith, move_value-possible from to value s can)
    | inr cannot ↦ ground (arith, move_value_impossible from to value s cannot fits)
  ]

  -- After a load, which leaves the balances as they are.
  load_refines :
      (from to value : ℕ) (s : S)
      → (from == to) ≡ false
      → View (after_load u j from to value (j.load_account to s).0 (j.load_account to s).1)
        ≡ spec_move from to value (balance s)
  unfolding after_load after_check
  load_refines from to value s differ =
      let t = (j.load_account to s).1 in
      let same : balance t ≡ balance s = fun_ext (laws.load_keeps to s) in
      elim (Bool-cases (leb (balance s to + value) u256_max)) [
        | inl fits ↦ ground (
          arith,
          same,
          answers.load_answers to s,
          u.checked_add_eq (balance s to) value,
          move_value_refines from to value t (inr (ground (arith, laws.load_keeps to s to))),
        )
        | inr overflows ↦
            ground (arith, same, answers.load_answers to s, u.checked_add_eq (balance s to) value)
      ]

  check_and_move_refines :
      (from to value : ℕ) (s : S)
      → View (check_and_move u j from to value s) ≡ spec_move from to value (balance s)
  unfolding check_and_move
  check_and_move_refines from to value s = elim (Bool-cases (from == to)) [
    | inl same ↦ ground (arith, move_value_refines from to value s (inl (ground arith)))
    | inr differ ↦ ground (arith, load_refines from to value s differ)
  ]

  -- A call of the precompile ends as the call of the abstract ledger does, and leaves its balances.
  pub run_refines :
      (b : ByteOps) (input : PrecompileInput) (s : S)
      → View (run u j b input s) ≡ spec_call b input (balance s)
  unfolding run guards
  run_refines b input s =
      let bytes = input.input_bytes in
      ground (arith, check_and_move_refines (from_of b bytes) (to_of b bytes) (value_of b bytes) s)

  -- Over a journal whose database answers, any sequence of calls of the native transfer gives the
  -- verdicts of the abstract ledger and leaves its balances. On the ledger a call that is not
  -- permitted is refused, one whose sender lacks the value or whose receiver would exceed 256 bits is
  -- reverted, both without effect, and any other one moves exactly the value.
  pub runs_refines :
      (b : ByteOps) (inputs : List PrecompileInput) (s : S)
      → (let (verdicts, s') = runs u j b inputs s in (verdicts, balance s'))
        ≡ spec_calls b inputs (balance s)
  unfolding runs
  runs_refines b [] s = refl
  runs_refines b (input ∷ inputs) s =
      ground (arith, runs_refines b inputs (run u j b input s).1, run_refines b input s)

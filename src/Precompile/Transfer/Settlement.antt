-- ===== src/Precompile/Transfer/Settlement.antt =====
-- src/precompile/transfer.rs: what a call of the native transfer does to the balances.
use dogeos_revm.Prelude.{
  ℕ, ◌+◌, ◌-◌, ◌≤◌, ◌≡◌, ◌≢◌, ◌∙◌, refl, true, false, length, Option, none, some, ◌==◌,
  if◌then◌else◌, Result, ok, err, arith, Bool-cases, Result-cases, inl, inr, ◌⊎◌,
}
use dogeos_revm.Balances.{SameBalances}
use dogeos_revm.Uint.{UintOps, u256_max}
use dogeos_revm.Precompile.{PrecompileError, out_of_gas, other, fatal, foreign, PrecompileResult}
use dogeos_revm.Precompile.Transfer.{
  native_doge_token_address, gas_cost, PrecompileInput, AccountInfo, Internals, ByteOps, from_of,
  to_of, value_of, move_value, check_and_move, guards, after_guards, after_check, after_load, run,
  answer,
}

-- The balance of `a` after the value has left `from` and reached `to`; from an account to itself
-- nothing moves.
abbrev pub moved_balance : (ℕ → ℕ) → ℕ → ℕ → ℕ → ℕ → ℕ
moved_balance balance from to value a =
    if from == to
    then balance a
    else if a == from
    then balance a - value
    else if a == to
    then balance a + value
    else balance a

pub record Moved {S : Type 0} (balance : S → ℕ → ℕ) (from to value : ℕ) (s s' : S) : Type 0 where
  pub covered : value ≤ balance s from
  pub moved : (a : ℕ) → balance s' a ≡ moved_balance (balance s) from to value a

-- What the precompile relies on of revm's journal. Loading an account reports its balance and
-- moves nothing. A transfer that answers nothing has moved the value; one that answers an error
-- has moved nothing, provided that the receiver's balance does not overflow: otherwise the
-- sender has paid already.
pub record JournalLaws {S DbError : Type 0} (j : Internals S DbError) (balance : S → ℕ → ℕ)
    : Type 0 where
  pub load_reports :
      (a : ℕ) (s : S) (info : AccountInfo)
      → (j.load_account a s).0 ≡ ok info
      → info.balance ≡ balance s a
  pub load_keeps : (a : ℕ) (s : S) → SameBalances balance s (j.load_account a s).1
  pub transfer_moves :
      (from to value : ℕ) (s : S)
      → (j.transfer from to value s).0 ≡ ok none
      → Moved balance from to value s (j.transfer from to value s).1
  pub transfer_refuses :
      (from to value e : ℕ) (s : S)
      → (j.transfer from to value s).0 ≡ ok (some e)
      → (from ≡ to) ⊎ (balance s to + value ≤ u256_max)
      → SameBalances balance s (j.transfer from to value s).1

Moved-after_load :
    {S : Type 0} (balance : S → ℕ → ℕ) (from to value : ℕ) (s t s' : S)
    → SameBalances balance s t
    → Moved balance from to value t s'
    → Moved balance from to value s s'
Moved-after_load balance from to value s t s' same m = record {
  covered = omega (arith, same from, m.covered);
  moved = λ a. ground (arith, same a, m.moved a);
}

-- How a call ended, and what it did. Nothing is claimed of the balances after a fatal error, on
-- which the execution is abandoned.
abbrev pub Settles : {S : Type 0} → (S → ℕ → ℕ) → ℕ → ℕ → ℕ → S → PrecompileResult × S → Type 0
Settles balance from to value s (ok out, s') =
    (out.gas_used ≡ gas_cost)
    × (if out.reverted then SameBalances balance s s' else Moved balance from to value s s')
Settles balance from to value s (err fatal, s') = Unit {0}
Settles balance from to value s (err out_of_gas, s') = SameBalances balance s s'
Settles balance from to value s (err (other _), s') = SameBalances balance s s'
Settles balance from to value s (err (foreign _), s') = SameBalances balance s s'

answer-Settles :
    {S DbError : Type 0} (balance : S → ℕ → ℕ) (from to value : ℕ) (s s' : S)
    (r : Result DbError (Option ℕ))
    → (r ≡ ok none → Moved balance from to value s s')
    → ((e : ℕ) → r ≡ ok (some e) → SameBalances balance s s')
    → Settles balance from to value s (answer r, s')
answer-Settles balance from to value s s' (ok none) moved same = (refl, moved refl)
answer-Settles balance from to value s s' (ok (some e)) moved same = (refl, same e refl)
answer-Settles balance from to value s s' (err d) moved same = tt

guards_hold :
    (input : PrecompileInput)
    → guards input ≡ ok tt
    → (input.is_static ≡ false)
      × (input.is_direct_call ≡ true)
      × (input.caller ≡ native_doge_token_address)
      × (9000 ≤ input.gas)
      × (length input.input_bytes ≡ 96)
unfolding guards
guards_hold input h = ground arith

guards-ne-fatal : (input : PrecompileInput) (e : PrecompileError) → guards input ≡ err e → e ≢ fatal
unfolding guards
guards-ne-fatal input e h = ground arith

module _ {S DbError : Type 0} (u : UintOps) (j : Internals S DbError) (balance : S → ℕ → ℕ)
    (laws : JournalLaws j balance) where
  -- After `s` became `t` by loading an account.
  move_value-Settles :
      (from to value : ℕ) (s t : S)
      → SameBalances balance s t
      → (from ≡ to) ⊎ (balance t to + value ≤ u256_max)
      → Settles balance from to value s (move_value u j from to value t)
  unfolding move_value
  move_value-Settles from to value s t loaded fits =
      answer-Settles balance from to value s _ (j.transfer from to value t).0
        (λ e.
          Moved-after_load balance from to value s t _ loaded
            (laws.transfer_moves from to value t e))
        (λ c e a. laws.transfer_refuses from to value c t e fits a ∙ loaded a)

  after_load-Settles :
      (from to value : ℕ) (s t : S) (r : Result DbError AccountInfo)
      → SameBalances balance s t
      → ((info : AccountInfo) → r ≡ ok info → info.balance ≡ balance s to)
      → Settles balance from to value s (after_load u j from to value r t)
  unfolding after_load
  after_load-Settles from to value s t (err d) same reports = tt
  after_load-Settles from to value s t (ok account) same reports =
      checked (u.checked_add account.balance value) refl
    where
      checked :
          (sum : Option ℕ)
          → u.checked_add account.balance value ≡ sum
          → Settles balance from to value s (after_check u j from to value sum t)
      checked none e = (refl, same)
      checked (some total) e = move_value-Settles from to value s t same (
          inr
            (ground (arith, reports account refl, same to, u.checked_add_eq account.balance value)))

  check_and_move-Settles :
      (from to value : ℕ) (s : S)
      → Settles balance from to value s (check_and_move u j from to value s)
  unfolding check_and_move
  check_and_move-Settles from to value s = elim (Bool-cases (from == to)) [
    | inl same ↦
        rw (same, check_and_move)
          (move_value-Settles from to value s s (λ a. refl) (inl (ground arith)))
    | inr differ ↦
        rw (differ, check_and_move)
          (after_load-Settles from to value s _ (j.load_account to s).0 (laws.load_keeps to s)
            (laws.load_reports to s))
  ]

  -- A call moves the value from sender to receiver in full, or moves nothing: an output that is
  -- not reverted has moved it, and a reverted output or an error that is not fatal leaves every
  -- balance as it was, also where the receiver's balance would overflow. Every output costs 9000.
  pub run-Settles :
      (b : ByteOps) (input : PrecompileInput) (s : S)
      → let bytes = input.input_bytes in
        Settles balance (from_of b bytes) (to_of b bytes) (value_of b bytes) s (run u j b input s)
  unfolding run
  run-Settles b input s = by_guards (guards input)
    where
      by_guards :
          (g : Result PrecompileError (Unit {0}))
          → Settles balance
              (from_of b input.input_bytes)
              (to_of b input.input_bytes)
              (value_of b input.input_bytes)
              s
              (after_guards u j b input g s)
      by_guards (err out_of_gas) = λ a. refl
      by_guards (err (other _)) = λ a. refl
      by_guards (err fatal) = tt
      by_guards (err (foreign _)) = λ a. refl
      by_guards (ok _) = check_and_move-Settles _ _ _ s

-- The precompile runs only for the DOGE token contract, called directly and not in a static
-- context, with at least 9000 gas and exactly 96 bytes: otherwise the call is an error that is not
-- fatal and the state is left as it was.
run_guarded :
    {S DbError : Type 0} (u : UintOps) (j : Internals S DbError) (b : ByteOps)
    (input : PrecompileInput) (s : S)
    → ((input.is_static ≡ false)
        × (input.is_direct_call ≡ true)
        × (input.caller ≡ native_doge_token_address)
        × (9000 ≤ input.gas)
        × (length input.input_bytes ≡ 96))
      ⊎ ((e : PrecompileError) × (run u j b input s ≡ (err e, s)) × (e ≢ fatal))
unfolding run
run_guarded u j b input s = elim (Result-cases (guards input)) [
  | inl (_, e) ↦ inl (guards_hold input e)
  | inr (err', e) ↦ inr (err', rw e, guards-ne-fatal input err' e)
]

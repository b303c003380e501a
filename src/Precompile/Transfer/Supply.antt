-- ===== src/Precompile/Transfer/Supply.antt =====
-- src/precompile/transfer.rs: what no sequence of native transfers can do to the balances.
use dogeos_revm.Prelude.{
  ℕ, zero, suc, ◌+◌, ◌≤◌, ◌<◌, ◌≡◌, ◌∙◌, refl, ap, ◌⊎◌, Bool, List, [], ◌∷◌, ltb, ◌==◌,
  if◌then◌else◌, true, false, arith, Bool-cases, inl, inr,
}
use dogeos_revm.Balances.{supply}
use dogeos_revm.Uint.{UintOps, u256_max}
use dogeos_revm.Precompile.Transfer.{
  PrecompileInput, Internals, ByteOps, from_of, to_of, value_of, slice,
}
use dogeos_revm.Precompile.Transfer.Settlement.{moved_balance, JournalLaws}
use dogeos_revm.Precompile.Transfer.Ledger.{
  Ledger, refused, permitted, possible, spec_move, spec_call, spec_calls, AnsweringLaws, runs,
  runs_refines,
}

-- Below a bound, a move takes the value where the sender counts and gives it where the receiver does.
supply-moved_balance :
    (from to value : ℕ) (ledger : Ledger)
    → (from == to) ≡ false
    → value ≤ ledger from
    → (n : ℕ)
    → supply n (moved_balance ledger from to value) + (if ltb from n then value else 0)
      ≡ supply n ledger + (if ltb to n then value else 0)
supply-moved_balance from to value ledger differ covered zero = ground arith
supply-moved_balance from to value ledger differ covered (suc n) =
    ground (arith, supply-moved_balance from to value ledger differ covered n)

supply-spec_move :
    (n from to value : ℕ) (ledger : Ledger)
    → from < n
    → to < n
    → supply n (spec_move from to value ledger).1 ≡ supply n ledger
supply-spec_move n from to value ledger from_below to_below = elim (Bool-cases (from == to)) [
  | inl same ↦ ground arith
  | inr differ ↦ elim (Bool-cases (possible from to value ledger)) [
    | inl can ↦ ground (arith, supply-moved_balance from to value ledger differ (ground arith) n)
    | inr cannot ↦ ground arith
  ]
]

spec_move_bounded :
    (from to value : ℕ) (ledger : Ledger)
    → ((a : ℕ) → ledger a ≤ u256_max)
    → (a : ℕ) → (spec_move from to value ledger).1 a ≤ u256_max
spec_move_bounded from to value ledger bounded a = ground (arith, bounded a, bounded to)

-- A call that is not permitted leaves the ledger, and any other is a move.
spec_call-cases :
    (b : ByteOps) (input : PrecompileInput) (ledger : Ledger)
    → let bytes = input.input_bytes in
      ((spec_call b input ledger).1 ≡ ledger)
      ⊎ (spec_call b input ledger
          ≡ spec_move (from_of b bytes) (to_of b bytes) (value_of b bytes) ledger)
spec_call-cases b input ledger = by_permission (permitted input)
  where
    by_permission :
        (p : Bool)
        → let bytes = input.input_bytes in
          let moved = spec_move (from_of b bytes) (to_of b bytes) (value_of b bytes) ledger in
          let called = if p then moved else (refused, ledger) in
          (called.1 ≡ ledger) ⊎ (called ≡ moved)
    by_permission true = inr refl
    by_permission false = inl refl

module _ (n : ℕ) (b : ByteOps) (below : (bytes : List ℕ) → b.address_from_slice bytes < n) where
  supply-spec_call :
      (input : PrecompileInput) (ledger : Ledger)
      → supply n (spec_call b input ledger).1 ≡ supply n ledger
  supply-spec_call input ledger = elim (spec_call-cases b input ledger) [
    | inl left ↦ ap (supply n) left
    | inr moved ↦
        let bytes = input.input_bytes in
        ap (λ r. supply n r.1) moved
        ∙ supply-spec_move n (from_of b bytes) (to_of b bytes) (value_of b bytes) ledger
            (below (slice bytes 12 20)) (below (slice bytes 44 20))
  ]

  supply-spec_calls :
      (inputs : List PrecompileInput) (ledger : Ledger)
      → supply n (spec_calls b inputs ledger).1 ≡ supply n ledger
  supply-spec_calls [] ledger = refl
  supply-spec_calls (input ∷ inputs) ledger =
      supply-spec_calls inputs (spec_call b input ledger).1 ∙ supply-spec_call input ledger

spec_call_bounded :
    (b : ByteOps) (input : PrecompileInput) (ledger : Ledger)
    → ((a : ℕ) → ledger a ≤ u256_max)
    → (a : ℕ) → (spec_call b input ledger).1 a ≤ u256_max
spec_call_bounded b input ledger bounded a = elim (spec_call-cases b input ledger) [
  | inl left ↦ rw left (bounded a)
  | inr moved ↦
      let bytes = input.input_bytes in
      rw moved
        (spec_move_bounded (from_of b bytes) (to_of b bytes) (value_of b bytes) ledger bounded a)
]

spec_calls_bounded :
    (b : ByteOps) (inputs : List PrecompileInput) (ledger : Ledger)
    → ((a : ℕ) → ledger a ≤ u256_max)
    → (a : ℕ) → (spec_calls b inputs ledger).1 a ≤ u256_max
spec_calls_bounded b [] ledger bounded = bounded
spec_calls_bounded b (input ∷ inputs) ledger bounded =
    spec_calls_bounded b inputs (spec_call b input ledger).1
      (spec_call_bounded b input ledger bounded)

module _ {S DbError : Type 0} (u : UintOps) (j : Internals S DbError) (balance : S → ℕ → ℕ)
    (laws : JournalLaws j balance) (answers : AnsweringLaws j balance) where
  -- No sequence of calls of the native transfer, by whomever and with whatever calldata, creates or
  -- destroys money, or makes a balance exceed 256 bits: over a database that answers, and with every
  -- address below a bound, the sum of the balances below the bound is the same afterwards, and
  -- balances that were all within 256 bits still are.
  pub runs_conserve :
      (b : ByteOps) (n : ℕ)
      → ((bytes : List ℕ) → b.address_from_slice bytes < n)
      → (inputs : List PrecompileInput) (s : S) → ((a : ℕ) → balance s a ≤ u256_max)
      → let s' = (runs u j b inputs s).1 in
        (supply n (balance s') ≡ supply n (balance s)) × ((a : ℕ) → balance s' a ≤ u256_max)
  runs_conserve b n below inputs s bounded =
      let refines : balance (runs u j b inputs s).1 ≡ (spec_calls b inputs (balance s)).1 =
        ap (λ r. r.1) (runs_refines u j balance laws answers b inputs s) in
      (
        ap (supply n) refines ∙ supply-spec_calls n b below inputs (balance s),
        λ a. rw refines (spec_calls_bounded b inputs (balance s) bounded a),
      )

-- ===== src/Precompile/Transfer/Calldata.antt =====
-- src/precompile/transfer.rs: the calldata of the native transfer, as its documentation and the
-- DOGE token contract write it: three words of 32 bytes, two addresses padded on the left and the
-- value, each with its most significant byte first.
use dogeos_revm.Prelude.{
  ℕ, ◌^◌, ◌<◌, ◌≤◌, ◌≡◌, ◌∙◌, refl, ap, List, ◌++◌, length, replicate, be_value, be_bytes,
  length-be_bytes, be_value-be_bytes, true, false, arith,
}
use dogeos_revm.Uint.{UintOps}
use dogeos_revm.Precompile.Transfer.{
  native_doge_token_address, PrecompileInput, ByteOps, Internals, slice, from_of, to_of, value_of,
  run,
}
use dogeos_revm.Precompile.Transfer.Settlement.{JournalLaws}
use dogeos_revm.Precompile.Transfer.Ledger.{
  Ledger, AnsweringLaws, permitted, verdict_of, spec_call, spec_move, run_refines,
}

-- `Address::from_slice` on 20 bytes and `U256::from_be_slice` on 32.
pub record BigEndian (b : ByteOps) : Type 0 where
  pub address_be :
      (bytes : List ℕ) → length bytes ≡ 20 → b.address_from_slice bytes ≡ be_value 0 bytes
  pub word_be : (bytes : List ℕ) → length bytes ≡ 32 → b.u256_from_be_slice bytes ≡ be_value 0 bytes

abbrev padding : List ℕ
padding = replicate 12 0

-- The calldata of a transfer.
unfoldable pub calldata : ℕ → ℕ → ℕ → List ℕ
calldata from to value =
    padding ++ (be_bytes 20 from ++ (padding ++ (be_bytes 20 to ++ be_bytes 32 value)))

length-calldata : (from to value : ℕ) → length (calldata from to value) ≡ 96
unfolding calldata
length-calldata from to value = refl

from_bytes : (from to value : ℕ) → slice (calldata from to value) 12 20 ≡ be_bytes 20 from
unfolding calldata
from_bytes from to value = refl

to_bytes : (from to value : ℕ) → slice (calldata from to value) 44 20 ≡ be_bytes 20 to
unfolding calldata
to_bytes from to value = refl

value_bytes : (from to value : ℕ) → slice (calldata from to value) 64 32 ≡ be_bytes 32 value
unfolding calldata
value_bytes from to value = refl

module _ (b : ByteOps) (be : BigEndian b) where
  from_of-calldata :
      (from to value : ℕ) → from < 2 ^ 160 → from_of b (calldata from to value) ≡ from
  from_of-calldata from to value h =
      ap b.address_from_slice (from_bytes from to value)
      ∙ be.address_be (be_bytes 20 from) (length-be_bytes 20 from)
      ∙ be_value-be_bytes 20 from h

  to_of-calldata : (from to value : ℕ) → to < 2 ^ 160 → to_of b (calldata from to value) ≡ to
  to_of-calldata from to value h =
      ap b.address_from_slice (to_bytes from to value)
      ∙ be.address_be (be_bytes 20 to) (length-be_bytes 20 to)
      ∙ be_value-be_bytes 20 to h

  value_of-calldata :
      (from to value : ℕ) → value < 2 ^ 256 → value_of b (calldata from to value) ≡ value
  value_of-calldata from to value h =
      ap b.u256_from_be_slice (value_bytes from to value)
      ∙ be.word_be (be_bytes 32 value) (length-be_bytes 32 value)
      ∙ be_value-be_bytes 32 value h

  -- Reading the calldata of a transfer gives back its sender, receiver and value, where they fit 160,
  -- 160 and 256 bits, and the calldata has the length that the precompile asks for.
  pub decode-calldata :
      (from to value : ℕ)
      → from < 2 ^ 160
      → to < 2 ^ 160
      → value < 2 ^ 256
      → let bytes = calldata from to value in
        (length bytes ≡ 96)
        × (from_of b bytes ≡ from)
        × (to_of b bytes ≡ to)
        × (value_of b bytes ≡ value)
  decode-calldata from to value f t v = (
    length-calldata from to value,
    from_of-calldata from to value f,
    to_of-calldata from to value t,
    value_of-calldata from to value v,
  )

  requested :
      (from to value : ℕ) (input : PrecompileInput) (ledger : Ledger)
      → from < 2 ^ 160
      → to < 2 ^ 160
      → value < 2 ^ 256
      → input.input_bytes ≡ calldata from to value
      → input.is_static ≡ false
      → input.is_direct_call ≡ true
      → input.caller ≡ native_doge_token_address
      → 9000 ≤ input.gas
      → spec_call b input ledger ≡ spec_move from to value ledger
  requested from to value input ledger f t v e not_static direct caller paid =
      let (n, p, q, r) = decode-calldata from to value f t v in
      let allowed : permitted input ≡ true = ground (arith, ap length e ∙ n) in
      rw (allowed, ap (from_of b) e ∙ p, ap (to_of b) e ∙ q, ap (value_of b) e ∙ r) refl

  -- A transfer that the DOGE token contract asks for with well-formed calldata and 9000 gas or more,
  -- by a direct call outside a static context, over a database that answers, moves exactly the value
  -- from the sender to the receiver if the sender holds it and the receiver's balance stays within
  -- 256 bits, and otherwise is reverted with every balance as it was.
  pub requested_transfer :
      {S DbError : Type 0} (u : UintOps) (j : Internals S DbError) (balance : S → ℕ → ℕ)
      → JournalLaws j balance
      → AnsweringLaws j balance
      → (from to value : ℕ) (input : PrecompileInput) (s : S) → from < 2 ^ 160
      → to < 2 ^ 160
      → value < 2 ^ 256
      → input.input_bytes ≡ calldata from to value
      → input.is_static ≡ false
      → input.is_direct_call ≡ true
      → input.caller ≡ native_doge_token_address
      → 9000 ≤ input.gas
      → let (result, s') = run u j b input s in
        (verdict_of result, balance s') ≡ spec_move from to value (balance s)
  requested_transfer u j balance laws answers from to value input s f t v e not_static direct caller
        paid =
      run_refines u j balance laws answers b input s
      ∙ requested from to value input (balance s) f t v e not_static direct caller paid

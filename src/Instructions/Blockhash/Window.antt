-- ===== src/Instructions/Blockhash/Window.antt =====
-- src/instructions.rs: what `blockhash` answers outside the window of the history and inside it.
use dogeos_revm.Prelude.{
  ℕ, ◌+◌, ◌-◌, ◌%◌, ◌≤◌, ◌<◌, ◌≡◌, ◌⊎◌, min, true, false, none, some, if◌then◌else◌, ok, err, arith,
}
use dogeos_revm.Uint.{UintOps}
use dogeos_revm.L1Block.{u64_max}
use dogeos_revm.Spec.{feynman, tsuki_v2, is_enabled_in}
use dogeos_revm.Instructions.{InterpreterOps, HostOps, fatal_external_error}
use dogeos_revm.Instructions.Blockhash.{
  history_storage_address, compute_block_hash, history_before_tsuki_v2, hash_at, blockhash_of,
  blockhash,
}

module _ {I H : Type 0} (u : UintOps) (it : InterpreterOps I) (host : HostOps H) where
  -- A block that is current, in the future or older than the history hashes to zero, under every
  -- hardfork: the host is left as it was, and the interpreter only has its top overwritten, so
  -- nothing is charged.
  pub blockhash_outside_window :
      (i : I) (h : H) (number : ℕ)
      → host.block_hash_history < u64_max
      → it.popn_top i ≡ ok number
      → (host.block_number ≤ number) ⊎ (number + host.block_hash_history < host.block_number)
      → blockhash u it host i h ≡ (it.set_top 0 i, h)
  unfolding blockhash blockhash_of hash_at
  blockhash_outside_window i h number narrow top outside = ground (
    arith,
    u.checked_sub_eq host.block_number number,
    host.as_u64_saturated_eq (host.block_number - number),
  )

  -- Inside the window the answer is `hash_at`'s, whose early return ends the instruction.
  pub blockhash_inside_window :
      (i : I) (h : H) (number : ℕ)
      → it.popn_top i ≡ ok number
      → number < host.block_number
      → blockhash u it host i h ≡ (
          let (r, h') = hash_at u it host number (min (host.block_number - number) u64_max) i h in
          (elim r [ err i' ↦ i' | ok (hash, i') ↦ it.set_top hash i' ], h'))
  unfolding blockhash blockhash_of
  blockhash_inside_window i h number top inside = ground (
    arith,
    u.checked_sub_eq host.block_number number,
    host.as_u64_saturated_eq (host.block_number - number),
  )

  -- Inside the window and before Feynman the answer is the hash of the chain id and the number,
  -- both cut off at 64 bits; the host is left as it was and nothing is charged.
  blockhash_before_feynman :
      (i : I) (h : H) (number : ℕ)
      → it.popn_top i ≡ ok number
      → number < host.block_number
      → host.block_number ≤ number + host.block_hash_history
      → is_enabled_in host.spec feynman ≡ false
      → blockhash u it host i h ≡ (
        it.set_top
            (compute_block_hash u it host (min host.chain_id u64_max) (min number u64_max))
            i,
        h,
      )
  unfolding hash_at
  blockhash_before_feynman i h number top inside recent off = ground (
    arith,
    blockhash_inside_window i h number top inside,
    host.as_u64_saturated_eq host.chain_id,
    host.as_u64_saturated_eq number,
  )

  -- Inside the window, from Feynman and before TsukiV2, the answer is the history contract's slot
  -- at the number modulo 8191, the account being loaded first: nothing is charged, and the
  -- interpreter halts fatally, its top as it was, when either load fails.
  pub blockhash_from_feynman :
      (i : I) (h : H) (number : ℕ)
      → it.popn_top i ≡ ok number
      → number < host.block_number
      → number ≤ u64_max
      → host.block_number ≤ number + host.block_hash_history
      → is_enabled_in host.spec feynman ≡ true
      → is_enabled_in host.spec tsuki_v2 ≡ false
      → let (present, h₁) = host.load_account_delegated history_storage_address h in
        let (slot, h₂) = host.sload history_storage_address (number % 8191) h₁ in
        blockhash u it host i h ≡ (
          if present
          then (
            elim slot [ some word ↦ it.set_top word i | none ↦ it.halt fatal_external_error i ],
            h₂,
          )
          else (it.halt fatal_external_error i, h₁))
  unfolding hash_at history_before_tsuki_v2
  blockhash_from_feynman i h number top inside fits recent on off =
      ground (arith, blockhash_inside_window i h number top inside, host.as_u64_saturated_eq number)

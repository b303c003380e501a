-- ===== src/Instructions/Blockhash/Ring.antt =====
-- src/instructions.rs: from Feynman BLOCKHASH reads the history contract of EIP-2935, which keeps
-- the hashes of the last 8191 blocks in a ring.
use dogeos_revm.Prelude.{
  ℕ, zero, suc, ◌+◌, ◌%◌, ◌<◌, ◌≤◌, ◌≡◌, ◌≢◌, ◌==◌, ◌∙◌, ap, Bool, inl, inr, none, some, true, ltb,
  if◌then◌else◌, Bool-cases, Result-cases, Option-cases, ok, err, arith,
}
use dogeos_revm.Uint.{UintOps}
use dogeos_revm.L1Block.{u64_max}
use dogeos_revm.Spec.{feynman, tsuki_v2, is_enabled_in}
use dogeos_revm.Instructions.{
  InterpreterOps, HostOps, StateLoad, cold_load_skipped, db_error, fatal_external_error,
}
use dogeos_revm.Instructions.Blockhash.{
  blockhash, history_storage_address, eip7709_history_sload, after_first_load,
}
use dogeos_revm.Instructions.Blockhash.Window.{blockhash_from_feynman}
use dogeos_revm.Instructions.Blockhash.Price.{settled, blockhash_from_tsuki_v2}

-- The contract's storage once the hashes of the blocks below a number are written, each into the
-- slot of its number modulo 8191.
abbrev pub ring : (ℕ → ℕ) → ℕ → ℕ → ℕ
ring hash_of zero slot = 0
ring hash_of (suc n) slot = if slot == n % 8191 then hash_of n else ring hash_of n slot

slots_differ : (n m : ℕ) → n < m → m < n + 8191 → n % 8191 ≢ m % 8191
slots_differ n m lower upper same = absurd (omega arith)

-- The last 8191 hashes are still there.
ring_serves :
    (hash_of : ℕ → ℕ) (next n : ℕ)
    → n < next
    → next ≤ n + 8191
    → ring hash_of next (n % 8191) ≡ hash_of n
ring_serves hash_of zero n below recent = absurd (omega arith)
ring_serves hash_of (suc m) n below recent = elim (Bool-cases (n == m)) [
  | inl same ↦ let e : n ≡ m = ground arith in ground (arith, ap hash_of e)
  | inr other ↦
      let earlier : n < m = ground arith in
      ground (
        arith,
        slots_differ n m earlier (omega arith),
        ring_serves hash_of m n earlier (omega arith),
      )
]

-- How a look-up may end: with the hash on top of an interpreter that has paid, or halted.
pub data Served {I : Type 0} (it : InterpreterOps I) (hash : ℕ) : I → Type 0 where
  answered : (paid : I) → Served it hash (it.set_top hash paid)
  out_of_gas : (i : I) → Served it hash (it.halt_oog i)
  failed : (i : I) → Served it hash (it.halt_fatal i)
  halted : (i : I) → Served it hash (it.halt fatal_external_error i)

-- A view of the history contract's storage: a load that answers answers with the slot, and the
-- loads of the account and the journal's checkpoints change no slot.
pub record HistoryLaws {H : Type 0} (host : HostOps H) (storage : H → ℕ → ℕ) : Type 0 where
  pub skip_load_reads :
      (slot : ℕ) (skip : Bool) (h : H) (load : StateLoad)
      → (host.sload_skip_cold_load history_storage_address slot skip h).0 ≡ ok load
      → load.value ≡ storage h slot
  pub load_reads :
      (slot : ℕ) (h : H) (word : ℕ)
      → (host.sload history_storage_address slot h).0 ≡ some word
      → word ≡ storage h slot
  pub account_keeps :
      (h : H) (slot : ℕ)
      → storage (host.load_account_delegated history_storage_address h).1 slot ≡ storage h slot
  -- after a skipped load, the account is loaded within a checkpoint that is reverted
  pub prepared_keeps :
      (slot index : ℕ) (skip : Bool) (h : H)
      → let h' = (host.sload_skip_cold_load history_storage_address index skip h).1 in
        let (checkpoint, h₁) = host.checkpoint h' in
        let h₂ = (host.load_account_info_skip_cold_load history_storage_address h₁).1 in
        storage (host.checkpoint_revert checkpoint h₂) slot ≡ storage h slot

module _ {I H : Type 0} (u : UintOps) (it : InterpreterOps I) (host : HostOps H)
    (storage : H → ℕ → ℕ) (laws : HistoryLaws host storage) where
  history_sload_reads :
      (index : ℕ) (skip : Bool) (h : H) (load : StateLoad)
      → (eip7709_history_sload u it host index skip h).0 ≡ ok load
      → load.value ≡ storage h index
  unfolding eip7709_history_sload after_first_load
  history_sload_reads index skip h load e =
      let a = history_storage_address in
      elim (Result-cases (host.sload_skip_cold_load a index skip h).0) [
        | inl (v, p) ↦ ground (arith, laws.skip_load_reads index skip h load)
        | inr (db_error, p) ↦ absurd (ground arith)
        | inr (cold_load_skipped, p) ↦
            let h₁ = host.checkpoint (host.sload_skip_cold_load a index skip h).1 in
            let prepared = host.load_account_info_skip_cold_load a h₁.1 in
            let h₃ = host.checkpoint_revert h₁.0 prepared.1 in
            elim (Result-cases prepared.0) [
              | inl (_, q) ↦
                  laws.skip_load_reads index skip h₃ load (ground arith)
                  ∙ laws.prepared_keeps index index skip h
              | inr (f, q) ↦ absurd (ground arith)
            ]
      ]

  -- From TsukiV2 what the settled load ends with.
  settled-Served :
      (paid : I) (index hash : ℕ) (skip : Bool) (h : H)
      → storage h index ≡ hash
      → let loaded = (eip7709_history_sload u it host index skip h).0 in
        Served it hash (elim (settled u it host paid loaded) [
          | err i' ↦ i'
          | ok (word, i') ↦ it.set_top word i'
        ])
  settled-Served paid index hash skip h holds =
      elim (Result-cases (eip7709_history_sload u it host index skip h).0) [
        | inl (load, e) ↦
            let same : load.value ≡ hash = history_sload_reads index skip h load e ∙ holds in
            rw (e, same) (answered _)
        | inr (cold_load_skipped, e) ↦ rw e (out_of_gas paid)
        | inr (db_error, e) ↦ rw e (failed paid)
      ]

  -- Before TsukiV2 the same of the plain load.
  plain-Served :
      (i : I) (index hash : ℕ) (h : H)
      → storage h index ≡ hash
      → let (present, h₁) = host.load_account_delegated history_storage_address h in
        let (slot, h₂) = host.sload history_storage_address index h₁ in
        let outcome : I × H =
          if present
          then (
            elim slot [ some word ↦ it.set_top word i | none ↦ it.halt fatal_external_error i ],
            h₂,
          )
          else (it.halt fatal_external_error i, h₁) in
        Served it hash outcome.0
  plain-Served i index hash h holds =
      let (present, h₁) = host.load_account_delegated history_storage_address h in
      elim (Bool-cases (host.load_account_delegated history_storage_address h).0) [
        | inr absent ↦ rw absent (halted i)
        | inl loaded ↦ elim (Option-cases (host.sload history_storage_address index h₁).0) [
          | inl gone ↦ rw (loaded, gone) (halted i)
          | inr (word, e) ↦
              let same : word ≡ hash =
                laws.load_reads index h₁ word e ∙ laws.account_keeps h index ∙ holds in
              rw (loaded, e, same) (answered i)
        ]
      ]

  -- From Feynman, and with the history contract keeping the hashes of the last 8191 blocks, a
  -- BLOCKHASH inside the window ends with the hash of the block that it is asked for on top, or
  -- out of gas, or with a fatal halt: under every hardfork, at every price, and however the load
  -- goes, it never answers with another word.
  pub blockhash-Served :
      (hash_of : ℕ → ℕ) (i : I) (h : H) (number : ℕ)
      → ((slot : ℕ) → storage h slot ≡ ring hash_of host.block_number slot)
      → host.block_hash_history ≤ 8191
      → it.popn_top i ≡ ok number
      → number < host.block_number
      → number ≤ u64_max
      → host.block_number ≤ number + host.block_hash_history
      → is_enabled_in host.spec feynman ≡ true
      → Served it (hash_of number) (blockhash u it host i h).0
  blockhash-Served hash_of i h number written narrow top inside fits recent on =
      let holds : storage h (number % 8191) ≡ hash_of number =
        written (number % 8191)
        ∙ ring_serves hash_of host.block_number number inside (omega arith) in
      elim (Bool-cases (is_enabled_in host.spec tsuki_v2)) [
        | inr early ↦
            rw (blockhash_from_feynman u it host i h number top inside fits recent on early)
              (plain-Served i (number % 8191) (hash_of number) h holds)
        | inl late ↦
            rw (blockhash_from_tsuki_v2 u it host i h number top inside fits recent late)
              (elim (Bool-cases (ltb (it.remaining i) host.warm_storage_read_cost)) [
                | inl short ↦ rw short (out_of_gas i)
                | inr enough ↦ rw enough (
                    settled-Served (it.spend host.warm_storage_read_cost i) (number % 8191)
                      (hash_of number) _ h holds)
              ])
      ]

-- ===== src/Instructions/Blockhash/Price.antt =====
-- src/instructions.rs: what the read of the history costs from TsukiV2 (EIP-7709).
use dogeos_revm.Prelude.{
  ℕ, ◌+◌, ◌%◌, ◌<◌, ◌≤◌, ◌≡◌, ◌⊎◌, inl, inr, true, false, ltb, if◌then◌else◌, Bool-cases, Result,
  Result-cases, ok, err, arith, refl, sym,
}
use dogeos_revm.Uint.{UintOps}
use dogeos_revm.L1Block.{u64_max}
use dogeos_revm.Spec.{feynman, tsuki_v2, is_enabled_in}
use dogeos_revm.Instructions.Blockhash.Window.{blockhash_inside_window}
use dogeos_revm.Instructions.{
  InterpreterOps, HostOps, StateLoad, LoadError, cold_load_skipped, db_error,
}
use dogeos_revm.Instructions.Blockhash.{
  hash_at, blockhash, history_storage_address, eip7709_history_sload, after_first_load,
  history_from_tsuki_v2, price_load,
}

module _ {I H : Type 0} (u : UintOps) (it : InterpreterOps I) (host : HostOps H) where
  -- A load that skips cold slots never reports one.
  skipped_history_is_warm :
      (index : ℕ) (h : H) (load : StateLoad)
      → (eip7709_history_sload u it host index true h).0 ≡ ok load
      → load.is_cold ≡ false
  unfolding eip7709_history_sload after_first_load
  skipped_history_is_warm index h load e =
      let a = history_storage_address in
      elim (Result-cases (host.sload_skip_cold_load a index true h).0) [
        | inl (v, p) ↦ ground (arith, host.skipped_load_is_warm a index h load)
        | inr (db_error, p) ↦ absurd (ground arith)
        | inr (cold_load_skipped, p) ↦
            let h₁ = (host.checkpoint (host.sload_skip_cold_load a index true h).1) in
            let prepared = host.load_account_info_skip_cold_load a h₁.1 in
            let h₃ = host.checkpoint_revert h₁.0 prepared.1 in
            elim (Result-cases prepared.0) [
              | inl (_, q) ↦ host.skipped_load_is_warm a index h₃ load (ground arith)
              | inr (f, q) ↦ absurd (ground arith)
            ]
      ]

  -- What the arms on a load answer once the charge for a cold slot is known to be paid.
  abbrev pub settled : I → Result LoadError StateLoad → Result I (ℕ × I)
  settled paid (ok load) =
      ok (
        load.value,
        (if load.is_cold then it.spend host.cold_storage_additional_cost paid else paid),
      )
  settled paid (err cold_load_skipped) = err (it.halt_oog paid)
  settled paid (err db_error) = err (it.halt_fatal paid)

  price_load-affordable :
      (paid : I) (load : StateLoad)
      → (load.is_cold ≡ false) ⊎ (host.cold_storage_additional_cost ≤ it.remaining paid)
      → price_load u it host paid (ok load) ≡ settled paid (ok load)
  price_load-affordable paid load h =
      ground (arith, it.gas_eq host.cold_storage_additional_cost paid)

  warm_or_affordable :
      (paid : I) (index : ℕ) (h : H) (load : StateLoad)
      → (eip7709_history_sload u it host index
          (ltb (it.remaining paid) host.cold_storage_additional_cost)
          h).0
        ≡ ok load
      → (load.is_cold ≡ false) ⊎ (host.cold_storage_additional_cost ≤ it.remaining paid)
  warm_or_affordable paid index h load e =
      elim (Bool-cases (ltb (it.remaining paid) host.cold_storage_additional_cost)) [
        | inl skip ↦ inl (skipped_history_is_warm index h load (rw (sym skip) e))
        | inr keep ↦ inr (ground arith)
      ]

  price_load-settled :
      (paid : I) (index : ℕ) (h : H)
      → let loaded =
          (eip7709_history_sload u it host index
            (ltb (it.remaining paid) host.cold_storage_additional_cost)
            h).0 in
        price_load u it host paid loaded ≡ settled paid loaded
  price_load-settled paid index h =
      elim (Result-cases
        (eip7709_history_sload u it host index
          (ltb (it.remaining paid) host.cold_storage_additional_cost) h).0) [
            | inl (load, e) ↦
                rw e (price_load-affordable paid load (warm_or_affordable paid index h load e))
            | inr (cold_load_skipped, e) ↦ rw e refl
            | inr (db_error, e) ↦ rw e refl
          ]

  -- A look-up that can pay for the warm read settles; one that cannot ends before any load.
  history_price :
      (index : ℕ) (i : I) (h : H)
      → host.warm_storage_read_cost ≤ it.remaining i
      → let paid = it.spend host.warm_storage_read_cost i in
        let skip_cold = ltb (it.remaining paid) host.cold_storage_additional_cost in
        let (loaded, h') = eip7709_history_sload u it host index skip_cold h in
        history_from_tsuki_v2 u it host index i h ≡ (settled paid loaded, h')
  unfolding history_from_tsuki_v2
  history_price index i h enough = ground (
    arith,
    it.gas_eq host.warm_storage_read_cost i,
    price_load-settled (it.spend host.warm_storage_read_cost i) index h,
  )

  history_unpaid :
      (index : ℕ) (i : I) (h : H)
      → it.remaining i < host.warm_storage_read_cost
      → history_from_tsuki_v2 u it host index i h ≡ (err (it.halt_oog i), h)
  unfolding history_from_tsuki_v2
  history_unpaid index i h short = ground (arith, it.gas_eq host.warm_storage_read_cost i)

  feynman_enabled : is_enabled_in host.spec tsuki_v2 ≡ true → is_enabled_in host.spec feynman ≡ true
  unfolding is_enabled_in
  feynman_enabled on = ground arith

  -- Inside the window and from TsukiV2, BLOCKHASH runs out of gas, with the host as it was, where
  -- the warm cost of a storage read cannot be paid. Where it can, the slot at the number modulo
  -- 8191 is loaded, telling the host to skip a cold slot that could not be paid for: a loaded value
  -- goes on top, with the warm cost paid and the additional cost exactly when the slot was cold; a
  -- skipped slot ends out of gas, and a database error fatally. So no load that succeeds is ever
  -- left unpaid.
  pub blockhash_from_tsuki_v2 :
      (i : I) (h : H) (number : ℕ)
      → it.popn_top i ≡ ok number
      → number < host.block_number
      → number ≤ u64_max
      → host.block_number ≤ number + host.block_hash_history
      → is_enabled_in host.spec tsuki_v2 ≡ true
      → let paid = it.spend host.warm_storage_read_cost i in
        let skip_cold = ltb (it.remaining paid) host.cold_storage_additional_cost in
        let (loaded, h') = eip7709_history_sload u it host (number % 8191) skip_cold h in
        blockhash u it host i h ≡ (
          if ltb (it.remaining i) host.warm_storage_read_cost then (it.halt_oog i, h) else (
            elim (settled paid loaded) [ err i' ↦ i' | ok (hash, i') ↦ it.set_top hash i' ],
            h',
          ))
  unfolding hash_at
  blockhash_from_tsuki_v2 i h number top inside fits recent on = ground (
    arith,
    blockhash_inside_window u it host i h number top inside,
    host.as_u64_saturated_eq number,
    feynman_enabled on,
    history_price (number % 8191) i h,
    history_unpaid (number % 8191) i h,
  )

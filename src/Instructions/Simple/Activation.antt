-- ===== src/Instructions/Simple/Activation.antt =====
-- src/instructions.rs: from which hardfork on the overridden instructions are active, and what
-- they may change.
use dogeos_revm.Prelude.{
  ℕ, ◌≡◌, ◌⊎◌, inl, inr, true, false, Bool-cases, Result-cases, ok, refl, arith,
}
use dogeos_revm.Spec.{ScrollSpecId, curie, galileo, is_enabled_in}
use dogeos_revm.Instructions.{InterpreterOps, HostOps, not_activated}
use dogeos_revm.Instructions.Simple.{
  selfdestruct, basefee, tstore, tload, mcopy, clz, difficulty, tstore_popped,
}

module _ {I H : Type 0} (it : InterpreterOps I) (host : HostOps H) where
  -- An instruction whose hardfork has not come yet halts the interpreter it was given as not
  -- activated and leaves the host as it was: the stack is not read, and no gas is charged.
  abbrev pub Halts : (I → H → I × H) → Type 0
  Halts instruction = (i : I) (h : H) → instruction i h ≡ (it.halt not_activated i, h)

  off_with_curie :
      (spec : ScrollSpecId) → is_enabled_in spec curie ≡ false → is_enabled_in spec galileo ≡ false
  unfolding is_enabled_in
  off_with_curie spec off = ground arith

  -- Under a hardfork without Curie all of SELFDESTRUCT, BASEFEE, TSTORE, TLOAD, MCOPY and CLZ
  -- halt as not activated, with neither stack nor gas nor host touched before.
  halt_before_curie :
      is_enabled_in host.spec curie ≡ false
      → Halts (selfdestruct it host)
        × Halts (basefee it host)
        × Halts (tstore it host)
        × Halts (tload it host)
        × Halts (mcopy it host)
        × Halts (clz it host)
  unfolding selfdestruct clz basefee tstore tload mcopy
  halt_before_curie off = (
    (λ i h. refl),
    (λ i h. ground (arith)),
    (λ i h. ground (arith)),
    (λ i h. ground (arith)),
    (λ i h. ground (arith)),
    (λ i h. ground (arith, off_with_curie host.spec off)),
  )

  -- The only one of these instructions that changes the host is TSTORE, and it does so only with
  -- Curie enabled, outside a static call and with two words on the stack: it then writes the
  -- second word at the first in the transient storage of the running contract.
  pub host_changed_by_tstore :
      (i : I) (h : H)
      → ((selfdestruct it host i h).1 ≡ h)
        × ((basefee it host i h).1 ≡ h)
        × ((tload it host i h).1 ≡ h)
        × ((mcopy it host i h).1 ≡ h)
        × ((difficulty it host i h).1 ≡ h)
        × ((clz it host i h).1 ≡ h)
        × (((tstore it host i h).1 ≡ h)
            ⊎ ((is_enabled_in host.spec curie ≡ true)
                × (it.require_non_staticcall i ≡ ok tt)
                × (index : ℕ) × (value : ℕ) × (popped : I) × (it.popn2 i
                    ≡ ok (index, value, popped))
                × ((tstore it host i h).1 ≡ host.tstore (it.target_address popped) index value h)))
  unfolding selfdestruct clz basefee tstore tload mcopy difficulty tstore_popped
  host_changed_by_tstore i h = (
    refl,
    ground arith,
    ground arith,
    ground arith,
    refl,
    ground arith,
    elim (Bool-cases (is_enabled_in host.spec curie)) [
      | inr off ↦ inl (ground arith)
      | inl on ↦ elim (Result-cases (it.require_non_staticcall i)) [
        | inr (e, q) ↦ inl (ground arith)
        | inl (tt, q) ↦ elim (Result-cases (it.popn2 i)) [
          | inr (e, r) ↦ inl (ground arith)
          | inl ((index, value, popped), r) ↦ inr (on, q, index, value, popped, r, ground arith)
        ]
      ]
    ],
  )

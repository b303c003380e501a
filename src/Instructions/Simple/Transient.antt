-- ===== src/Instructions/Simple/Transient.antt =====
-- src/instructions.rs: TSTORE and TLOAD together are a map from the slots of a contract, over any
-- sequence of the two in any frames.
use dogeos_revm.Prelude.{
  ℕ, ◌≡◌, Bool, true, false, ◌&&◌, ◌==◌, if◌then◌else◌, Option, none, some, List, [], ◌∷◌, Result,
  ok, err, Bool-cases, Result-cases, inl, inr, arith, refl,
}
use dogeos_revm.Spec.{curie, is_enabled_in}
use dogeos_revm.Instructions.{InterpreterOps, HostOps, not_activated}
use dogeos_revm.Instructions.Simple.{tstore, tstore_popped, tload}

-- The transient storage of revm's host, by contract and slot.
pub record TransientLaws {H : Type 0} (host : HostOps H) : Type 0 where
  pub tload-tstore :
      (a a' index index' value : ℕ) (h : H)
      → host.tload a' index' (host.tstore a index value h)
        ≡ (if (a == a') && (index == index') then value else host.tload a' index' h)

-- One execution of TSTORE or TLOAD by a frame's interpreter.
pub data Access (I : Type 0) : Type 0 where
  store load : I → Access I

module _ {I H : Type 0} (it : InterpreterOps I) (host : HostOps H) where
  abbrev pub access : Access I → H → H
  access (store i) h = (tstore it host i h).1
  access (load i) h = (tload it host i h).1

  abbrev pub accesses : List (Access I) → H → H
  accesses [] h = h
  accesses (x ∷ xs) h = accesses xs (access x h)

  abbrev is_dynamic : Result I (Unit {0}) → Bool
  is_dynamic (ok _) = true
  is_dynamic (err _) = false

  abbrev popped_write : Result I (ℕ × ℕ × I) → Option (ℕ × ℕ × ℕ)
  popped_write (err i) = none
  popped_write (ok (index, value, i)) = some (it.target_address i, index, value)

  -- Contract, slot and value of the write that a frame may make: none before Curie, in a static
  -- call, or without two words on the stack.
  abbrev permitted : I → Option (ℕ × ℕ × ℕ)
  permitted i =
      if is_enabled_in host.spec curie && is_dynamic (it.require_non_staticcall i)
      then popped_write (it.popn2 i)
      else none

  abbrev overwritten : Option (ℕ × ℕ × ℕ) → ℕ → ℕ → ℕ → ℕ
  overwritten none a slot held = held
  overwritten (some (a', slot', value)) a slot held =
      if (a' == a) && (slot' == slot) then value else held

  -- What a slot holds after the accesses: the value of the last permitted write to it, and what
  -- it held before where there is none.
  abbrev pub last_written : List (Access I) → ℕ → ℕ → ℕ → ℕ
  last_written [] a slot held = held
  last_written (load i ∷ xs) a slot held = last_written xs a slot held
  last_written (store i ∷ xs) a slot held =
      last_written xs a slot (overwritten (permitted i) a slot held)

  tload_keeps : (i : I) (h : H) → (tload it host i h).1 ≡ h
  unfolding tload
  tload_keeps i h = ground arith

  tstore_writes :
      TransientLaws host
      → (i : I) (h : H) (a slot : ℕ)
      → host.tload a slot (tstore it host i h).1
        ≡ overwritten (permitted i) a slot (host.tload a slot h)
  unfolding tstore tstore_popped
  tstore_writes laws i h a slot = elim (Bool-cases (is_enabled_in host.spec curie)) [
    | inr off ↦ ground arith
    | inl on ↦ elim (Result-cases (it.require_non_staticcall i)) [
      | inr (e, f) ↦ ground arith
      | inl (t, f) ↦ elim (Result-cases (it.popn2 i)) [
        | inr (e, g) ↦ ground arith
        | inl ((index, value, popped), g) ↦
            ground (arith, laws.tload-tstore (it.target_address popped) a index slot value h)
      ]
    ]
  ]

  held_after :
      TransientLaws host
      → (xs : List (Access I)) (h : H) (a slot : ℕ)
      → host.tload a slot (accesses xs h) ≡ last_written xs a slot (host.tload a slot h)
  held_after laws [] h a slot = refl
  held_after laws (load i ∷ xs) h a slot = rw (tload_keeps i h) (held_after laws xs h a slot)
  held_after laws (store i ∷ xs) h a slot =
      ground
        (arith, held_after laws xs (tstore it host i h).1 a slot, tstore_writes laws i h a slot)

  -- What a TLOAD does after any sequence of TSTORE and TLOAD in any frames, under every hardfork:
  -- with Curie, and a slot on its stack, it replaces the slot by the value of the last TSTORE to
  -- that slot of its contract that was outside a static call and had two words on its stack, or by
  -- what was held before all of them; with an empty stack it ends as the read of the stack does;
  -- before Curie it halts as not activated. It leaves the host as the sequence left it.
  pub transient_refines :
      TransientLaws host
      → (xs : List (Access I)) (reader : I) (h : H)
      → let after = accesses xs h in
        let a = it.target_address reader in
        tload it host reader after ≡ (
          (if is_enabled_in host.spec curie
              then elim (it.popn_top reader) [
                | err halted ↦ halted
                | ok slot ↦ it.set_top (last_written xs a slot (host.tload a slot h)) reader
              ]
              else it.halt not_activated reader),
          after,
        )
  unfolding tload
  transient_refines laws xs reader h = elim (Bool-cases (is_enabled_in host.spec curie)) [
    | inr off ↦ ground arith
    | inl on ↦ elim (Result-cases (it.popn_top reader)) [
      | inr (halted, f) ↦ ground arith
      | inl (slot, f) ↦
          let held = held_after laws xs h (it.target_address reader) slot in ground (arith, held)
    ]
  ]

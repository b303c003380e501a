-- ===== src/Instructions/Simple.antt =====
-- src/instructions.rs: SELFDESTRUCT, BASEFEE, TSTORE, TLOAD, MCOPY, DIFFICULTY and CLZ.
use dogeos_revm.Prelude.{ℕ, Bool, if◌then◌else◌, not, ◌==◌, max, Result, ok, err, ◌>>=◌, ◌>>◌}
use dogeos_revm.Spec.{ScrollSpecId, curie, galileo, is_enabled_in}
use dogeos_revm.Instructions.{InterpreterOps, HostOps, not_activated, finish}
pub mod Activation
pub mod Transient

-- `DIFFICULTY`
abbrev pub difficulty_value : ℕ
difficulty_value = 0

module _ {I H : Type 0} (it : InterpreterOps I) (host : HostOps H) where
  -- `selfdestruct`
  unfoldable pub selfdestruct : I → H → I × H
  selfdestruct i h = (it.halt not_activated i, h)

  -- `basefee`
  unfoldable pub basefee : I → H → I × H
  basefee i h =
      if not (is_enabled_in host.spec curie)
      then (it.halt not_activated i, h)
      else (it.push host.basefee i, h)

  -- `tstore` past its guard
  unfoldable pub tstore_popped : Result I (ℕ × ℕ × I) → H → I × H
  tstore_popped (err i) h = (i, h)
  tstore_popped (ok (index, value, i)) h = (i, host.tstore (it.target_address i) index value h)

  -- `tstore`
  unfoldable pub tstore : I → H → I × H
  tstore i h =
      if not (is_enabled_in host.spec curie)
      then (it.halt not_activated i, h)
      else tstore_popped (it.require_non_staticcall i >> it.popn2 i) h

  -- `tload`
  unfoldable pub tload : I → H → I × H
  tload i h =
      if not (is_enabled_in host.spec curie)
      then (it.halt not_activated i, h)
      else elim (it.popn_top i) [
        | err i' ↦ (i', h)
        | ok index ↦ (it.set_top (host.tload (it.target_address i) index h) i, h)
      ]

  -- `mcopy` once the length is paid for
  unfoldable pub mcopy_paid : ℕ → ℕ → ℕ → I → Result I I
  mcopy_paid dst src len i = if len == 0 then ok i else do
    to ← it.as_usize_or_fail dst i
    from ← it.as_usize_or_fail src i
    grown ← it.resize_memory (max to from) len i
    ok (it.copy_memory to from len grown)

  -- `mcopy` past its guard
  unfoldable pub mcopy_run : I → Result I I
  mcopy_run i = do
    (dst, src, size, popped) ← it.popn3 i
    len ← it.as_usize_or_fail size popped
    paid ← it.gas (host.mcopy_cost len) popped
    mcopy_paid dst src len paid

  -- `mcopy`
  unfoldable pub mcopy : I → H → I × H
  mcopy i h =
      if not (is_enabled_in host.spec curie)
      then (it.halt not_activated i, h)
      else (finish (mcopy_run i), h)

  -- `difficulty`
  unfoldable pub difficulty : I → H → I × H
  difficulty i h = (it.push difficulty_value i, h)

  -- `clz`
  unfoldable pub clz : I → H → I × H
  clz i h =
      if not (is_enabled_in host.spec galileo)
      then (it.halt not_activated i, h)
      else elim (it.popn_top i) [
        | err i' ↦ (i', h)
        | ok op1 ↦ (it.set_top (host.leading_zeros op1) i, h)
      ]

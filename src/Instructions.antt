-- ===== src/Instructions.antt =====
-- src/instructions.rs: the interfaces that the overridden instructions run against. Interpreter,
-- host and their macros are revm's: a macro that may halt and return is a call with a `Result`,
-- whose error is the halted interpreter.
use dogeos_revm.Prelude.{
  ℕ, ◌-◌, ◌≡◌, min, Bool, true, false, List, Option, leb, if◌then◌else◌, Result, ok, err,
}
use dogeos_revm.Action.{Action}
use dogeos_revm.L1Block.{u64_max}
use dogeos_revm.Spec.{ScrollSpecId}
pub mod Blockhash
pub mod Simple
pub mod Table

-- The two results that the instructions halt with by name.
pub data InstructionResult : Type 0 where
  not_activated fatal_external_error : InstructionResult

pub record InterpreterOps (I : Type 0) : Type 0 where
  -- `popn_top!([], x)` reads the top of the stack, and `*x = …` writes it
  pub popn_top : I → Result I ℕ
  pub set_top : ℕ → I → I
  pub popn2 : I → Result I (ℕ × ℕ × I)
  pub popn3 : I → Result I (ℕ × ℕ × ℕ × I)
  pub push : ℕ → I → I
  pub remaining : I → ℕ
  -- the interpreter after it has paid, and after it has run out of gas
  pub spend : ℕ → I → I
  pub halt_oog : I → I
  pub gas : ℕ → I → Result I I
  pub halt : InstructionResult → I → I
  pub halt_fatal : I → I
  pub require_non_staticcall : I → Result I (Unit {0})
  pub target_address : I → ℕ
  pub as_usize_or_fail : ℕ → I → Result I ℕ
  pub resize_memory : ℕ → ℕ → I → Result I I
  pub copy_memory : ℕ → ℕ → ℕ → I → I
  -- `gas!` pays if enough remains
  pub gas_eq :
      (n : ℕ) (i : I) → gas n i ≡ (if leb n (remaining i) then ok (spend n i) else err (halt_oog i))
  pub spend-remaining : (n : ℕ) (i : I) → remaining (spend n i) ≡ remaining i - n

pub data LoadError : Type 0 where
  cold_load_skipped db_error : LoadError

pub record StateLoad : Type 0 where
  pub value : ℕ
  pub is_cold : Bool

-- What the instructions read of the host, and the calls that may change it. `load_account_delegated`
-- and `sload` answer nothing after a database error.
pub record HostOps (H : Type 0) : Type 1 where
  pub spec : ScrollSpecId
  pub block_number : ℕ
  pub chain_id : ℕ
  pub basefee : ℕ
  pub warm_storage_read_cost : ℕ
  pub cold_storage_additional_cost : ℕ
  pub mcopy_cost : ℕ → ℕ
  pub block_hash_history : ℕ
  pub as_u64_saturated : ℕ → ℕ
  -- `U256::from_be_bytes(keccak256(input).into())`
  pub keccak_word : List ℕ → ℕ
  pub leading_zeros : ℕ → ℕ
  pub sload_skip_cold_load : ℕ → ℕ → Bool → Action H LoadError StateLoad
  pub load_account_info_skip_cold_load : ℕ → Action H LoadError (Unit {0})
  pub Checkpoint : Type 0
  pub checkpoint : H → Checkpoint × H
  pub checkpoint_revert : Checkpoint → H → H
  pub load_account_delegated : ℕ → H → Bool × H
  pub sload : ℕ → ℕ → H → Option ℕ × H
  pub tstore : ℕ → ℕ → ℕ → H → H
  pub tload : ℕ → ℕ → H → ℕ
  pub as_u64_saturated_eq : (n : ℕ) → as_u64_saturated n ≡ min n u64_max
  -- a load that is told to skip cold slots never reports one
  pub skipped_load_is_warm :
      (a i : ℕ) (h : H) (v : StateLoad)
      → (sload_skip_cold_load a i true h).0 ≡ ok v
      → v.is_cold ≡ false

-- The interpreter that an instruction ends with, whether it returned early or not.
abbrev pub finish : {I : Type 0} → Result I I → I
finish (ok i) = i
finish (err i) = i

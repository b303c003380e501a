-- ===== src/Instructions/Table.antt =====
-- src/instructions.rs: `make_scroll_instruction_table`. A table is a function from opcodes, since
-- its 256 entries are all set.
use dogeos_revm.Prelude.{ℕ, ◌==◌, if◌then◌else◌}
use dogeos_revm.Uint.{UintOps}
use dogeos_revm.Spec.{ScrollSpecId, into_eth_spec_id, default}
use dogeos_revm.Instructions.{InterpreterOps, HostOps}
use dogeos_revm.Instructions.Blockhash.{blockhash}
use dogeos_revm.Instructions.Simple.{selfdestruct, basefee, tstore, tload, mcopy, difficulty, clz}
pub mod Overrides
pub mod Documented

-- An `Instruction`: its function and its static gas.
pub record Instruction (I H : Type 0) : Type 0 where
  pub run : I → H → I × H
  pub static_gas : ℕ

abbrev pub InstructionTable : Type 0 → Type 0 → Type 0
InstructionTable I H = ℕ → Instruction I H

-- `table[opcode] = instruction`
abbrev pub set : {I H : Type 0} → ℕ → Instruction I H → InstructionTable I H → InstructionTable I H
set opcode instruction table n = if n == opcode then instruction else table n

-- The opcodes.
abbrev pub difficulty_opcode : ℕ
difficulty_opcode = 0x44

abbrev pub clz_opcode : ℕ
clz_opcode = 0x1e

abbrev pub blockhash_opcode : ℕ
blockhash_opcode = 0x40

abbrev pub basefee_opcode : ℕ
basefee_opcode = 0x48

abbrev pub tload_opcode : ℕ
tload_opcode = 0x5c

abbrev pub tstore_opcode : ℕ
tstore_opcode = 0x5d

abbrev pub mcopy_opcode : ℕ
mcopy_opcode = 0x5e

abbrev pub selfdestruct_opcode : ℕ
selfdestruct_opcode = 0xff

module _ {I H SpecId : Type 0} (u : UintOps) (it : InterpreterOps I) (host : HostOps H) where
  -- `make_scroll_instruction_table`, over revm's `instruction_table_gas_changes_spec` and its
  -- `SpecId::SHANGHAI`
  unfoldable pub make_scroll_instruction_table :
      (SpecId → InstructionTable I H) → SpecId → ScrollSpecId → InstructionTable I H
  make_scroll_instruction_table eth_table eth_shanghai spec =
      let base = eth_table (into_eth_spec_id eth_shanghai spec) in
      let t₁ = set blockhash_opcode (record { run = blockhash u it host; static_gas = 20 }) base in
      let t₂ = set basefee_opcode (record { run = basefee it host; static_gas = 2 }) t₁ in
      let t₃ = set tstore_opcode (record { run = tstore it host; static_gas = 100 }) t₂ in
      let t₄ = set tload_opcode (record { run = tload it host; static_gas = 100 }) t₃ in
      let t₅ = set selfdestruct_opcode (record { run = selfdestruct it host; static_gas = 0 }) t₄ in
      let t₆ = set mcopy_opcode (record { run = mcopy it host; static_gas = 3 }) t₅ in
      let t₇ = set difficulty_opcode (record { run = difficulty it host; static_gas = 2 }) t₆ in
      set clz_opcode (record { run = clz it host; static_gas = 5 }) t₇

-- `ScrollInstructions`. Its `Rc` is never written through, and stands for the table itself.
pub record ScrollInstructions (I H : Type 0) : Type 0 where
  pub instruction_table : InstructionTable I H

module _ {I H : Type 0} where
  -- `ScrollInstructions::new`
  unfoldable pub new : InstructionTable I H → ScrollInstructions I H
  new base_table = record { instruction_table = base_table }

  -- `InstructionProvider::instruction_table`
  unfoldable pub provided_table : ScrollInstructions I H → InstructionTable I H
  provided_table self = self.instruction_table

  -- `Clone::clone`
  unfoldable pub clone : ScrollInstructions I H → ScrollInstructions I H
  clone self = record { instruction_table = self.instruction_table }

module _ {I H SpecId : Type 0} (u : UintOps) (it : InterpreterOps I) (host : HostOps H)
    (eth_table : SpecId → InstructionTable I H) (eth_shanghai : SpecId) where
  -- `ScrollInstructions::new_mainnet_with_spec`
  unfoldable pub new_mainnet_with_spec : ScrollSpecId → ScrollInstructions I H
  unfolding new make_scroll_instruction_table
  new_mainnet_with_spec spec =
      new (make_scroll_instruction_table u it host eth_table eth_shanghai spec)

  -- `ScrollInstructions::new_mainnet`
  unfoldable pub new_mainnet : ScrollInstructions I H
  unfolding new_mainnet_with_spec
  new_mainnet = new_mainnet_with_spec default

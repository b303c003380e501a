-- ===== src/Instructions/Table/Overrides.antt =====
-- src/instructions.rs: the instruction table against the list of its overrides.
use dogeos_revm.Prelude.{ℕ, ◌≡◌, List, [], ◌∷◌, Option, none, some, ◌==◌, if◌then◌else◌, arith}
use dogeos_revm.Uint.{UintOps}
use dogeos_revm.Spec.{ScrollSpecId}
use dogeos_revm.Spec.Baseline.{into_eth_spec_id-eq}
use dogeos_revm.Instructions.{InterpreterOps, HostOps}
use dogeos_revm.Instructions.Table.{InstructionTable, make_scroll_instruction_table}

-- The documented list: the overridden opcodes with their static gas.
abbrev pub documented_gas : List (ℕ × ℕ)
documented_gas =
    (0x40, 20)
    ∷ (0x48, 2)
    ∷ (0x5d, 100)
    ∷ (0x5c, 100)
    ∷ (0xff, 0)
    ∷ (0x5e, 3)
    ∷ (0x44, 2)
    ∷ (0x1e, 5)
    ∷ []

abbrev pub lookup : ℕ → List (ℕ × ℕ) → Option ℕ
lookup n [] = none
lookup n ((k, v) ∷ rest) = if n == k then some v else lookup n rest

-- The static gas of an opcode is the listed one if the opcode is on the list of eight overrides,
-- and that of Ethereum's Shanghai table otherwise, under every hardfork.
pub static_gas_documented :
    {I H SpecId : Type 0} (u : UintOps) (it : InterpreterOps I) (host : HostOps H)
    (eth_table : SpecId → InstructionTable I H) (eth_shanghai : SpecId) (spec : ScrollSpecId)
    (opcode : ℕ)
    → (make_scroll_instruction_table u it host eth_table eth_shanghai spec opcode).static_gas
      ≡ (elim (lookup opcode documented_gas) [
        | some gas ↦ gas
        | none ↦ (eth_table eth_shanghai opcode).static_gas
      ])
unfolding make_scroll_instruction_table
static_gas_documented u it host eth_table eth_shanghai spec opcode =
    ground (arith, into_eth_spec_id-eq eth_shanghai spec)

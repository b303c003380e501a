-- ===== src/Evm/Build/Wired.antt =====
-- src/evm.rs and src/builder.rs: a built EVM runs the instructions and the precompiles of the
-- hardfork that its context is configured for.
use dogeos_revm.Prelude.{ℕ, ◌≡◌, none, some, refl}
use dogeos_revm.Uint.{UintOps}
use dogeos_revm.Spec.{ScrollSpecId}
use dogeos_revm.Precompile.{RevmPrecompiles}
use dogeos_revm.Precompile.Sets.{PrecompileTables, new_with_spec}
use dogeos_revm.Precompile.Sets.Activation.{planned, find-inner_for_spec}
use dogeos_revm.Precompile.Sets.Provider.{into_precompiles_map}
use dogeos_revm.Instructions.{InterpreterOps, HostOps}
use dogeos_revm.Instructions.Table.{InstructionTable, new, provided_table, new_mainnet_with_spec}
use dogeos_revm.Instructions.Table.Overrides.{lookup, documented_gas, static_gas_documented}
use dogeos_revm.Evm.{with_inspector}
use dogeos_revm.Evm.Build.{new_evm, build_scroll, build_scroll_with_inspector}

module _ {I Ctx SpecId Stack Insp : Type 0} (u : UintOps) (it : InterpreterOps I)
    (host : HostOps Ctx) (eth_table : SpecId → InstructionTable I Ctx) (eth_shanghai : SpecId)
    (t : PrecompileTables) (revm : RevmPrecompiles) (spec_of : Ctx → ScrollSpecId)
    (empty_stack : Stack) where
  -- An EVM built with an inspector is the plainly built one given the inspector. At every opcode it
  -- charges the static gas of the documented overrides and of Ethereum's Shanghai elsewhere, and at
  -- every address it has the precompile planned for the hardfork of its context, and no other.
  pub build_scroll_wired :
      (inspector : Insp) (ctx : Ctx) (opcode address : ℕ)
      → let evm =
          build_scroll_with_inspector u it host eth_table eth_shanghai t revm spec_of empty_stack
            inspector ctx in
        (evm
          ≡ with_inspector inspector
              (build_scroll u it host eth_table eth_shanghai t revm spec_of empty_stack ctx))
        × ((provided_table evm.instruction opcode).static_gas
            ≡ (elim (lookup opcode documented_gas) [
              | some gas ↦ gas
              | none ↦ (eth_table eth_shanghai opcode).static_gas
            ]))
        × (t.find (into_precompiles_map t revm evm.precompiles) address
            ≡ planned t revm (spec_of ctx) address)
  unfolding build_scroll build_scroll_with_inspector new_evm with_inspector provided_table new
      new_mainnet_with_spec into_precompiles_map new_with_spec
  build_scroll_wired inspector ctx opcode address = (
    refl,
    static_gas_documented u it host eth_table eth_shanghai (spec_of ctx) opcode,
    find-inner_for_spec t revm (spec_of ctx) address,
  )

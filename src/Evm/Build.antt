-- ===== src/Evm/Build.antt =====
-- src/evm.rs and src/builder.rs: an EVM is built for the hardfork of its context, with the
-- instruction table and the precompiles of that hardfork.
use dogeos_revm.Prelude.{ℕ, ◌≡◌, refl, some}
use dogeos_revm.Uint.{UintOps}
use dogeos_revm.Spec.{ScrollSpecId, default}
use dogeos_revm.Gas.{GasTables}
use dogeos_revm.L1Block.{L1BlockInfo, empty_info}
use dogeos_revm.Precompile.{RevmPrecompiles}
use dogeos_revm.Precompile.Sets.{PrecompileTables, ScrollPrecompileProvider, new_with_spec}
use dogeos_revm.Transaction.{TxEnv, ScrollTransaction, default_tx}
use dogeos_revm.Instructions.{InterpreterOps, HostOps}
use dogeos_revm.Instructions.Table.{InstructionTable, ScrollInstructions, new_mainnet_with_spec}
use dogeos_revm.Builder.{CfgEnv, CfgOps, new_scroll}
use dogeos_revm.Evm.{ScrollEvm}
pub mod Wired

-- `ScrollChainContext`
pub record ScrollChainContext : Type 0 where
  pub l1_block_info : L1BlockInfo

-- `ScrollChainContext::new`
unfoldable pub new_chain : L1BlockInfo → ScrollChainContext
new_chain l1_block_info = record { l1_block_info = l1_block_info }

-- `ScrollChainContext::mainnet`
unfoldable pub mainnet_chain : ScrollChainContext
mainnet_chain = record { l1_block_info = empty_info }

-- revm's `Context`: its mainnet value, the three setters that are called, and what they set.
pub record ContextOps (Ctx Cfg : Type 0) : Type 0 where
  pub mainnet : Ctx
  pub with_tx : ScrollTransaction → Ctx → Ctx
  pub with_cfg : Cfg → Ctx → Ctx
  pub with_chain : ScrollChainContext → Ctx → Ctx
  pub tx : Ctx → ScrollTransaction
  pub cfg : Ctx → Cfg
  pub chain : Ctx → ScrollChainContext
  pub with_tx-tx : (x : ScrollTransaction) (c : Ctx) → tx (with_tx x c) ≡ x
  pub with_cfg-cfg : (g : Cfg) (c : Ctx) → cfg (with_cfg g c) ≡ g
  pub with_cfg-tx : (g : Cfg) (c : Ctx) → tx (with_cfg g c) ≡ tx c
  pub with_chain-chain : (x : ScrollChainContext) (c : Ctx) → chain (with_chain x c) ≡ x
  pub with_chain-cfg : (x : ScrollChainContext) (c : Ctx) → cfg (with_chain x c) ≡ cfg c
  pub with_chain-tx : (x : ScrollChainContext) (c : Ctx) → tx (with_chain x c) ≡ tx c

-- `DefaultScrollContext::scroll`
unfoldable pub scroll :
    (t : GasTables) {Rest Ctx : Type 0}
    → CfgOps t.GasParams Rest
    → ContextOps Ctx (CfgEnv t.GasParams Rest)
    → TxEnv
    → Ctx
unfolding new_scroll default_tx mainnet_chain
scroll t ops ctx default_base =
    ctx.with_chain mainnet_chain
      (ctx.with_cfg (new_scroll t ops default) (ctx.with_tx (default_tx default_base) ctx.mainnet))

module _ {I Ctx SpecId Stack : Type 0} (u : UintOps) (it : InterpreterOps I) (host : HostOps Ctx)
    (eth_table : SpecId → InstructionTable I Ctx) (eth_shanghai : SpecId) (t : PrecompileTables)
    (revm : RevmPrecompiles) (spec_of : Ctx → ScrollSpecId) (empty_stack : Stack) where
  abbrev pub Built : Type 0 → Type 0
  Built Insp = ScrollEvm Ctx Insp (ScrollInstructions I Ctx) (ScrollPrecompileProvider t revm) Stack

  -- `ScrollEvm::new`
  unfoldable pub new_evm : {Insp : Type 0} → Ctx → Insp → Built Insp
  unfolding new_mainnet_with_spec new_with_spec
  new_evm ctx inspector =
      let spec = spec_of ctx in
      record {
        ctx = ctx;
        inspector = inspector;
        instruction = new_mainnet_with_spec u it host eth_table eth_shanghai spec;
        precompiles = new_with_spec t revm spec;
        frame_stack = empty_stack;
      }

  -- `ScrollBuilder::build_scroll`
  unfoldable pub build_scroll : Ctx → Built (Unit {0})
  unfolding new_evm
  build_scroll self = new_evm self tt

  -- `ScrollBuilder::build_scroll_with_inspector`
  unfoldable pub build_scroll_with_inspector : {Insp : Type 0} → Insp → Ctx → Built Insp
  unfolding new_evm
  build_scroll_with_inspector inspector self = new_evm self inspector

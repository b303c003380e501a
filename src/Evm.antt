-- ===== src/Evm.antt =====
-- src/evm.rs, src/exec.rs and src/system_call.rs: the EVM of a context and its entry points. The
-- run loop, the inspected run and the system call are default methods of revm's `Handler`, and the
-- context is revm's: they are taken as the operations that are called.
use dogeos_revm.Prelude.{ℕ, List, Result, ok, err}
use dogeos_revm.Action.{Action}
use dogeos_revm.Transaction.{TxEnv, ScrollTransaction, new_system_tx_with_caller}
pub mod Access
pub mod Build
pub mod Entry

-- `Evm`, with the instructions, the precompiles and the frame stack of revm's types.
pub record ScrollEvm (Ctx Insp Instr Precompiles Stack : Type 0) : Type 0 where
  pub ctx : Ctx
  pub inspector : Insp
  pub instruction : Instr
  pub precompiles : Precompiles
  pub frame_stack : Stack

module _ {Ctx Insp Instr Precompiles Stack : Type 0} where
  -- `ScrollEvm::with_inspector`
  unfoldable pub with_inspector :
      {NewInsp : Type 0}
      → NewInsp
      → ScrollEvm Ctx Insp Instr Precompiles Stack
      → ScrollEvm Ctx NewInsp Instr Precompiles Stack
  with_inspector inspector self = record {
    ctx = self.ctx;
    inspector = inspector;
    instruction = self.instruction;
    precompiles = self.precompiles;
    frame_stack = self.frame_stack;
  }

  -- `ScrollEvm::with_precompiles`
  unfoldable pub with_precompiles :
      {NewPrecompiles : Type 0}
      → NewPrecompiles
      → ScrollEvm Ctx Insp Instr Precompiles Stack
      → ScrollEvm Ctx Insp Instr NewPrecompiles Stack
  with_precompiles precompiles self = record {
    ctx = self.ctx;
    inspector = self.inspector;
    instruction = self.instruction;
    precompiles = precompiles;
    frame_stack = self.frame_stack;
  }

  -- `ScrollEvm::into_inspector`
  unfoldable pub into_inspector : ScrollEvm Ctx Insp Instr Precompiles Stack → Insp
  into_inspector self = self.inspector

-- What the entry points call: the setters of the context, its journal's `finalize` and its
-- database's `commit`, and the runs of the handler.
pub record EvmOps (Ctx Insp Instr Precompiles Stack Block EvmState Error Out : Type 0)
    : Type 0 where
  pub set_tx : ScrollTransaction → Ctx → Ctx
  pub set_block : Block → Ctx → Ctx
  pub finalize : Ctx → EvmState × Ctx
  pub commit : EvmState → Ctx → Ctx
  pub run : Action (ScrollEvm Ctx Insp Instr Precompiles Stack) Error Out
  pub inspect_run : Action (ScrollEvm Ctx Insp Instr Precompiles Stack) Error Out
  pub run_system_call : Action (ScrollEvm Ctx Insp Instr Precompiles Stack) Error Out
  pub base_system_tx : ℕ → ℕ → List ℕ → TxEnv

module _ {Ctx Insp Instr Precompiles Stack Block EvmState Error Out : Type 0}
    (ops : EvmOps Ctx Insp Instr Precompiles Stack Block EvmState Error Out) where
  abbrev pub Evm : Type 0
  Evm = ScrollEvm Ctx Insp Instr Precompiles Stack

  -- `ContextSetters::set_tx` on the context of the EVM
  abbrev pub with_tx : ScrollTransaction → Evm → Evm
  with_tx tx self = record self { ctx = ops.set_tx tx self.ctx }

  -- `ExecuteEvm`
  unfoldable pub set_block : Block → Evm → Evm
  set_block block self = record self { ctx = ops.set_block block self.ctx }

  unfoldable pub transact_one : ScrollTransaction → Action Evm Error Out
  transact_one tx self = ops.run (with_tx tx self)

  unfoldable pub finalize : Evm → EvmState × Evm
  finalize self = let (state, ctx') = ops.finalize self.ctx in (state, record self { ctx = ctx' })

  unfoldable pub replay : Action Evm Error (Out × EvmState)
  unfolding finalize
  replay self =
      let (r, self') = ops.run self in
      elim r [
        | err e ↦ (err e, self')
        | ok result ↦ let (state, self'') = finalize self' in (ok (result, state), self'')
      ]

  -- `ExecuteCommitEvm::commit`
  unfoldable pub commit : EvmState → Evm → Evm
  commit state self = record self { ctx = ops.commit state self.ctx }

  -- `InspectEvm`
  unfoldable pub set_inspector : Insp → Evm → Evm
  set_inspector inspector self = record self { inspector = inspector }

  unfoldable pub inspect_one_tx : ScrollTransaction → Action Evm Error Out
  inspect_one_tx tx self = ops.inspect_run (with_tx tx self)

  -- `SystemCallEvm`; its two methods have one body
  unfoldable pub system_call_one_with_caller : ℕ → ℕ → List ℕ → Action Evm Error Out
  unfolding new_system_tx_with_caller
  system_call_one_with_caller caller system_contract_address bytes self = ops.run_system_call (
      with_tx (new_system_tx_with_caller ops.base_system_tx caller system_contract_address bytes)
        self)

  unfoldable pub transact_system_call_with_caller : ℕ → ℕ → List ℕ → Action Evm Error Out
  unfolding new_system_tx_with_caller
  transact_system_call_with_caller caller system_contract_address bytes self = ops.run_system_call (
      with_tx (new_system_tx_with_caller ops.base_system_tx caller system_contract_address bytes)
        self)

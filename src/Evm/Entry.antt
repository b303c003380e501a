-- ===== src/Evm/Entry.antt =====
-- src/exec.rs: how the entry points relate.
use dogeos_revm.Prelude.{◌≡◌, ok, arith}
use dogeos_revm.Action.{◌>>=◌}
use dogeos_revm.Transaction.{ScrollTransaction}
use dogeos_revm.Evm.{EvmOps, ScrollEvm, with_tx, transact_one, finalize, replay}

module _ {Ctx Insp Instr Precompiles Stack Block EvmState Error Out : Type 0}
    (ops : EvmOps Ctx Insp Instr Precompiles Stack Block EvmState Error Out) where
  -- Replaying the transaction of a context is transacting it and then finalizing: the state is
  -- finalized exactly once, after a run that returned a result, and after an error the EVM is left
  -- as the run left it, to be finalized by the caller. The result is the run's.
  replay-transact_one :
      (tx : ScrollTransaction) (self : ScrollEvm Ctx Insp Instr Precompiles Stack)
      → replay ops (with_tx ops tx self)
        ≡ (transact_one ops tx >>= λ result.
              λ evm. let (state, evm') = finalize ops evm in (ok (result, state), evm'))
            self
  unfolding replay transact_one finalize
  replay-transact_one tx self = ground arith

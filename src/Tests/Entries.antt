-- ===== src/Tests/Entries.antt =====
-- The entry points over a context that is a list of what was done to it.
use dogeos_revm.Prelude.{ℕ, ◌≡◌, refl, List, [], ◌∷◌, Result, ok}
use dogeos_revm.Evm.{ScrollEvm, EvmOps, transact_one, finalize, replay}
use dogeos_revm.Tests.Ledger.{base_of, tx_of}

abbrev Log : Type 0
Log = List ℕ

abbrev LogEvm : Type 0
LogEvm = ScrollEvm Log (Unit {0}) (Unit {0}) (Unit {0}) (Unit {0})

abbrev logged : ℕ → LogEvm → Result ℕ ℕ × LogEvm
logged step self = (ok step, record self { ctx = step ∷ self.ctx })

abbrev log_ops : EvmOps Log (Unit {0}) (Unit {0}) (Unit {0}) (Unit {0}) ℕ Log ℕ ℕ
log_ops = record {
  set_tx = λ tx log. 1 ∷ log;
  set_block = λ block log. 2 ∷ log;
  finalize = λ log. (log, 3 ∷ log);
  commit = λ state log. 4 ∷ log;
  run = logged 5;
  inspect_run = logged 6;
  run_system_call = logged 7;
  base_system_tx = λ caller to bytes. base_of 0;
}

abbrev fresh : LogEvm
fresh = record { ctx = []; inspector = tt; instruction = tt; precompiles = tt; frame_stack = tt }

-- A replay runs and then finalizes once; `transact_one` sets the transaction and runs.
replayed : replay log_ops fresh ≡ (ok (5, 5 ∷ []), record fresh { ctx = 3 ∷ 5 ∷ [] })
unfolding replay finalize
replayed = refl

transacted : transact_one log_ops (tx_of 2) fresh ≡ (ok 5, record fresh { ctx = 5 ∷ 1 ∷ [] })
unfolding transact_one
transacted = refl

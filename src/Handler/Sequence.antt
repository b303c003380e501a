-- ===== src/Handler/Sequence.antt =====
-- src/handler.rs: the transactions of a block one after another. revm's run loop calls the hooks
-- in the order that the handler documents: `pre_execution`, the execution, and afterwards
-- `reimburse_caller` and `reward_beneficiary`. The execution is revm's interpreter: a relation that
-- says which context and which frame result a transaction may leave.
use dogeos_revm.Prelude.{ℕ, ◌≡◌, ok}
use dogeos_revm.Uint.{UintOps}
use dogeos_revm.Transaction.{ScrollTransaction}
use dogeos_revm.Handler.{Cfg, Block}
use dogeos_revm.Handler.Charge.{Journal, Mainnet, Context, pre_execution}
use dogeos_revm.Handler.Outcome.{
  GasOps, FrameResult, PostMainnet, reimburse_caller, reward_beneficiary,
}
pub mod Charged
pub mod Settled
pub mod Conserved
pub mod Chain

-- Which context and frame result the execution may leave.
abbrev pub Executes : Type 0 → Type 0 → Type 1
Executes S Frame = ScrollTransaction → Context S → Frame → Context S → Type 0

module _ {S D : Type 0} (u : UintOps) (j : Journal S D) (mainnet : Mainnet S D) (cfg : Cfg)
    (g : GasOps) {Rest SpecId ResultGas Exec : Type 0}
    (post : PostMainnet S D g.Gas g.I64 Rest SpecId ResultGas Exec) (block : Block)
    (executes : Executes S (FrameResult g.Gas Rest)) where
  -- The context after the reimbursement.
  abbrev pub reimbursed : ScrollTransaction → FrameResult g.Gas Rest → Context S → Context S
  reimbursed tx frame after = (reimburse_caller u j g post cfg block tx frame after).1

  -- A transaction that passes all its hooks.
  pub data Step : Context S → Context S → Type 0 where
    transact :
        (tx : ScrollTransaction) (frame : FrameResult g.Gas Rest) (refund : ℕ)
        (before after : Context S)
        → (pre_execution u j mainnet cfg tx before).0 ≡ ok refund
        → executes tx (pre_execution u j mainnet cfg tx before).1 frame after
        → (reimburse_caller u j g post cfg block tx frame after).0 ≡ ok tt
        → (reward_beneficiary u j g post cfg block tx frame (reimbursed tx frame after)).0 ≡ ok tt
        → Step before
            (reward_beneficiary u j g post cfg block tx frame (reimbursed tx frame after)).1

  -- The contexts that a sequence of transactions reaches.
  pub data Reach (start : Context S) : Context S → Type 0 where
    here : Reach start start
    next : {c c' : Context S} → Reach start c → Step c c' → Reach start c'

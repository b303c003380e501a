-- ===== src/Handler/Sequence/Conserved.antt =====
-- src/handler.rs: no sequence of transactions creates or destroys money.
use dogeos_revm.Prelude.{ℕ, ◌+◌, ◌≤◌, ◌<◌, ◌≡◌, ◌∙◌, refl, true, ok, arith, Bool-cases, inl, inr}
use dogeos_revm.Balances.{supply}
use dogeos_revm.Balances.Total.{supply-charged, supply-ext}
use dogeos_revm.Uint.{UintOps, u256_max}
use dogeos_revm.Transaction.{ScrollTransaction, caller, gas_limit, is_l1_msg}
use dogeos_revm.Handler.{Cfg, Block}
use dogeos_revm.Handler.Charge.{Journal, Mainnet, Context, pre_execution}
use dogeos_revm.Handler.Charge.Laws.{CallerLaws, MainnetLaws}
use dogeos_revm.Handler.Charge.PreExecution.{QuietLaws}
use dogeos_revm.Handler.Outcome.{
  GasOps, FrameResult, PostMainnet, reimburse_caller, rewarded_l1_cost, reward_beneficiary,
}
use dogeos_revm.Handler.Outcome.Reward.{CreditLaws}
use dogeos_revm.Handler.Outcome.Conservation.{GasPaymentLaws, unused}
use dogeos_revm.Handler.Sequence.{Executes, Step, transact, Reach, here, next}
use dogeos_revm.Handler.Sequence.Charged.{pre_execution_message, pre_execution-Charged}
use dogeos_revm.Handler.Sequence.Settled.{total-settled}

module _ {S D : Type 0} (u : UintOps) (j : Journal S D) (mainnet : Mainnet S D) (cfg : Cfg)
    (g : GasOps) {Rest SpecId ResultGas Exec : Type 0}
    (post : PostMainnet S D g.Gas g.I64 Rest SpecId ResultGas Exec) (block : Block)
    (executes : Executes S (FrameResult g.Gas Rest)) (balance : S → ℕ → ℕ)
    (laws : CallerLaws j balance) (main : MainnetLaws mainnet balance)
    (quiet : QuietLaws j mainnet balance) (credit : CreditLaws j balance)
    (pays : (tx : ScrollTransaction) → GasPaymentLaws g post block tx main) (n : ℕ) where
  abbrev pub total_of : Context S → ℕ
  total_of c = supply n (balance c.journal)

  -- The execution moves money between accounts and keeps its sum, does not touch the L1 values, and
  -- ends with a gas counter of the transaction's limit; addresses are below a bound.
  pub record ExecutionLaws : Type 0 where
    pub keeps_total :
        {tx : ScrollTransaction} {c c' : Context S} {frame : FrameResult g.Gas Rest}
        → executes tx c frame c'
        → total_of c' ≡ total_of c
    pub keeps_l1_values :
        {tx : ScrollTransaction} {c c' : Context S} {frame : FrameResult g.Gas Rest}
        → executes tx c frame c'
        → c'.l1_block_info ≡ c.l1_block_info
    pub limit_is :
        {tx : ScrollTransaction} {c c' : Context S} {frame : FrameResult g.Gas Rest}
        → executes tx c frame c'
        → g.limit frame.gas ≡ gas_limit tx
    pub within_limit :
        {tx : ScrollTransaction} {c c' : Context S} {frame : FrameResult g.Gas Rest}
        → executes tx c frame c'
        → unused g post block tx main (pays tx) frame ≤ gas_limit tx
    pub caller_below :
        {tx : ScrollTransaction} {c c' : Context S} {frame : FrameResult g.Gas Rest}
        → executes tx c frame c'
        → caller tx < n

  module _ (execution : ExecutionLaws) (below : block.beneficiary < n) where
    total-message :
        (tx : ScrollTransaction) (frame : FrameResult g.Gas Rest) (refund : ℕ)
        (before after : Context S)
        → is_l1_msg tx ≡ true
        → (pre_execution u j mainnet cfg tx before).0 ≡ ok refund
        → executes tx (pre_execution u j mainnet cfg tx before).1 frame after
        → total_of
            (reward_beneficiary u j g post cfg block tx frame
              (reimburse_caller u j g post cfg block tx frame after).1).1
          ≡ total_of before
    unfolding reimburse_caller reward_beneficiary
    total-message tx frame refund before after h passed ran =
        ground (arith, h)
        ∙ execution.keeps_total ran
        ∙ supply-ext n _ _ (
            pre_execution_message u j mainnet cfg tx balance laws main quiet before refund h passed)

    rewarded_after :
        (tx : ScrollTransaction) (cost : ℕ) (c c' : Context S)
        → c'.l1_block_info ≡ c.l1_block_info
        → (rewarded_l1_cost u j g post cfg block tx c).0 ≡ ok cost
        → (rewarded_l1_cost u j g post cfg block tx c').0 ≡ ok cost
    unfolding rewarded_l1_cost
    rewarded_after tx cost c c' same e = ground arith

    -- A transaction that passes its hooks keeps the sum of the balances.
    Step-total :
        {c c' : Context S}
        → Step u j mainnet cfg g post block executes c c'
        → total_of c ≤ u256_max
        → total_of c' ≡ total_of c
    Step-total (transact tx frame refund before after passed ran back rewarded) bounded =
        elim (Bool-cases (is_l1_msg tx)) [
          | inl h ↦ total-message tx frame refund before after h passed ran
          | inr h ↦
              let charging =
                pre_execution-Charged u j mainnet cfg tx balance laws main quiet g post block before
                  refund h passed in
              let cost = charging.cost in
              let paid = supply-ext n _ _ charging.pays in
              let taken =
                supply-charged n (balance before.journal) (caller tx) (main.deduction tx + cost)
                  (execution.caller_below ran) charging.covered in
              let kept = execution.keeps_total ran in
              total-settled u j g post cfg block tx mainnet balance laws main credit (pays tx) n
                frame after cost h (execution.caller_below ran) below
                (rewarded_after tx cost _ after (execution.keeps_l1_values ran) charging.rewarded)
                (execution.limit_is ran) (execution.within_limit ran) back rewarded (omega arith)
              ∙ omega arith
        ]

    -- No sequence of transactions that pass their hooks creates or destroys money, whichever of them
    -- are L1 messages, system transactions or fee-charged ones: the sum of the balances below the
    -- bound, if it is within 256 bits at first, is the same at the end. So nothing is ever burnt:
    -- what the callers pay for gas and for the L1 data reaches the beneficiary or returns.
    pub Reach-total :
        {start end : Context S}
        → Reach u j mainnet cfg g post block executes start end
        → total_of start ≤ u256_max
        → total_of end ≡ total_of start
    Reach-total here bounded = refl
    Reach-total (next reached step) bounded =
        let earlier = Reach-total reached bounded in Step-total step (omega arith) ∙ earlier

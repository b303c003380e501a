-- ===== src/Handler/Sequence/Chain.antt =====
-- src/handler.rs: the transactions of many blocks, under a configuration, a block and a mainnet
-- handler that change from block to block, as at the activation of a hardfork.
use dogeos_revm.Prelude.{ℕ, ◌≤◌, ◌<◌, ◌≡◌, ◌∙◌, refl, arith}
use dogeos_revm.Balances.{supply}
use dogeos_revm.Uint.{UintOps, u256_max}
use dogeos_revm.Transaction.{ScrollTransaction}
use dogeos_revm.Handler.{Cfg, Block}
use dogeos_revm.Handler.Charge.{Journal, Mainnet, Context}
use dogeos_revm.Handler.Charge.Laws.{CallerLaws, MainnetLaws}
use dogeos_revm.Handler.Charge.PreExecution.{QuietLaws}
use dogeos_revm.Handler.Outcome.{GasOps, FrameResult, PostMainnet}
use dogeos_revm.Handler.Outcome.Reward.{CreditLaws}
use dogeos_revm.Handler.Outcome.Conservation.{GasPaymentLaws}
use dogeos_revm.Handler.Sequence.{Executes, Reach}
use dogeos_revm.Handler.Sequence.Conserved.{ExecutionLaws, Reach-total}

-- What is fixed while a block is executed.
pub record Era (S D Frame : Type 0) : Type 1 where
  pub mainnet : Mainnet S D
  pub cfg : Cfg
  pub block : Block
  pub executes : Executes S Frame

module _ {S D : Type 0} (u : UintOps) (j : Journal S D) (g : GasOps)
    {Rest SpecId ResultGas Exec : Type 0}
    (post : PostMainnet S D g.Gas g.I64 Rest SpecId ResultGas Exec) where
  -- The transactions of one era, from one context to another.
  abbrev pub During : Era S D (FrameResult g.Gas Rest) → Context S → Context S → Type 0
  During e = Reach u j e.mainnet e.cfg g post e.block e.executes

  -- The contexts that eras of a family, in any order and each with any transactions, reach.
  pub data Chain {I : Type 0} (eras : I → Era S D (FrameResult g.Gas Rest)) (start : Context S)
      : Context S → Type 0 where
    genesis : Chain eras start start
    enter :
        {c c' : Context S} (i : I) → Chain eras start c → During (eras i) c c' → Chain eras start c'

  module _ (balance : S → ℕ → ℕ) (laws : CallerLaws j balance) (credit : CreditLaws j balance)
      (n : ℕ) where
    -- What the mainnet handler and the execution of an era satisfy.
    pub record EraLaws (e : Era S D (FrameResult g.Gas Rest)) : Type 0 where
      pub main : MainnetLaws e.mainnet balance
      pub quiet : QuietLaws j e.mainnet balance
      pub pays : (tx : ScrollTransaction) → GasPaymentLaws g post e.block tx main
      pub execution :
          ExecutionLaws u j e.mainnet e.cfg g post e.block e.executes balance laws main quiet credit
            pays n
      pub below : e.block.beneficiary < n

    -- Across any blocks, with any activations of hardforks and changes of base fee and beneficiary
    -- between them, no sequence of transactions that pass their hooks creates or destroys money:
    -- the sum of the balances below the bound, if it is within 256 bits at first, is the same at
    -- the end, whichever transactions are L1 messages, system transactions or fee-charged ones.
    pub Chain-total :
        {I : Type 0} (eras : I → Era S D (FrameResult g.Gas Rest))
        → ((i : I) → EraLaws (eras i))
        → {start end : Context S} → Chain eras start end
        → supply n (balance start.journal) ≤ u256_max
        → supply n (balance end.journal) ≡ supply n (balance start.journal)
    Chain-total eras lawful genesis bounded = refl
    Chain-total eras lawful (enter i chain during) bounded =
        let e = eras i in
        let l = lawful i in
        let earlier = Chain-total eras lawful chain bounded in
        Reach-total u j e.mainnet e.cfg g post e.block e.executes balance laws l.main l.quiet credit
          l.pays n l.execution l.below during (omega arith)
        ∙ earlier

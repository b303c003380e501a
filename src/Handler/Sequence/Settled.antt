-- ===== src/Handler/Sequence/Settled.antt =====
-- src/handler.rs: what `reimburse_caller` and `reward_beneficiary` give out together, for every kind
-- of transaction but an L1 message.
use dogeos_revm.Prelude.{ℕ, ◌+◌, ◌*◌, ◌≤◌, ◌<◌, ◌≡◌, ◌∙◌, false, ok, arith}
use dogeos_revm.Balances.{supply}
use dogeos_revm.Balances.Total.{supply-credited, supply-ext, le-supply}
use dogeos_revm.Uint.{UintOps, u256_max}
use dogeos_revm.Transaction.{ScrollTransaction, caller, gas_limit, is_l1_msg}
use dogeos_revm.Handler.{Cfg, Block}
use dogeos_revm.Handler.Charge.{Journal, Mainnet, Context}
use dogeos_revm.Handler.Charge.Laws.{CallerLaws, MainnetLaws}
use dogeos_revm.Handler.Outcome.{
  GasOps, FrameResult, PostMainnet, reimburse_caller, rewarded_l1_cost, reward_beneficiary,
}
use dogeos_revm.Handler.Outcome.Reward.{CreditLaws, plain_reward, reward_credits_cost}
use dogeos_revm.Handler.Outcome.Conservation.{
  GasPaymentLaws, price, unused, price_splits, plain_reward_exact, reimburse_caller_credits,
  reimburse_caller-l1_block_info,
}

module _ {S D : Type 0} (u : UintOps) (j : Journal S D) (g : GasOps)
    {Rest SpecId ResultGas Exec : Type 0}
    (post : PostMainnet S D g.Gas g.I64 Rest SpecId ResultGas Exec) (cfg : Cfg) (block : Block)
    (tx : ScrollTransaction) (mainnet : Mainnet S D) (balance : S → ℕ → ℕ)
    (laws : CallerLaws j balance) (main : MainnetLaws mainnet balance)
    (credit : CreditLaws j balance) (pays : GasPaymentLaws g post block tx main) (n : ℕ)
    (frame : FrameResult g.Gas Rest) where
  abbrev pub total : Context S → ℕ
  total c = supply n (balance c.journal)

  abbrev returned : ℕ
  returned = price g post block tx * unused g post block tx main pays frame

  abbrev earned : ℕ
  earned = price g post block tx * g.used frame.gas

  rewarded_after_reimbursement :
      (c : Context S) (cost : ℕ)
      → (rewarded_l1_cost u j g post cfg block tx c).0 ≡ ok cost
      → (rewarded_l1_cost u j g post cfg block tx
          (reimburse_caller u j g post cfg block tx frame c).1).0
        ≡ ok cost
  unfolding rewarded_l1_cost
  rewarded_after_reimbursement c cost e = ground (
    arith,
    reimburse_caller-l1_block_info u j g post cfg block tx mainnet balance laws main credit pays
        frame c,
  )

  -- The reimbursement adds what is returned to the sum.
  total-reimburse_caller :
      (c : Context S)
      → is_l1_msg tx ≡ false
      → caller tx < n
      → (reimburse_caller u j g post cfg block tx frame c).0 ≡ ok tt
      → total c + returned ≤ u256_max
      → total (reimburse_caller u j g post cfg block tx frame c).1 ≡ total c + returned
  total-reimburse_caller c not_l1 below h fits =
      let held = le-supply n (balance c.journal) (caller tx) below in
      supply-ext n _ _ (
        reimburse_caller_credits u j g post cfg block tx mainnet balance laws main credit pays frame
          c not_l1 h (omega arith))
      ∙ supply-credited n (balance c.journal) (caller tx) returned below

  -- The reward adds the price of the gas used and the L1 cost.
  total-reward_beneficiary :
      (c : Context S) (cost : ℕ)
      → is_l1_msg tx ≡ false
      → block.beneficiary < n
      → (rewarded_l1_cost u j g post cfg block tx c).0 ≡ ok cost
      → (reward_beneficiary u j g post cfg block tx frame c).0 ≡ ok tt
      → total c + (earned + cost) ≤ u256_max
      → total (reward_beneficiary u j g post cfg block tx frame c).1 ≡ total c + (earned + cost)
  total-reward_beneficiary c cost not_l1 below e h fits =
      let held = le-supply n (balance c.journal) block.beneficiary below in
      let exact =
        plain_reward_exact u j g post cfg block tx mainnet balance laws main credit pays frame cost
          (omega arith) in
      supply-ext n _ _ (
        reward_credits_cost u j g post cfg block tx balance credit frame c cost not_l1 e h
          (omega (arith, exact)))
      ∙ supply-credited n (balance c.journal) block.beneficiary
          (plain_reward u j g post cfg block tx frame cost) below
      ∙ omega (arith, exact)

  -- Together they add exactly what was charged.
  pub total-settled :
      (c : Context S) (cost : ℕ)
      → is_l1_msg tx ≡ false
      → caller tx < n
      → block.beneficiary < n
      → (rewarded_l1_cost u j g post cfg block tx c).0 ≡ ok cost
      → g.limit frame.gas ≡ gas_limit tx
      → unused g post block tx main pays frame ≤ gas_limit tx
      → (reimburse_caller u j g post cfg block tx frame c).0 ≡ ok tt
      → let reimbursed = (reimburse_caller u j g post cfg block tx frame c).1 in
        (reward_beneficiary u j g post cfg block tx frame reimbursed).0 ≡ ok tt
        → total c + (main.deduction tx + cost) ≤ u256_max
        → total (reward_beneficiary u j g post cfg block tx frame reimbursed).1
          ≡ total c + (main.deduction tx + cost)
  total-settled c cost not_l1 below below' e limit within back rewarded fits =
      let splits = price_splits g post block tx main pays frame limit within in
      let reimbursed = (reimburse_caller u j g post cfg block tx frame c).1 in
      let first = total-reimburse_caller c not_l1 below back (omega arith) in
      total-reward_beneficiary reimbursed cost not_l1 below' (rewarded_after_reimbursement c cost e)
        rewarded (omega arith)
      ∙ omega arith

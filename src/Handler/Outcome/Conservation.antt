-- ===== src/Handler/Outcome/Conservation.antt =====
-- src/handler.rs: charging, reimbursing and rewarding together. The code between them is the
-- execution, whatever it does to the balances.
use native.Mathlib.Nat.{mul-add}
use dogeos_revm.Prelude.{ℕ, ◌+◌, ◌-◌, ◌*◌, ◌≤◌, ◌≡◌, false, ok, arith}
use dogeos_revm.Balances.{charged, credited}
use dogeos_revm.Uint.{UintOps, u256_max}
use dogeos_revm.Transaction.{ScrollTransaction, caller, gas_limit, is_l1_msg, is_system_tx}
use dogeos_revm.Handler.{Cfg, Block}
use dogeos_revm.Handler.Charge.{
  Journal, Mainnet, Context, tx_l1_cost, validate_against_state_and_deduct_caller,
}
use dogeos_revm.Handler.Charge.Laws.{CallerLaws, MainnetLaws}
use dogeos_revm.Handler.Charge.FeePaid.{l1_fee-Paid}
use dogeos_revm.Handler.Outcome.{
  GasOps, FrameResult, PostMainnet, reimburse_caller, reward_beneficiary,
}
use dogeos_revm.Handler.Outcome.Reward.{CreditLaws, plain_reward, reward_credits}

module _ {S D : Type 0} (g : GasOps) {Rest SpecId ResultGas Exec : Type 0}
    (post : PostMainnet S D g.Gas g.I64 Rest SpecId ResultGas Exec) (block : Block)
    (tx : ScrollTransaction) where
  abbrev pub price : ℕ
  price = post.effective_gas_price tx block.basefee

  -- revm's payments for gas: the whole limit is deducted at the effective price, what is used is the
  -- limit without what remains and what is refunded, and the caller is given back the rest at the
  -- same price, where that fits its balance.
  pub record GasPaymentLaws {m : Mainnet S D} {balance : S → ℕ → ℕ} (main : MainnetLaws m balance)
      : Type 0 where
    pub refund_amount : g.I64 → ℕ
    pub deducts_limit : main.deduction tx ≡ price * gas_limit tx
    pub used_eq :
        (gas : g.Gas)
        → g.used gas ≡ g.limit gas - (g.remaining gas + refund_amount (g.refunded gas))
    pub reimburse_credits :
        (frame : FrameResult g.Gas Rest) (s : S)
        → (post.reimburse_caller tx frame s).0 ≡ ok tt
        → balance s (caller tx)
            + price * (g.remaining frame.gas + refund_amount (g.refunded frame.gas))
          ≤ u256_max
        → (a : ℕ)
        → balance (post.reimburse_caller tx frame s).1 a
          ≡ credited
              (balance s)
              (caller tx)
              (price * (g.remaining frame.gas + refund_amount (g.refunded frame.gas)))
              a

  module _ {m : Mainnet S D} {balance : S → ℕ → ℕ} (main : MainnetLaws m balance)
      (pays : GasPaymentLaws main) (frame : FrameResult g.Gas Rest) where
    -- What was not used, and what it is worth.
    abbrev pub unused : ℕ
    unused = g.remaining frame.gas + pays.refund_amount (g.refunded frame.gas)

    -- The price of the limit is that of the gas used and of the gas not used.
    pub price_splits :
        g.limit frame.gas ≡ gas_limit tx
        → unused ≤ gas_limit tx
        → main.deduction tx ≡ price * unused + price * g.used frame.gas
    price_splits limit within =
        ground (
          arith,
          pays.deducts_limit,
          pays.used_eq frame.gas,
          mul-add price unused (g.used frame.gas),
        )

module _ {S D : Type 0} (u : UintOps) (j : Journal S D) (g : GasOps)
    {Rest SpecId ResultGas Exec : Type 0}
    (post : PostMainnet S D g.Gas g.I64 Rest SpecId ResultGas Exec) (cfg : Cfg) (block : Block)
    (tx : ScrollTransaction) (mainnet : Mainnet S D) (balance : S → ℕ → ℕ)
    (laws : CallerLaws j balance) (main : MainnetLaws mainnet balance)
    (credit : CreditLaws j balance) (pays : GasPaymentLaws g post block tx main) where
  pub reimburse_caller_credits :
      (frame : FrameResult g.Gas Rest) (c : Context S)
      → is_l1_msg tx ≡ false
      → (reimburse_caller u j g post cfg block tx frame c).0 ≡ ok tt
      → let returned = price g post block tx * unused g post block tx main pays frame in
        balance c.journal (caller tx) + returned ≤ u256_max
        → (a : ℕ)
        → balance (reimburse_caller u j g post cfg block tx frame c).1.journal a
          ≡ credited (balance c.journal) (caller tx) returned a
  unfolding reimburse_caller
  reimburse_caller_credits frame c not_l1 h fits a =
      ground (arith, pays.reimburse_credits frame c.journal (ground arith) fits a)

  pub reimburse_caller-l1_block_info :
      (frame : FrameResult g.Gas Rest) (c : Context S)
      → (reimburse_caller u j g post cfg block tx frame c).1.l1_block_info ≡ c.l1_block_info
  unfolding reimburse_caller
  reimburse_caller-l1_block_info frame c = ground arith

  -- A reward within 256 bits is not cut off.
  pub plain_reward_exact :
      (frame : FrameResult g.Gas Rest) (cost : ℕ)
      → price g post block tx * g.used frame.gas + cost ≤ u256_max
      → plain_reward u j g post cfg block tx frame cost
        ≡ price g post block tx * g.used frame.gas + cost
  plain_reward_exact frame cost fits = ground arith

  -- Fees neither create nor destroy money. Where a transaction that is neither an L1 message nor a
  -- system transaction passes in `before`, is executed in any way that leaves the L1 values and a gas
  -- counter of its own limit, and is reimbursed and rewarded: the caller has paid the mainnet
  -- deduction and the L1 cost; afterwards the caller is given back the price of the gas not used and
  -- the beneficiary gets the price of the gas used and the L1 cost, nothing cut off; no other
  -- balance changes, and what was paid is exactly what is given back and rewarded. The balances are
  -- within 256 bits before, and after each of the two credits.
  pub fees_conserved :
      (frame : FrameResult g.Gas Rest) (before settling : Context S) (cost : ℕ)
      → is_l1_msg tx ≡ false
      → is_system_tx tx ≡ false
      → settling.l1_block_info ≡ before.l1_block_info
      → (validate_against_state_and_deduct_caller u j mainnet cfg tx before).0 ≡ ok tt
      → tx_l1_cost {D = D} u before.l1_block_info tx cfg.spec ≡ ok cost
      → balance before.journal (caller tx) ≤ u256_max
      → g.limit frame.gas ≡ gas_limit tx
      → unused g post block tx main pays frame ≤ gas_limit tx
      → (reimburse_caller u j g post cfg block tx frame settling).0 ≡ ok tt
      → let returned = price g post block tx * unused g post block tx main pays frame in
        let reward = price g post block tx * g.used frame.gas + cost in
        let reimbursed = (reimburse_caller u j g post cfg block tx frame settling).1 in
        let rewarded = reward_beneficiary u j g post cfg block tx frame reimbursed in
        rewarded.0 ≡ ok tt
        → balance settling.journal (caller tx) + returned ≤ u256_max
        → balance reimbursed.journal block.beneficiary + reward ≤ u256_max
        → (main.deduction tx + cost ≡ returned + reward)
          × ((a : ℕ)
              → balance
                  (validate_against_state_and_deduct_caller u j mainnet cfg tx before).1.journal
                  a
                ≡ charged (balance before.journal) (caller tx) (returned + reward) a)
          × ((a : ℕ)
              → balance rewarded.1.journal a
                ≡ credited
                    (credited (balance settling.journal) (caller tx) returned)
                    block.beneficiary
                    reward
                    a)
  fees_conserved frame before settling cost not_l1 not_system same passed e held limit within back
        rewarded fits fits' =
      let (cost', e', covered, paid) =
        l1_fee-Paid u j mainnet cfg tx balance laws main before not_l1 not_system passed in
      let splits = price_splits g post block tx main pays frame limit within in
      let same_cost : cost' ≡ cost = ground (arith, e, e') in
      let reimbursed = (reimburse_caller u j g post cfg block tx frame settling).1 in
      let exact = plain_reward_exact frame cost (ground arith) in
      (
        ground arith,
        λ a. ground (arith, paid a),
        λ a. ground (
          arith,
          reimburse_caller_credits frame settling not_l1 back fits a,
          reward_credits u j g post cfg block tx balance credit frame reimbursed cost not_l1
              not_system (ground (arith, reimburse_caller-l1_block_info frame settling)) rewarded
              (ground arith) a,
        ),
      )

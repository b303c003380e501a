-- ===== src/Handler/Outcome/Reward.antt =====
-- src/handler.rs: what the beneficiary receives, against what the caller has paid.
use dogeos_revm.Prelude.{ℕ, ◌+◌, ◌*◌, min, ◌≤◌, ◌≡◌, true, false, ok, arith, Result-cases, inl, inr}
use dogeos_revm.Balances.{charged, credited}
use dogeos_revm.Uint.{UintOps, u256_max}
use dogeos_revm.Transaction.{ScrollTransaction, caller, is_l1_msg, is_system_tx}
use dogeos_revm.Handler.{Cfg, Block}
use dogeos_revm.Handler.InitialGas.{InitialAndFloorGas}
use dogeos_revm.Handler.Charge.{
  Journal, Mainnet, Context, tx_l1_cost, validate_against_state_and_deduct_caller,
}
use dogeos_revm.Handler.Charge.Laws.{CallerLaws, MainnetLaws}
use dogeos_revm.Handler.Charge.FeePaid.{l1_fee-Paid}
use dogeos_revm.Handler.Outcome.{
  GasOps, FrameResult, PostMainnet, eip7623_check_gas_floor, refund, reimburse_caller, reward_of,
  rewarded_l1_cost, reward_beneficiary,
}

-- revm's `balance_incr`, where it succeeds and the sum fits: the account is credited.
pub record CreditLaws {S D : Type 0} (j : Journal S D) (balance : S → ℕ → ℕ) : Type 0 where
  pub incr_credits :
      (payee x : ℕ) (s : S)
      → (j.balance_incr payee x s).0 ≡ ok tt
      → balance s payee + x ≤ u256_max
      → (a : ℕ) → balance (j.balance_incr payee x s).1 a ≡ credited (balance s) payee x a

module _ {S D : Type 0} (u : UintOps) (j : Journal S D) (g : GasOps)
    {Rest SpecId ResultGas Exec : Type 0}
    (post : PostMainnet S D g.Gas g.I64 Rest SpecId ResultGas Exec) (cfg : Cfg) (block : Block)
    (tx : ScrollTransaction) where
  -- The reward, written out: price times gas used, and the L1 cost, each cut off at 256 bits.
  abbrev pub plain_reward : FrameResult g.Gas Rest → ℕ → ℕ
  plain_reward frame cost =
      min (min (post.effective_gas_price tx block.basefee * g.used frame.gas) u256_max + cost)
        u256_max

  reward_of-plain_reward :
      (frame : FrameResult g.Gas Rest) (cost : ℕ)
      → reward_of u j g post cfg block tx frame cost ≡ plain_reward frame cost
  unfolding reward_of
  reward_of-plain_reward frame cost =
      let price = post.effective_gas_price tx block.basefee in
      let used = g.used frame.gas in
      ground (
        arith,
        u.saturating_mul_eq price used,
        u.saturating_add_eq (u.saturating_mul price used) cost,
      )

  -- After execution an L1 message is neither charged the floor, nor refunded, nor reimbursed, and
  -- the beneficiary gets nothing: the four steps leave the frame and the context as they are.
  pub l1_message_settles_nothing :
      (frame : FrameResult g.Gas Rest) (gas : InitialAndFloorGas) (r : g.I64) (c : Context S)
      → is_l1_msg tx ≡ true
      → (eip7623_check_gas_floor u j g post cfg block tx frame gas ≡ frame)
        × (refund u j g post cfg block tx frame r ≡ frame)
        × (reimburse_caller u j g post cfg block tx frame c ≡ (ok tt, c))
        × (reward_beneficiary u j g post cfg block tx frame c ≡ (ok tt, c))
  unfolding eip7623_check_gas_floor refund reimburse_caller reward_beneficiary
  l1_message_settles_nothing frame gas r c h = ground arith

  -- The reward with the L1 cost that is rewarded, whichever kind of transaction it is.
  pub reward_credits_cost :
      (balance : S → ℕ → ℕ)
      → CreditLaws j balance
      → (frame : FrameResult g.Gas Rest) (c : Context S) (cost : ℕ) → is_l1_msg tx ≡ false
      → (rewarded_l1_cost u j g post cfg block tx c).0 ≡ ok cost
      → (reward_beneficiary u j g post cfg block tx frame c).0 ≡ ok tt
      → let reward = plain_reward frame cost in
        balance c.journal block.beneficiary + reward ≤ u256_max
        → (a : ℕ)
        → balance (reward_beneficiary u j g post cfg block tx frame c).1.journal a
          ≡ credited (balance c.journal) block.beneficiary reward a
  unfolding reward_beneficiary rewarded_l1_cost
  reward_credits_cost balance laws frame c cost not_l1 e h fits a =
      let reward = plain_reward frame cost in
      elim (Result-cases (j.balance_incr block.beneficiary reward c.journal).0) [
        | inr (d, f) ↦ absurd (ground (arith, reward_of-plain_reward frame cost))
        | inl (_, f) ↦ ground (
          arith,
          reward_of-plain_reward frame cost,
          laws.incr_credits block.beneficiary reward c.journal f fits a,
        )
      ]

  rewarded_l1_cost-tx_l1_cost :
      (c : Context S) (cost : ℕ)
      → is_system_tx tx ≡ false
      → tx_l1_cost {D = D} u c.l1_block_info tx cfg.spec ≡ ok cost
      → (rewarded_l1_cost u j g post cfg block tx c).0 ≡ ok cost
  unfolding rewarded_l1_cost
  rewarded_l1_cost-tx_l1_cost c cost not_system e = ground arith

  pub reward_credits :
      (balance : S → ℕ → ℕ)
      → CreditLaws j balance
      → (frame : FrameResult g.Gas Rest) (c : Context S) (cost : ℕ) → is_l1_msg tx ≡ false
      → is_system_tx tx ≡ false
      → tx_l1_cost {D = D} u c.l1_block_info tx cfg.spec ≡ ok cost
      → (reward_beneficiary u j g post cfg block tx frame c).0 ≡ ok tt
      → let reward = plain_reward frame cost in
        balance c.journal block.beneficiary + reward ≤ u256_max
        → (a : ℕ)
        → balance (reward_beneficiary u j g post cfg block tx frame c).1.journal a
          ≡ credited (balance c.journal) block.beneficiary reward a
  reward_credits balance laws frame c cost not_l1 not_system e =
      reward_credits_cost balance laws frame c cost not_l1
        (rewarded_l1_cost-tx_l1_cost c cost not_system e)

  module _ (mainnet : Mainnet S D) (balance : S → ℕ → ℕ) (laws : CallerLaws j balance)
      (main : MainnetLaws mainnet balance) (credit : CreditLaws j balance) where
    -- The L1 fee that a caller pays is the one that the beneficiary receives: where a transaction
    -- that is neither an L1 message nor a system transaction passes in `before`, and is rewarded in
    -- `after`, with the L1 values of `before` still in place, the calculated cost is part of both sums. The
    -- caller has paid the mainnet deduction and that cost, and the beneficiary is credited the gas
    -- price times the gas used and that cost, if its balance stays within 256 bits.
    fee_paid_is_rewarded :
        (frame : FrameResult g.Gas Rest) (before after : Context S)
        → is_l1_msg tx ≡ false
        → is_system_tx tx ≡ false
        → after.l1_block_info ≡ before.l1_block_info
        → (validate_against_state_and_deduct_caller u j mainnet cfg tx before).0 ≡ ok tt
        → (reward_beneficiary u j g post cfg block tx frame after).0 ≡ ok tt
        → ((n : ℕ)
            → tx_l1_cost {D = D} u before.l1_block_info tx cfg.spec ≡ ok n
            → balance after.journal block.beneficiary + plain_reward frame n ≤ u256_max)
        → (cost : ℕ) × (tx_l1_cost {D = D} u before.l1_block_info tx cfg.spec ≡ ok cost)
          × ((a : ℕ)
              → balance
                  (validate_against_state_and_deduct_caller u j mainnet cfg tx before).1.journal
                  a
                ≡ charged (balance before.journal) (caller tx) (main.deduction tx + cost) a)
          × ((a : ℕ)
              → balance (reward_beneficiary u j g post cfg block tx frame after).1.journal a
                ≡ credited (balance after.journal) block.beneficiary (plain_reward frame cost) a)
    fee_paid_is_rewarded frame before after not_l1 not_system same passed rewarded fits =
        let (cost, e, _, paid) =
          l1_fee-Paid u j mainnet cfg tx balance laws main before not_l1 not_system passed in
        (
          cost,
          e,
          paid,
          reward_credits balance credit frame after cost not_l1 not_system (ground arith) rewarded
              (fits cost e),
        )

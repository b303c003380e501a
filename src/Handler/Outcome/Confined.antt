-- ===== src/Handler/Outcome/Confined.antt =====
-- src/handler.rs: the hooks that move money, on every outcome, for the accounts that are neither
-- the caller nor the beneficiary.
use dogeos_revm.Prelude.{ℕ, ◌≡◌, ◌≢◌, refl, arith}
use dogeos_revm.Action.{◌>>◌, pure}
use dogeos_revm.Action.Stays.{Stays, either-Stays, pure-Stays, stays_rules}
use dogeos_revm.Uint.{UintOps}
use dogeos_revm.Transaction.{ScrollTransaction, caller, is_l1_msg}
use dogeos_revm.Handler.{Cfg, Block}
use dogeos_revm.Handler.Charge.{Journal, Context, journaled, mainnet_step}
use dogeos_revm.Handler.Charge.Unseen.{Observed, journaled-Stays, mainnet_step-Stays}
use dogeos_revm.Handler.Outcome.{
  GasOps, FrameResult, PostMainnet, reimburse_caller, reward_of, rewarded_l1_cost,
  reward_beneficiary,
}

-- The two steps that give money give it to the account they are told to, whatever they answer.
pub record PayeeLaws {S D Gas I64 Rest SpecId ResultGas Exec : Type 0} (j : Journal S D)
    (post : PostMainnet S D Gas I64 Rest SpecId ResultGas Exec) (balance : S → ℕ → ℕ) : Type 0 where
  pub incr_elsewhere :
      (payee x : ℕ) (s : S) (b : ℕ)
      → b ≢ payee
      → balance (j.balance_incr payee x s).1 b ≡ balance s b
  pub reimburses_elsewhere :
      (tx : ScrollTransaction) (frame : FrameResult Gas Rest) (s : S) (b : ℕ)
      → b ≢ caller tx
      → balance (post.reimburse_caller tx frame s).1 b ≡ balance s b

module _ {S D : Type 0} (u : UintOps) (j : Journal S D) (cfg : Cfg) (g : GasOps)
    {Rest SpecId ResultGas Exec : Type 0}
    (post : PostMainnet S D g.Gas g.I64 Rest SpecId ResultGas Exec) (block : Block)
    (tx : ScrollTransaction) (balance : S → ℕ → ℕ) where
  module _ (payees : PayeeLaws j post balance) (frame : FrameResult g.Gas Rest) (b n : ℕ)
      (not_caller : b ≢ caller tx) (not_beneficiary : b ≢ block.beneficiary) where
    reimburse_caller-Stays :
        Stays (Observed (λ s. balance s b) n) (reimburse_caller u j g post cfg block tx frame)
    unfolding reimburse_caller
    reimburse_caller-Stays =
        either-Stays (is_l1_msg tx) (pure tt) (mainnet_step (post.reimburse_caller tx frame))
          (pure-Stays tt)
          (mainnet_step-Stays (λ s. balance s b) n (post.reimburse_caller tx frame)
            (λ s. payees.reimburses_elsewhere tx frame s b not_caller))

    rewarded_l1_cost-Stays :
        Stays (Observed (λ s. balance s b) n) (rewarded_l1_cost u j g post cfg block tx)
    unfolding rewarded_l1_cost
    rewarded_l1_cost-Stays = record { after = λ c h. ground (arith, h) }

    pay-Stays :
        (cost : ℕ)
        → Stays (Observed (λ s. balance s b) n) (
            journaled
              (j.balance_incr block.beneficiary (reward_of u j g post cfg block tx frame cost)))
    pay-Stays cost =
        journaled-Stays (λ s. balance s b) n _
          (λ s. payees.incr_elsewhere block.beneficiary _ s b not_beneficiary)

    reward_beneficiary-Stays :
        Stays (Observed (λ s. balance s b) n) (reward_beneficiary u j g post cfg block tx frame)
    unfolding reward_beneficiary
    reward_beneficiary-Stays = search (stays_rules, rewarded_l1_cost-Stays, pay-Stays)

    settlement-Stays : Stays (Observed (λ s. balance s b) n) (
        reimburse_caller u j g post cfg block tx frame
        >> reward_beneficiary u j g post cfg block tx frame)
    settlement-Stays = search (stays_rules, reimburse_caller-Stays, reward_beneficiary-Stays)

  -- For an account that is neither the caller nor the beneficiary the settlement, the
  -- reimbursement and then the reward, changes nothing, whether it succeeds or fails at either
  -- step, for every kind of transaction and under every hardfork.
  pub settlement_confined :
      (payees : PayeeLaws j post balance) (frame : FrameResult g.Gas Rest) (c : Context S) (b : ℕ)
      → b ≢ caller tx
      → b ≢ block.beneficiary
      → balance
          ((reimburse_caller u j g post cfg block tx frame
              >> reward_beneficiary u j g post cfg block tx frame)
            c).1.journal
          b
        ≡ balance c.journal b
  settlement_confined payees frame c b not_caller not_beneficiary =
      (settlement-Stays payees frame b _ not_caller not_beneficiary).after c refl

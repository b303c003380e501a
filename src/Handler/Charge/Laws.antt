-- ===== src/Handler/Charge/Laws.antt =====
-- What the charging of the caller relies on of revm's journal and mainnet handler, over the
-- balances that a journal stands for.
use dogeos_revm.Prelude.{ℕ, ◌≤◌, ◌≡◌, ok}
use dogeos_revm.Balances.{SameBalances, charged}
use dogeos_revm.Transaction.{ScrollTransaction, caller}
use dogeos_revm.Handler.Charge.{Journal, Mainnet}

-- Loading an account reports its balance and moves nothing; `decr_balance` takes an amount that is
-- covered; nonces and touching move nothing.
pub record CallerLaws {S D : Type 0} (j : Journal S D) (balance : S → ℕ → ℕ) : Type 0 where
  pub load_reports : (a : ℕ) (s : S) (n : ℕ) → (j.load_account_mut a s).0 ≡ ok n → n ≡ balance s a
  pub load_keeps : (a : ℕ) (s : S) → SameBalances balance s (j.load_account_mut a s).1
  pub load_with_code_keeps :
      (a : ℕ) (s : S) → SameBalances balance s (j.load_account_with_code_mut a s).1
  pub decr_balance_takes :
      (a x : ℕ) (s : S)
      → x ≤ balance s a
      → (b : ℕ) → balance (j.decr_balance a x s) b ≡ charged (balance s) a x b
  pub bump_nonce_keeps : (a : ℕ) (s : S) → SameBalances balance s (j.bump_nonce a s)
  pub touch_keeps : (a : ℕ) (s : S) → SameBalances balance s (j.touch a s)

-- The mainnet step, where it succeeds, has deducted an amount of the caller's balance that depends
-- on the transaction and is covered; the amount is at most the transaction's maximal spending.
pub record MainnetLaws {S D : Type 0} (m : Mainnet S D) (balance : S → ℕ → ℕ) : Type 0 where
  pub deduction : ScrollTransaction → ℕ
  pub covered :
      (tx : ScrollTransaction) (s : S)
      → (m.validate_against_state_and_deduct_caller tx s).0 ≡ ok tt
      → deduction tx ≤ balance s (caller tx)
  pub deducts :
      (tx : ScrollTransaction) (s : S)
      → (m.validate_against_state_and_deduct_caller tx s).0 ≡ ok tt
      → (a : ℕ)
      → balance (m.validate_against_state_and_deduct_caller tx s).1 a
        ≡ charged (balance s) (caller tx) (deduction tx) a
  pub deduction_bounded :
      (tx : ScrollTransaction) (n : ℕ) → m.max_balance_spending tx ≡ ok n → deduction tx ≤ n

-- ===== src/Handler/Charge/Confined.antt =====
-- src/handler.rs: `pre_execution`, the reimbursement and the reward, on every outcome, for the
-- accounts that take no part in the transaction.
use dogeos_revm.Prelude.{ℕ, ◌≡◌, ◌≢◌, refl}
use dogeos_revm.Uint.{UintOps}
use dogeos_revm.Transaction.{ScrollTransaction, caller}
use dogeos_revm.Handler.{Cfg}
use dogeos_revm.Handler.Charge.{Journal, Mainnet, Context, pre_execution}
use dogeos_revm.Handler.Charge.Laws.{CallerLaws}
use dogeos_revm.Handler.Charge.PreExecution.{QuietLaws}
use dogeos_revm.Handler.Charge.Unseen.{UnseenLaws, pre_execution-Stays}

-- The two steps that take money take it from the account they are told to, whatever they answer.
pub record ConfinedLaws {S D : Type 0} (j : Journal S D) (m : Mainnet S D) (balance : S → ℕ → ℕ)
    : Type 0 where
  pub decr_balance_elsewhere :
      (a x : ℕ) (s : S) (b : ℕ) → b ≢ a → balance (j.decr_balance a x s) b ≡ balance s b
  pub deducts_elsewhere :
      (tx : ScrollTransaction) (s : S) (b : ℕ)
      → b ≢ caller tx
      → balance (m.validate_against_state_and_deduct_caller tx s).1 b ≡ balance s b

module _ {S D : Type 0} (u : UintOps) (j : Journal S D) (mainnet : Mainnet S D) (cfg : Cfg)
    (tx : ScrollTransaction) (balance : S → ℕ → ℕ) (laws : CallerLaws j balance)
    (quiet : QuietLaws j mainnet balance) (confined : ConfinedLaws j mainnet balance) where
  bystander_unseen : (b : ℕ) → b ≢ caller tx → UnseenLaws j mainnet tx (λ s. balance s b)
  bystander_unseen b bystander = record {
    reads_keep = λ slot s. quiet.db_storage_keeps _ slot s b;
    load_keeps = λ s. laws.load_keeps (caller tx) s b;
    load_with_code_keeps = λ s. laws.load_with_code_keeps (caller tx) s b;
    decr_balance_keeps = λ x s. confined.decr_balance_elsewhere (caller tx) x s b bystander;
    bump_nonce_keeps = λ s. laws.bump_nonce_keeps (caller tx) s b;
    touch_keeps = λ s. laws.touch_keeps (caller tx) s b;
    mainnet_keeps = λ s. confined.deducts_elsewhere tx s b bystander;
    load_accounts_keeps = λ s. quiet.load_accounts_keeps tx s b;
    auth_list_keeps = λ s. quiet.auth_list_keeps tx s b;
  }

  -- `pre_execution` changes the balance of no account but the caller's, whether it succeeds or
  -- fails at any of its steps, for every kind of transaction and under every hardfork, where the
  -- journal and the mainnet step take money from nobody else.
  pub pre_execution_confined :
      (c : Context S) (b : ℕ)
      → b ≢ caller tx
      → balance (pre_execution u j mainnet cfg tx c).1.journal b ≡ balance c.journal b
  pre_execution_confined c b bystander =
      (pre_execution-Stays u j mainnet cfg tx (λ s. balance s b) (bystander_unseen b bystander)
          _).after
        c refl

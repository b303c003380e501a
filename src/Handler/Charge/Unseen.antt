-- ===== src/Handler/Charge/Unseen.antt =====
-- src/handler.rs: what `pre_execution` leaves as it is, on every outcome.
use dogeos_revm.Prelude.{ℕ, ◌≡◌, ◌∙◌, arith}
use dogeos_revm.Action.{Action}
use dogeos_revm.Action.Stays.{Stays, stays_rules}
use dogeos_revm.L1Block.{l1_gas_price_oracle_address}
use dogeos_revm.Uint.{UintOps}
use dogeos_revm.L1Block.Untouched.{try_fetch_from_journal-Stays}
use dogeos_revm.Transaction.{ScrollTransaction, caller}
use dogeos_revm.Handler.{EvmError, Cfg}
use dogeos_revm.Handler.Charge.{
  Journal, Mainnet, Context, CallerAccount, journaled, mainnet_step, change, context_l1_cost,
  charge_l1_fee, deduct_before_tsuki_v2, check_total_spending, deduct_l1_fee, deduct_from_tsuki_v2,
  check_l1_msg_balance, l1_msg_checks, validate_against_state_and_deduct_caller,
  refresh_l1_block_info, pre_execution,
}

-- What no step of the charging of a transaction changes: something that every call which is made of
-- the journal and of revm leaves alone, for the accounts it is made with.
pub record UnseenLaws {S D O : Type 0} (j : Journal S D) (m : Mainnet S D) (tx : ScrollTransaction)
    (observe : S → O) : Type 0 where
  pub reads_keep :
      (slot : ℕ) (s : S)
      → observe (j.reads.db_storage l1_gas_price_oracle_address slot s).1 ≡ observe s
  pub load_keeps : (s : S) → observe (j.load_account_mut (caller tx) s).1 ≡ observe s
  pub load_with_code_keeps :
      (s : S) → observe (j.load_account_with_code_mut (caller tx) s).1 ≡ observe s
  pub decr_balance_keeps : (x : ℕ) (s : S) → observe (j.decr_balance (caller tx) x s) ≡ observe s
  pub bump_nonce_keeps : (s : S) → observe (j.bump_nonce (caller tx) s) ≡ observe s
  pub touch_keeps : (s : S) → observe (j.touch (caller tx) s) ≡ observe s
  pub mainnet_keeps :
      (s : S) → observe (m.validate_against_state_and_deduct_caller tx s).1 ≡ observe s
  pub load_accounts_keeps : (s : S) → observe (m.load_accounts tx s).1 ≡ observe s
  pub auth_list_keeps : (s : S) → observe (m.apply_eip7702_auth_list tx s).1 ≡ observe s

-- Something of the journal is the given number.
abbrev pub Observed : {S O : Type 0} → (S → O) → O → Context S → Type 0
Observed observe n c = observe c.journal ≡ n

module _ {S D O : Type 0} (observe : S → O) (n : O) where
  pub journaled-Stays :
      {A : Type 0} (m : Action S D A)
      → ((s : S) → observe (m s).1 ≡ observe s)
      → Stays (Observed observe n) (journaled m)
  journaled-Stays m k = record { after = λ c h. k c.journal ∙ h }

  pub mainnet_step-Stays :
      {A : Type 0} (m : Action S (EvmError D) A)
      → ((s : S) → observe (m s).1 ≡ observe s)
      → Stays (Observed observe n) (mainnet_step m)
  mainnet_step-Stays m k = record { after = λ c h. k c.journal ∙ h }

  change-Stays :
      (f : S → S)
      → ((s : S) → observe (f s) ≡ observe s)
      → Stays {E = EvmError D} (Observed observe n) (change f)
  change-Stays f k = record { after = λ c h. k c.journal ∙ h }

module _ {S D O : Type 0} (u : UintOps) (j : Journal S D) (mainnet : Mainnet S D) (cfg : Cfg)
    (tx : ScrollTransaction) (observe : S → O) (laws : UnseenLaws j mainnet tx observe)
    (n : O) where
  refresh-Stays : Stays (Observed observe n) (refresh_l1_block_info u j mainnet cfg tx)
  unfolding refresh_l1_block_info
  refresh-Stays = record {
    after = λ c h. ground (
      arith,
      (try_fetch_from_journal-Stays {P = λ s. observe s ≡ n} u j.reads
            (λ slot. record { after = λ s k. laws.reads_keep slot s ∙ k }) cfg.spec).after
          c.journal h,
    );
  }

  load-Stays : Stays (Observed observe n) (journaled (j.load_account_mut (caller tx)))
  load-Stays = journaled-Stays observe n _ laws.load_keeps

  cost-Stays : Stays (Observed observe n) (context_l1_cost u j mainnet cfg tx)
  cost-Stays = record { after = λ c h. h }

  decr-Stays :
      (cost : ℕ) → Stays (Observed observe n) (change {D = D} (j.decr_balance (caller tx) cost))
  decr-Stays cost = change-Stays observe n _ (laws.decr_balance_keeps cost)

  mainnet-Stays :
      Stays
        (Observed observe n)
        (mainnet_step (mainnet.validate_against_state_and_deduct_caller tx))
  mainnet-Stays = mainnet_step-Stays observe n _ laws.mainnet_keeps

  charge_l1_fee-Stays : Stays (Observed observe n) (charge_l1_fee u j mainnet cfg tx)
  unfolding charge_l1_fee
  charge_l1_fee-Stays = search (stays_rules, load-Stays, cost-Stays, decr-Stays)

  deduct_before_tsuki_v2-Stays :
      Stays (Observed observe n) (deduct_before_tsuki_v2 u j mainnet cfg tx)
  unfolding deduct_before_tsuki_v2
  deduct_before_tsuki_v2-Stays = search (stays_rules, mainnet-Stays, charge_l1_fee-Stays)

  check_total_spending-Stays : Stays (Observed observe n) (check_total_spending u j mainnet cfg tx)
  unfolding check_total_spending
  check_total_spending-Stays = search (stays_rules, load-Stays, cost-Stays) depth 8

  deduct_l1_fee-Stays :
      (cost : ℕ) → Stays (Observed observe n) (deduct_l1_fee u j mainnet cfg tx cost)
  unfolding deduct_l1_fee
  deduct_l1_fee-Stays cost = search (stays_rules, load-Stays, decr-Stays)

  deduct_from_tsuki_v2-Stays : Stays (Observed observe n) (deduct_from_tsuki_v2 u j mainnet cfg tx)
  unfolding deduct_from_tsuki_v2
  deduct_from_tsuki_v2-Stays =
      search (stays_rules, mainnet-Stays, check_total_spending-Stays, deduct_l1_fee-Stays)

  check_l1_msg_balance-Stays :
      (account : CallerAccount)
      → Stays (Observed observe n) (check_l1_msg_balance u j mainnet cfg tx account)
  unfolding check_l1_msg_balance
  check_l1_msg_balance-Stays account = search stays_rules

  load_with_code-Stays :
      Stays (Observed observe n) (journaled (j.load_account_with_code_mut (caller tx)))
  load_with_code-Stays = journaled-Stays observe n _ laws.load_with_code_keeps

  bump-Stays : Stays (Observed observe n) (change {D = D} (j.bump_nonce (caller tx)))
  bump-Stays = change-Stays observe n _ laws.bump_nonce_keeps

  touch-Stays : Stays (Observed observe n) (change {D = D} (j.touch (caller tx)))
  touch-Stays = change-Stays observe n _ laws.touch_keeps

  l1_msg_checks-Stays : Stays (Observed observe n) (l1_msg_checks u j mainnet cfg tx)
  unfolding l1_msg_checks
  l1_msg_checks-Stays =
      search
        (stays_rules, load_with_code-Stays, check_l1_msg_balance-Stays, bump-Stays, touch-Stays)
        depth 8

  validate-Stays :
      Stays (Observed observe n) (validate_against_state_and_deduct_caller u j mainnet cfg tx)
  unfolding validate_against_state_and_deduct_caller
  validate-Stays =
      search
        (stays_rules, deduct_before_tsuki_v2-Stays, deduct_from_tsuki_v2-Stays, l1_msg_checks-Stays)

  load_accounts-Stays : Stays (Observed observe n) (mainnet_step (mainnet.load_accounts tx))
  load_accounts-Stays = mainnet_step-Stays observe n _ laws.load_accounts_keeps

  auth_list-Stays : Stays (Observed observe n) (mainnet_step (mainnet.apply_eip7702_auth_list tx))
  auth_list-Stays = mainnet_step-Stays observe n _ laws.auth_list_keeps

  pub pre_execution-Stays : Stays (Observed observe n) (pre_execution u j mainnet cfg tx)
  unfolding pre_execution
  pre_execution-Stays =
      search (stays_rules, refresh-Stays, validate-Stays, load_accounts-Stays, auth_list-Stays)

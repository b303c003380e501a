-- ===== src/Handler/Charge/Cold.antt =====
-- src/handler.rs: fetching the L1 values does not load the oracle's account into the journal.
use dogeos_revm.Prelude.{ℕ, ◌≡◌, ◌≢◌, Bool, false, is_some, refl}
use dogeos_revm.Uint.{UintOps}
use dogeos_revm.L1Block.{l1_gas_price_oracle_address}
use dogeos_revm.Transaction.{ScrollTransaction, caller}
use dogeos_revm.Handler.{Cfg}
use dogeos_revm.Handler.Charge.{Journal, Mainnet, Context, pre_execution}
use dogeos_revm.Handler.Charge.Unseen.{UnseenLaws, pre_execution-Stays}

-- `evm_state().contains_key(address)`
abbrev pub is_loaded : {S D : Type 0} → Journal S D → ℕ → S → Bool
is_loaded j a s = is_some (j.reads.evm_state s a)

-- An account comes into the journal's state by an operation on that account, by the mainnet step of
-- its own transaction, or by the lists of a transaction that mention it. Reading a slot from the
-- database loads nothing.
pub record LoadLaws {S D : Type 0} (j : Journal S D) (m : Mainnet S D)
    (mentioned : ScrollTransaction → ℕ → Bool) : Type 0 where
  pub read_loads_nothing :
      (a slot : ℕ) (s : S) (b : ℕ) → is_loaded j b (j.reads.db_storage a slot s).1 ≡ is_loaded j b s
  pub load_elsewhere :
      (a : ℕ) (s : S) (b : ℕ) → b ≢ a → is_loaded j b (j.load_account_mut a s).1 ≡ is_loaded j b s
  pub load_with_code_elsewhere :
      (a : ℕ) (s : S) (b : ℕ)
      → b ≢ a
      → is_loaded j b (j.load_account_with_code_mut a s).1 ≡ is_loaded j b s
  pub decr_balance_elsewhere :
      (a x : ℕ) (s : S) (b : ℕ) → b ≢ a → is_loaded j b (j.decr_balance a x s) ≡ is_loaded j b s
  pub bump_nonce_elsewhere :
      (a : ℕ) (s : S) (b : ℕ) → b ≢ a → is_loaded j b (j.bump_nonce a s) ≡ is_loaded j b s
  pub touch_elsewhere :
      (a : ℕ) (s : S) (b : ℕ) → b ≢ a → is_loaded j b (j.touch a s) ≡ is_loaded j b s
  pub mainnet_elsewhere :
      (tx : ScrollTransaction) (s : S) (b : ℕ)
      → b ≢ caller tx
      → is_loaded j b (m.validate_against_state_and_deduct_caller tx s).1 ≡ is_loaded j b s
  pub load_accounts_elsewhere :
      (tx : ScrollTransaction) (s : S) (b : ℕ)
      → mentioned tx b ≡ false
      → is_loaded j b (m.load_accounts tx s).1 ≡ is_loaded j b s
  pub auth_list_elsewhere :
      (tx : ScrollTransaction) (s : S) (b : ℕ)
      → mentioned tx b ≡ false
      → is_loaded j b (m.apply_eip7702_auth_list tx s).1 ≡ is_loaded j b s

module _ {S D : Type 0} (u : UintOps) (j : Journal S D) (mainnet : Mainnet S D) (cfg : Cfg)
    (tx : ScrollTransaction) (mentioned : ScrollTransaction → ℕ → Bool)
    (laws : LoadLaws j mainnet mentioned) where
  abbrev oracle : ℕ
  oracle = l1_gas_price_oracle_address

  -- `pre_execution` does not load the oracle's account, so that the transaction pays for a cold
  -- access where it makes one: the account is in the journal's state afterwards exactly when it was
  -- before, on success and on failure at any step, for every kind of transaction and under every
  -- hardfork, where the oracle is not the caller and the transaction's lists do not mention it.
  pub oracle_stays_cold :
      (c : Context S)
      → oracle ≢ caller tx
      → mentioned tx oracle ≡ false
      → is_loaded j oracle (pre_execution u j mainnet cfg tx c).1.journal
        ≡ is_loaded j oracle c.journal
  oracle_stays_cold c other unlisted =
      let unseen : UnseenLaws j mainnet tx (is_loaded j oracle) = record {
        reads_keep = λ slot s. laws.read_loads_nothing _ slot s oracle;
        load_keeps = λ s. laws.load_elsewhere (caller tx) s oracle other;
        load_with_code_keeps = λ s. laws.load_with_code_elsewhere (caller tx) s oracle other;
        decr_balance_keeps = λ x s. laws.decr_balance_elsewhere (caller tx) x s oracle other;
        bump_nonce_keeps = λ s. laws.bump_nonce_elsewhere (caller tx) s oracle other;
        touch_keeps = λ s. laws.touch_elsewhere (caller tx) s oracle other;
        mainnet_keeps = λ s. laws.mainnet_elsewhere tx s oracle other;
        load_accounts_keeps = λ s. laws.load_accounts_elsewhere tx s oracle unlisted;
        auth_list_keeps = λ s. laws.auth_list_elsewhere tx s oracle unlisted;
      } in
      (pre_execution-Stays u j mainnet cfg tx (is_loaded j oracle) unseen _).after c refl

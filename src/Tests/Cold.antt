-- ===== src/Tests/Cold.antt =====
-- A journal that only knows which accounts it has loaded.
use dogeos_revm.Prelude.{
  ◌*◌, ℕ, ◌≡◌, ◌≢◌, Bool, true, false, ◌||◌, none, some, Option, ok, ◌==◌, refl, arith,
}
use dogeos_revm.Uint.{native}
use dogeos_revm.Spec.{tsuki_v2}
use dogeos_revm.L1Block.{l1_gas_price_oracle_address}
use dogeos_revm.L1Block.Fetch.{Account}
use dogeos_revm.Transaction.{ScrollTransaction, caller}
use dogeos_revm.Handler.Charge.{Journal, Mainnet, Context, pre_execution}
use dogeos_revm.Handler.Charge.Cold.{is_loaded, LoadLaws, oracle_stays_cold}
use dogeos_revm.Tests.Fees.{sample_info}
use dogeos_revm.Tests.Ledger.{tx_of, cfg_of}

abbrev Loaded : Type 0
Loaded = ℕ → Bool

abbrev load : ℕ → Loaded → Loaded
load a s b = (b == a) || s b

abbrev account_of : Bool → Option Account
account_of true = some (record { storage = λ slot. none })
account_of false = none

abbrev loading_journal : Journal Loaded (Unit {0})
loading_journal = record {
  reads = record {
    evm_state = λ s a. account_of (s a);
    db_storage = λ a slot s. (ok (slot * 1_000_000_000), s);
  };
  load_account_mut = λ a s. (ok 1_000_000_000_000, load a s);
  load_account_with_code_mut = λ a s. (ok (record { balance = 0; code = none }), load a s);
  decr_balance = λ a n s. load a s;
  bump_nonce = λ a s. load a s;
  touch = λ a s. load a s;
  balance_incr = λ a n s. (ok tt, load a s);
}

-- The access list of the transactions mentions account 3.
abbrev mentioned : ScrollTransaction → ℕ → Bool
mentioned tx a = a == 3

abbrev loading_mainnet : Mainnet Loaded (Unit {0})
loading_mainnet = record {
  validate_against_state_and_deduct_caller = λ tx s. (ok tt, load (caller tx) s);
  load_accounts = λ tx s. (ok tt, load 3 s);
  apply_eip7702_auth_list = λ tx s. (ok 0, s);
  max_balance_spending = λ tx. ok 1_000;
}

load-elsewhere : (a : ℕ) (s : Loaded) (b : ℕ) → b ≢ a → load a s b ≡ s b
load-elsewhere a s b other = ground arith

loads : LoadLaws loading_journal loading_mainnet mentioned
loads = record {
  read_loads_nothing = λ a slot s b. refl;
  load_elsewhere = λ a s b other. rw (load-elsewhere a s b other);
  load_with_code_elsewhere = λ a s b other. rw (load-elsewhere a s b other);
  decr_balance_elsewhere = λ a x s b other. rw (load-elsewhere a s b other);
  bump_nonce_elsewhere = λ a s b other. rw (load-elsewhere a s b other);
  touch_elsewhere = λ a s b other. rw (load-elsewhere a s b other);
  mainnet_elsewhere = λ tx s b other. rw (load-elsewhere (caller tx) s b other);
  load_accounts_elsewhere = λ tx s b unlisted. ground arith;
  auth_list_elsewhere = λ tx s b unlisted. refl;
}

oracle_is_not_one : l1_gas_price_oracle_address ≢ 1
oracle_is_not_one = λ h. absurd (ground arith)

abbrev nothing_loaded : Context Loaded
nothing_loaded = record { journal = λ a. false; l1_block_info = sample_info }

oracle_stays_cold_example :
    is_loaded loading_journal l1_gas_price_oracle_address
      (pre_execution native loading_journal loading_mainnet
        (cfg_of tsuki_v2)
        (tx_of 2)
        nothing_loaded).1.journal
    ≡ false
oracle_stays_cold_example =
    oracle_stays_cold native loading_journal loading_mainnet (cfg_of tsuki_v2) (tx_of 2) mentioned
      loads nothing_loaded oracle_is_not_one refl

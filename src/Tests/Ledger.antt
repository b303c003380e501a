-- ===== src/Tests/Ledger.antt =====
-- A journal that is its balances, transactions and a configuration to run the handler with.
use dogeos_revm.Prelude.{
  ◌*◌, ℕ, refl, true, false, [], ◌∷◌, none, some, leb, ◌==◌, if◌then◌else◌, ok, err, arith,
}
use dogeos_revm.Balances.{charged, credited}
use dogeos_revm.Spec.{ScrollSpecId}
use dogeos_revm.Transaction.{TxEnv, ScrollTransaction, call, caller}
use dogeos_revm.Handler.{Cfg, Block, transaction, raised_by_revm}
use dogeos_revm.Handler.Charge.{Journal, Mainnet, Context}
use dogeos_revm.Handler.Charge.Laws.{CallerLaws, MainnetLaws}
use dogeos_revm.Tests.Fees.{sample_info, sample_input}

abbrev pub Balances : Type 0
Balances = ℕ → ℕ

-- The database holds a billion times its number in every slot. Its error is `tt`; none occurs.
abbrev pub ledger_journal : Journal Balances (Unit {0})
ledger_journal = record {
  reads = record {
    evm_state = λ s a. none;
    db_storage = λ a slot s. (ok (slot * 1_000_000_000), s);
  };
  load_account_mut = λ a s. (ok (s a), s);
  load_account_with_code_mut = λ a s. (ok (record { balance = s a; code = none }), s);
  decr_balance = λ a n s b. charged s a n b;
  bump_nonce = λ a s. s;
  touch = λ a s. s;
  balance_incr = λ a n s. (ok tt, λ b. credited s a n b);
}

abbrev pub itself : Balances → ℕ → ℕ
itself s a = s a

pub ledger_laws : CallerLaws ledger_journal itself
ledger_laws = record {
  load_reports = λ a s n h. ground arith;
  load_keeps = λ a s b. refl;
  load_with_code_keeps = λ a s b. refl;
  decr_balance_takes = λ a x s h b. refl;
  bump_nonce_keeps = λ a s b. refl;
  touch_keeps = λ a s b. refl;
}

-- A mainnet step that deducts a thousand from a caller who has them.
abbrev pub flat_mainnet : Mainnet Balances (Unit {0})
flat_mainnet = record {
  validate_against_state_and_deduct_caller = λ tx s.
      if leb 1000 (s (caller tx))
      then (ok tt, λ b. charged s (caller tx) 1000 b)
      else (err (transaction (raised_by_revm 0)), s);
  load_accounts = λ tx s. (ok tt, s);
  apply_eip7702_auth_list = λ tx s. (ok 0, s);
  max_balance_spending = λ tx. ok 1000;
}

pub mainnet_laws : MainnetLaws flat_mainnet itself
mainnet_laws = record {
  deduction = λ tx. 1000;
  covered = λ tx s h. ground arith;
  deducts = λ tx s h a. ground arith;
  deduction_bounded = λ tx n h. ground arith;
}

abbrev pub base_of : ℕ → TxEnv
base_of type = record {
  tx_type = type;
  caller = 1;
  gas_limit = 30_000;
  value = 0;
  input = [];
  nonce = 0;
  kind = call 2;
  chain_id = none;
  gas_price = 1;
  access_list = some (record { address = 3; storage_slots = 4 ∷ 5 ∷ [] } ∷ []);
  blob_versioned_hashes = [];
  max_fee_per_blob_gas = 0;
  authorization_list = [];
  max_priority_fee_per_gas = none;
}

-- A transaction of a type, with all that the rollup fee may need.
abbrev pub tx_of : ℕ → ScrollTransaction
tx_of type = record {
  base = base_of type;
  rlp_bytes = some sample_input;
  compression_ratio = some 1_500_000_000;
  compressed_size = some 3;
}

abbrev pub cfg_of : ScrollSpecId → Cfg
cfg_of spec = record {
  spec = spec;
  chain_id = 534_352;
  tx_chain_id_check = true;
  tx_gas_limit_cap = 25_000;
  max_blobs_per_tx = none;
  max_initcode_size = 49_152;
  is_base_fee_check_disabled = false;
  is_priority_fee_check_disabled = false;
  is_block_gas_limit_disabled = false;
  is_eip7623_disabled = false;
  is_eip3607_disabled = false;
}

abbrev pub sample_block : Block
sample_block = record {
  prevrandao = some 0;
  has_blob_excess_gas_and_price = false;
  basefee = 1;
  blob_gasprice = none;
  gas_limit = 20_000_000;
  beneficiary = 9;
}

-- Account 1 holds an amount, any other ten.
abbrev pub holding : ℕ → Balances
holding amount a = if a == 1 then amount else 10

abbrev pub context_of : ℕ → Context Balances
context_of amount = record { journal = holding amount; l1_block_info = sample_info }

-- ===== src/Tests/Validation.antt =====
-- The validation of transactions at concrete inputs.
use dogeos_revm.Prelude.{ℕ, refl, true, ok, ◌==◌, if◌then◌else◌}
use dogeos_revm.Transaction.{ScrollTransaction}
use dogeos_revm.Handler.Env.{TransactionType, legacy, custom_type, Validation}
use dogeos_revm.Tests.Ledger.{tx_of}

-- Hardforks by number, Shanghai being 3, and checks that accept.
abbrev pub types : ℕ → TransactionType
types n = if n == 0x7e then custom_type else legacy

abbrev pub accepting : Validation
accepting = record {
  SpecId = ℕ;
  merge = 2;
  berlin = 0;
  london = 1;
  eth_shanghai = 3;
  cancun = 4;
  eth_is_enabled_in = λ our other. if other == 4 then our == 4 else true;
  transaction_type = types;
  max_fee_per_gas = λ tx. 1;
  validate_legacy_gas_price = λ price fee. ok tt;
  validate_priority_fee_tx = λ max priority fee disabled. ok tt;
  validate_eip4844_tx = λ hashes fee price max. ok tt;
  shanghai_merge = refl;
  shanghai_berlin = refl;
  shanghai_london = refl;
  shanghai_itself = refl;
  shanghai_cancun = refl;
  l1_message_custom = refl;
}

-- A legacy transaction that is within the cap.
abbrev small_tx : ScrollTransaction
small_tx = record (tx_of 0) { base = record (tx_of 0).base { gas_limit = 21_000 } }

-- ===== src/L1Block/Untouched.antt =====
-- src/l1block.rs: fetching the L1 values, on every outcome, leaves what reading a slot leaves.
use dogeos_revm.Prelude.{ℕ, arith}
use dogeos_revm.Action.{Action}
use dogeos_revm.Action.Stays.{Stays, stays_rules}
use dogeos_revm.Uint.{UintOps}
use dogeos_revm.Spec.{ScrollSpecId}
use dogeos_revm.L1Block.{l1_gas_price_oracle_address}
use dogeos_revm.L1Block.Fetch.{
  JournalReads, journal_storage, try_fetch_with, try_fetch_from_journal,
}

module _ {S E : Type 0} {P : S → Type 0} (u : UintOps) where
  try_fetch_with-Stays :
      (storage : ℕ → Action S E ℕ)
      → ((slot : ℕ) → Stays P (storage slot))
      → (spec_id : ScrollSpecId) → Stays P (try_fetch_with u storage spec_id)
  unfolding try_fetch_with
  try_fetch_with-Stays storage keeps spec_id = search stays_rules depth 24

  journal_storage-Stays :
      (j : JournalReads S E)
      → ((slot : ℕ) → Stays P (j.db_storage l1_gas_price_oracle_address slot))
      → (slot : ℕ) → Stays P (journal_storage j slot)
  unfolding journal_storage
  journal_storage-Stays j keeps slot = record {
    after = λ s h. ground (arith, (keeps slot).after s h);
  }

  pub try_fetch_from_journal-Stays :
      (j : JournalReads S E)
      → ((slot : ℕ) → Stays P (j.db_storage l1_gas_price_oracle_address slot))
      → (spec_id : ScrollSpecId) → Stays P (try_fetch_from_journal u j spec_id)
  unfolding try_fetch_from_journal
  try_fetch_from_journal-Stays j keeps =
      try_fetch_with-Stays (journal_storage j) (journal_storage-Stays j keeps)

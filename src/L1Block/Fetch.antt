-- ===== src/L1Block/Fetch.antt =====
-- src/l1block.rs: reading the oracle's slots. A read may change the state (a database caches what
-- it loads), so the closure `storage` passes a state on.
use dogeos_revm.Prelude.{ℕ, not, if◌then◌else◌, Option, none, some, ok}
use dogeos_revm.Action.{Action, ◌>>=◌, pure}
use dogeos_revm.Uint.{UintOps}
use dogeos_revm.Spec.{ScrollSpecId, curie, feynman, is_enabled_in}
use dogeos_revm.L1Block.{
  L1BlockInfo, empty_info, l1_gas_price_oracle_address, l1_base_fee_slot, l1_overhead_slot,
  l1_scalar_slot, l1_blob_base_fee_slot, l1_commit_scalar_slot, l1_blob_scalar_slot,
  penalty_threshold_slot, penalty_factor_slot,
}

-- `L1BlockInfo::try_fetch_with`
unfoldable pub try_fetch_with :
    {S E : Type 0} → UintOps → (ℕ → Action S E ℕ) → ScrollSpecId → Action S E L1BlockInfo
unfolding is_enabled_in
try_fetch_with u storage spec_id = do
  base_fee ← storage l1_base_fee_slot
  overhead ← storage l1_overhead_slot
  scalar ← storage l1_scalar_slot
  let before_curie = record empty_info {
    l1_base_fee = base_fee;
    l1_fee_overhead = overhead;
    l1_base_fee_scalar = scalar;
  }
  if not (is_enabled_in spec_id curie) then pure before_curie else do
    blob_base_fee ← storage l1_blob_base_fee_slot
    commit_scalar ← storage l1_commit_scalar_slot
    blob_scalar ← storage l1_blob_scalar_slot
    let before_feynman = record before_curie {
      l1_blob_base_fee = some blob_base_fee;
      l1_commit_scalar = some commit_scalar;
      l1_blob_scalar = some blob_scalar;
      calldata_gas = some (u.saturating_mul commit_scalar base_fee);
    }
    if not (is_enabled_in spec_id feynman) then pure before_feynman else do
      threshold ← storage penalty_threshold_slot
      factor ← storage penalty_factor_slot
      pure (record before_feynman {
        penalty_threshold = some threshold;
        penalty_factor = some factor;
      })

-- `L1BlockInfo::try_fetch`, over the database's `storage`.
unfoldable pub try_fetch :
    {S E : Type 0} → UintOps → (ℕ → ℕ → Action S E ℕ) → ScrollSpecId → Action S E L1BlockInfo
unfolding try_fetch_with
try_fetch u db_storage spec_id = try_fetch_with u (db_storage l1_gas_price_oracle_address) spec_id

-- What `try_fetch_from_journal` uses of revm's journal.
pub record EvmStorageSlot : Type 0 where
  pub present_value : ℕ

pub record Account : Type 0 where
  pub storage : ℕ → Option EvmStorageSlot

pub record JournalReads (S E : Type 0) : Type 0 where
  pub evm_state : S → ℕ → Option Account
  pub db_storage : ℕ → ℕ → Action S E ℕ

-- `.get(&ORACLE).and_then(|account| account.storage.get(&slot)).map(|slot| slot.present_value)`
unfoldable pub journaled : {S E : Type 0} → JournalReads S E → ℕ → S → Option ℕ
journaled j slot s = elim (j.evm_state s l1_gas_price_oracle_address) [
  | none ↦ none
  | some account ↦ elim (account.storage slot) [
    | none ↦ none
    | some entry ↦ some entry.present_value
  ]
]

-- The closure of `try_fetch_from_journal`: the journal's value, or else the database's.
unfoldable pub journal_storage : {S E : Type 0} → JournalReads S E → ℕ → Action S E ℕ
unfolding journaled
journal_storage j slot s = elim (journaled j slot s) [
  | some value ↦ (ok value, s)
  | none ↦ j.db_storage l1_gas_price_oracle_address slot s
]

-- `L1BlockInfo::try_fetch_from_journal`
unfoldable pub try_fetch_from_journal :
    {S E : Type 0} → UintOps → JournalReads S E → ScrollSpecId → Action S E L1BlockInfo
unfolding try_fetch_with journal_storage
try_fetch_from_journal u j spec_id = try_fetch_with u (journal_storage j) spec_id

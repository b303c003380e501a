-- ===== src/L1Block/Reads.antt =====
-- src/l1block.rs: which slots are read, in which order, and where the values come from.
use mathlib.Core.Option
use dogeos_revm.Prelude.{ℕ, ◌≡◌, some, List, [], ◌∷◌, arith}
use dogeos_revm.Action.{Action, ◌>>=◌, pure}
use dogeos_revm.Uint.{UintOps}
use dogeos_revm.Spec.{
  ScrollSpecId, shanghai, bernoulli, curie, darwin, euclid, feynman, galileo, tsuki, tsuki_v2,
}
use dogeos_revm.L1Block.{L1BlockInfo, empty_info}
use dogeos_revm.L1Block.Fetch.{try_fetch_with, journaled, JournalReads}
use dogeos_revm.L1Block.Inputs.{
  Formula, calldata, blob, compression_ratio, compressed_size, formula,
}

-- A plain description: read a list of slots in order, stopping at the first failure.
abbrev pub read_all : {S E : Type 0} → (ℕ → Action S E ℕ) → List ℕ → Action S E (List ℕ)
read_all storage [] = pure []
read_all storage (slot ∷ slots) =
    storage slot >>= λ v. read_all storage slots >>= λ vs. pure (v ∷ vs)

-- The slots of each formula, in the order of the code.
abbrev pub slots : Formula → List ℕ
slots calldata = 1 ∷ 2 ∷ 3 ∷ []
slots blob = 1 ∷ 2 ∷ 3 ∷ 5 ∷ 6 ∷ 7 ∷ []
slots compression_ratio = 1 ∷ 2 ∷ 3 ∷ 5 ∷ 6 ∷ 7 ∷ 9 ∷ 10 ∷ []
slots compressed_size = 1 ∷ 2 ∷ 3 ∷ 5 ∷ 6 ∷ 7 ∷ 9 ∷ 10 ∷ []

-- The record of the values that were read; a list of another length does not occur.
abbrev pub assemble : UintOps → List ℕ → L1BlockInfo
assemble u (base ∷ overhead ∷ scalar ∷ []) = record empty_info {
  l1_base_fee = base;
  l1_fee_overhead = overhead;
  l1_base_fee_scalar = scalar;
}
assemble u (base ∷ overhead ∷ scalar ∷ blob_base ∷ commit ∷ blob_scalar ∷ []) = record empty_info {
  l1_base_fee = base;
  l1_fee_overhead = overhead;
  l1_base_fee_scalar = scalar;
  l1_blob_base_fee = some blob_base;
  l1_commit_scalar = some commit;
  l1_blob_scalar = some blob_scalar;
  calldata_gas = some (u.saturating_mul commit base);
}
assemble u (base ∷ overhead ∷ scalar ∷ blob_base ∷ commit ∷ blob_scalar ∷ threshold ∷ factor ∷ []) =
    record {
      l1_base_fee = base;
      l1_fee_overhead = overhead;
      l1_base_fee_scalar = scalar;
      l1_blob_base_fee = some blob_base;
      l1_commit_scalar = some commit;
      l1_blob_scalar = some blob_scalar;
      calldata_gas = some (u.saturating_mul commit base);
      penalty_threshold = some threshold;
      penalty_factor = some factor;
    }
assemble u _ = empty_info

-- What the theorem below says of one hardfork.
abbrev ReadsSlots : {S E : Type 0} → UintOps → (ℕ → Action S E ℕ) → S → ScrollSpecId → Type 0
ReadsSlots u storage s spec =
    try_fetch_with u storage spec s
    ≡ (read_all storage (slots (formula spec)) >>= λ vs. pure (assemble u vs)) s

module _ {S E : Type 0} (u : UintOps) (storage : ℕ → Action S E ℕ) (s : S) where
  reads_calldata : ReadsSlots u storage s shanghai
  unfolding try_fetch_with
  reads_calldata = ground arith

  reads_blob : ReadsSlots u storage s curie
  unfolding try_fetch_with
  reads_blob = ground arith

  reads_penalties : ReadsSlots u storage s feynman
  unfolding try_fetch_with
  reads_penalties = ground arith

-- Fetching is reading the slots of the hardfork's formula in order and assembling the record: no
-- other slot is read, a failing read ends the fetch with its error, and the state afterwards is
-- the one that those reads leave.
pub try_fetch_with-read_all :
    {S E : Type 0} (u : UintOps) (storage : ℕ → Action S E ℕ) (s : S) (spec : ScrollSpecId)
    → try_fetch_with u storage spec s
      ≡ (read_all storage (slots (formula spec)) >>= λ vs. pure (assemble u vs)) s
unfolding try_fetch_with
try_fetch_with-read_all u storage s shanghai = reads_calldata u storage s
try_fetch_with-read_all u storage s bernoulli = reads_calldata u storage s
try_fetch_with-read_all u storage s curie = reads_blob u storage s
try_fetch_with-read_all u storage s darwin = reads_blob u storage s
try_fetch_with-read_all u storage s euclid = reads_blob u storage s
try_fetch_with-read_all u storage s feynman = reads_penalties u storage s
try_fetch_with-read_all u storage s galileo = reads_penalties u storage s
try_fetch_with-read_all u storage s tsuki = reads_penalties u storage s
try_fetch_with-read_all u storage s tsuki_v2 = reads_penalties u storage s

-- What the oracle holds as seen through the journal.
abbrev pub oracle_view : {S E : Type 0} → JournalReads S E → (ℕ → ℕ) → S → ℕ → ℕ
oracle_view j db s slot = Option.get_or (journaled j slot s) (db slot)

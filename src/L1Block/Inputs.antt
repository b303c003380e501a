-- ===== src/L1Block/Inputs.antt =====
-- src/l1block.rs: when the rollup fee can be calculated, and that the values fetched for a
-- hardfork are the ones that its formula reads.
use dogeos_revm.Prelude.{
  is_some, ℕ, ◌≡◌, Option, none, some, List, Result, ok, err, length, leb, arith, Bool, true, false,
  ◌&&◌, refl,
}
use dogeos_revm.Action.{Action}
use dogeos_revm.Uint.{UintOps}
use dogeos_revm.Spec.{
  ScrollSpecId, shanghai, bernoulli, curie, darwin, euclid, feynman, galileo, tsuki, tsuki_v2,
}
use dogeos_revm.L1Block.{L1BlockInfo, tx_l1_fee_precision}
use dogeos_revm.L1Block.Cost.{try_calculate_tx_l1_cost}
use dogeos_revm.L1Block.Fetch.{try_fetch_with}

abbrev pub is_ok : {E A : Type 0} → Result E A → Bool
is_ok (ok _) = true
is_ok (err _) = false

-- The four formulas, and the hardforks that use them.
pub data Formula : Type 0 where
  calldata blob compression_ratio compressed_size : Formula

abbrev pub formula : ScrollSpecId → Formula
formula shanghai = calldata
formula bernoulli = calldata
formula curie = blob
formula darwin = blob
formula euclid = blob
formula feynman = compression_ratio
formula galileo = compressed_size
formula tsuki = compressed_size
formula tsuki_v2 = compressed_size

-- The oracle values that are read.
abbrev pub has_oracle_values : Formula → L1BlockInfo → Bool
has_oracle_values calldata info = true
has_oracle_values blob info =
    is_some info.l1_blob_base_fee && is_some info.l1_blob_scalar && is_some info.calldata_gas
has_oracle_values compression_ratio info =
    is_some info.l1_commit_scalar
    && is_some info.l1_blob_scalar
    && is_some info.l1_blob_base_fee
    && is_some info.penalty_threshold
    && is_some info.penalty_factor
has_oracle_values compressed_size info =
    is_some info.l1_commit_scalar
    && is_some info.l1_blob_scalar
    && is_some info.l1_blob_base_fee
    && is_some info.penalty_factor

abbrev at_least : ℕ → Option ℕ → Bool
at_least bound none = false
at_least bound (some n) = leb bound n

abbrev at_most : ℕ → Option ℕ → Bool
at_most bound none = false
at_most bound (some n) = leb n bound

-- What the transaction has to bring along.
abbrev pub has_tx_inputs : Formula → List ℕ → Option ℕ → Option ℕ → Bool
has_tx_inputs calldata input ratio size = true
has_tx_inputs blob input ratio size = true
has_tx_inputs compression_ratio input ratio size = at_least tx_l1_fee_precision ratio
has_tx_inputs compressed_size input ratio size = at_most (length input) size

-- The fee is calculated exactly when the formula of the hardfork finds its inputs: always before
-- Curie; with the three blob values set from Curie; from Feynman with a compression ratio of at
-- least one and the five values; from Galileo with a compressed size of at most the transaction's
-- and the four values. Otherwise the call is an error.
pub is_ok-try_calculate_tx_l1_cost :
    (u : UintOps) (info : L1BlockInfo) (input : List ℕ) (ratio size : Option ℕ)
    (spec : ScrollSpecId)
    → is_ok (try_calculate_tx_l1_cost u info input spec ratio size)
      ≡ (has_tx_inputs (formula spec) input ratio size && has_oracle_values (formula spec) info)
unfolding try_calculate_tx_l1_cost
is_ok-try_calculate_tx_l1_cost u info input ratio size shanghai = refl
is_ok-try_calculate_tx_l1_cost u info input ratio size _ = ground arith

-- What `try_fetch_with` reads for a hardfork is all that the hardfork's formula needs.
fetched_values :
    {S E : Type 0} (u : UintOps) (storage : ℕ → Action S E ℕ) (s : S) (info : L1BlockInfo) (s' : S)
    (spec : ScrollSpecId)
    → try_fetch_with u storage spec s ≡ (ok info, s')
    → has_oracle_values (formula spec) info ≡ true
unfolding try_fetch_with
fetched_values u storage s info s' shanghai h = refl
fetched_values u storage s info s' _ h = ground arith

-- With the values that a fetch for the hardfork has returned, whether the fee is calculated depends
-- on the transaction alone: always before Feynman, under Feynman with a compression ratio of at
-- least one, and from Galileo with a compressed size of at most the transaction's. A missing oracle
-- value is never the reason of a failure.
pub fetched_fee_depends_on_tx :
    {S E : Type 0} (u : UintOps) (storage : ℕ → Action S E ℕ) (s : S) (info : L1BlockInfo) (s' : S)
    (spec : ScrollSpecId) (input : List ℕ) (ratio size : Option ℕ)
    → try_fetch_with u storage spec s ≡ (ok info, s')
    → is_ok (try_calculate_tx_l1_cost u info input spec ratio size)
      ≡ has_tx_inputs (formula spec) input ratio size
fetched_fee_depends_on_tx u storage s info s' spec input ratio size h = ground (
  arith,
  is_ok-try_calculate_tx_l1_cost u info input ratio size spec,
  fetched_values u storage s info s' spec h,
)

-- ===== src/Precompile/Sets.antt =====
-- src/precompile/mod.rs: the precompile set of each hardfork and the provider that holds it. The
-- tables are revm's and alloy-evm's maps, taken as an interface.
use dogeos_revm.Prelude.{
  ℕ, ◌≡◌, Bool, true, false, List, [], ◌∷◌, Option, none, some, ◌==◌, if◌then◌else◌,
}
use dogeos_revm.Spec.{
  ScrollSpecId, shanghai, bernoulli, curie, darwin, euclid, feynman, galileo, tsuki, tsuki_v2,
  discriminant,
}
use dogeos_revm.Precompile.{
  Precompile, PrecompileId, RevmPrecompiles, transfer_address, transfer_id,
}
use dogeos_revm.Precompile.Wrapped.{
  sha256_shanghai, ripemd160_shanghai, blake2_shanghai, sha256_bernoulli, ripemd160_tsuki,
  pair_bernoulli, pair_feynman, modexp_bernoulli, modexp_galileo,
}
pub mod Activation
pub mod Provider
pub mod Matrix
pub mod Plan

-- An entry of a `PrecompilesMap`: a plain precompile, or a stateful one by its id.
pub data Entry : Type 0 where
  plain : Precompile → Entry
  dynamic : PrecompileId → Entry

-- `Precompiles` is a map by address, and `extend` replaces what stands at an address. A
-- `PrecompilesMap` starts from such a map and takes further entries by address. `run`,
-- `warm_addresses` and `contains` are its own.
pub record PrecompileTables : Type 1 where
  pub Precompiles : Type 0
  pub default : Precompiles
  pub extend : Precompiles → List Precompile → Precompiles
  pub get : Precompiles → ℕ → Option Precompile
  pub PrecompilesMap : Type 0
  pub from_static : Precompiles → PrecompilesMap
  pub with_extended_precompiles : PrecompilesMap → List (ℕ × Entry) → PrecompilesMap
  pub find : PrecompilesMap → ℕ → Option Entry
  pub get-default : (a : ℕ) → get default a ≡ none
  pub get-extend_nil : (m : Precompiles) (a : ℕ) → get (extend m []) a ≡ get m a
  pub get-extend_one :
      (m : Precompiles) (p : Precompile) (a : ℕ)
      → get (extend m (p ∷ [])) a ≡ (if p.address == a then some p else get m a)
  pub get-extend_more :
      (m : Precompiles) (p q : Precompile) (ps : List Precompile) (a : ℕ)
      → get (extend m (p ∷ q ∷ ps)) a ≡ get (extend (extend m (p ∷ [])) (q ∷ ps)) a
  pub find-from_static :
      (m : Precompiles) (a : ℕ)
      → find (from_static m) a ≡ elim (get m a) [ none ↦ none | some p ↦ some (plain p) ]
  pub find-with_extended_one :
      (m : PrecompilesMap) (at : ℕ) (e : Entry) (a : ℕ)
      → find (with_extended_precompiles m ((at, e) ∷ [])) a ≡ (if at == a then some e else find m a)

module _ (t : PrecompileTables) (revm : RevmPrecompiles) where
  open t use {Precompiles, PrecompilesMap, extend, from_static}

  unfoldable pub pre_bernoulli_set : Precompiles
  pre_bernoulli_set = extend t.default (
      revm.ecrecover
      ∷ sha256_shanghai
      ∷ ripemd160_shanghai
      ∷ revm.identity_fun
      ∷ modexp_bernoulli revm
      ∷ revm.bn254_add_istanbul
      ∷ revm.bn254_mul_istanbul
      ∷ pair_bernoulli revm
      ∷ blake2_shanghai
      ∷ [])

  unfoldable pub bernoulli_set : Precompiles
  unfolding pre_bernoulli_set
  bernoulli_set = extend pre_bernoulli_set (sha256_bernoulli revm ∷ [])

  unfoldable pub euclid_set : Precompiles
  unfolding bernoulli_set
  euclid_set = extend bernoulli_set (revm.p256verify ∷ [])

  unfoldable pub feynman_set : Precompiles
  unfolding euclid_set
  feynman_set = extend euclid_set (pair_feynman revm ∷ [])

  unfoldable pub galileo_set : Precompiles
  unfolding feynman_set
  galileo_set = extend feynman_set (modexp_galileo revm ∷ revm.p256verify_osaka ∷ [])

  unfoldable pub tsuki_static : Precompiles
  unfolding galileo_set
  tsuki_static = extend galileo_set (ripemd160_tsuki revm ∷ [])

  unfoldable pub tsuki_extensions : List (ℕ × Entry)
  tsuki_extensions = (transfer_address, dynamic transfer_id) ∷ []

  unfoldable pub tsuki_set : PrecompilesMap
  unfolding tsuki_static tsuki_extensions
  tsuki_set = t.with_extended_precompiles (from_static tsuki_static) tsuki_extensions

  -- the `match` of `ScrollPrecompileProvider::new_with_spec`
  unfoldable pub inner_for_spec : ScrollSpecId → PrecompilesMap
  unfolding pre_bernoulli_set bernoulli_set euclid_set feynman_set galileo_set tsuki_set
  inner_for_spec shanghai = from_static pre_bernoulli_set
  inner_for_spec bernoulli = from_static bernoulli_set
  inner_for_spec curie = from_static bernoulli_set
  inner_for_spec darwin = from_static bernoulli_set
  inner_for_spec euclid = from_static euclid_set
  inner_for_spec feynman = from_static feynman_set
  inner_for_spec galileo = from_static galileo_set
  inner_for_spec tsuki = tsuki_set
  inner_for_spec tsuki_v2 = tsuki_set

  pub record ScrollPrecompileProvider : Type 0 where
    pub inner : PrecompilesMap
    pub spec : ScrollSpecId

  -- `ScrollPrecompileProvider::new_with_spec`
  unfoldable pub new_with_spec : ScrollSpecId → ScrollPrecompileProvider
  unfolding inner_for_spec
  new_with_spec spec = record { inner = inner_for_spec spec; spec = spec }

  -- `PrecompileProvider::set_spec`: the provider afterwards, and whether it changed.
  unfoldable pub set_spec :
      ScrollSpecId → ScrollPrecompileProvider → ScrollPrecompileProvider × Bool
  unfolding new_with_spec
  set_spec spec self =
      if discriminant spec == discriminant self.spec
      then (self, false)
      else (new_with_spec spec, true)

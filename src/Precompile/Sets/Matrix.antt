-- ===== src/Precompile/Sets/Matrix.antt =====
-- src/precompile/mod.rs, its module `tests`: the activation matrix that the repository's tests
-- check each hardfork against, address by address, here compared with the provider at every
-- address.
use dogeos_revm.Prelude.{
  ℕ, ◌≡◌, Bool, true, false, not, ◌&&◌, ◌||◌, List, [], ◌∷◌, ◌++◌, map, Option, none, some, ◌==◌,
  if◌then◌else◌, arith,
}
use dogeos_revm.Spec.{
  ScrollSpecId, shanghai, bernoulli, curie, darwin, euclid, feynman, galileo, tsuki, tsuki_v2,
  is_enabled_in,
}
use dogeos_revm.Precompile.{
  Precompile, PrecompileId, RevmPrecompiles, ec_rec, sha256, ripemd160, identity, mod_exp,
  bn254_add, bn254_mul, bn254_pairing, blake2f, p256_verify, transfer_id, ecrecover_address,
  sha256_address, ripemd160_address, identity_address, modexp_address, bn254_add_address,
  bn254_mul_address, bn254_pairing_address, blake2f_address, p256verify_address, transfer_address,
}
use dogeos_revm.Precompile.Sets.{
  Entry, plain, dynamic, PrecompileTables, pre_bernoulli_set, bernoulli_set, euclid_set,
  feynman_set, galileo_set, tsuki_static, tsuki_extensions, inner_for_spec,
}
pub mod Expected

abbrev pub elem : ℕ → List ℕ → Bool
elem a [] = false
elem a (x ∷ xs) = (x == a) || elem a xs

-- `precompile_id` of an entry
abbrev pub entry_id : Entry → PrecompileId
entry_id (plain p) = p.id
entry_id (dynamic id) = id

-- `ALL_ADDRESSES`
abbrev pub all_addresses : List ℕ
all_addresses =
    ecrecover_address ∷ sha256_address ∷ ripemd160_address ∷ identity_address ∷ modexp_address
    ∷ bn254_add_address ∷ bn254_mul_address ∷ bn254_pairing_address ∷ blake2f_address
    ∷ p256verify_address ∷ transfer_address ∷ []

-- `expected_precompile_addresses`
unfoldable pub expected_precompile_addresses : ScrollSpecId → List ℕ
unfolding is_enabled_in
expected_precompile_addresses spec =
    (ecrecover_address ∷ sha256_address ∷ ripemd160_address ∷ identity_address ∷ modexp_address
      ∷ bn254_add_address ∷ bn254_mul_address ∷ bn254_pairing_address ∷ blake2f_address ∷ [])
    ++ (if is_enabled_in spec euclid then p256verify_address ∷ [] else [])
    ++ (if is_enabled_in spec tsuki then transfer_address ∷ [] else [])

-- `expected_precompile_id`; `none` is its panic.
unfoldable pub expected_precompile_id : ℕ → Option PrecompileId
expected_precompile_id address =
    if address == ecrecover_address
    then some ec_rec
    else if address == sha256_address
    then some sha256
    else if address == ripemd160_address
    then some ripemd160
    else if address == identity_address
    then some identity
    else if address == modexp_address
    then some mod_exp
    else if address == bn254_add_address
    then some bn254_add
    else if address == bn254_mul_address
    then some bn254_mul
    else if address == bn254_pairing_address
    then some bn254_pairing
    else if address == blake2f_address
    then some blake2f
    else if address == p256verify_address
    then some p256_verify
    else if address == transfer_address
    then some transfer_id
    else none

-- `expected_zero_input_gas`
unfoldable pub expected_zero_input_gas : ScrollSpecId → ℕ → Option ℕ
unfolding is_enabled_in
expected_zero_input_gas spec address =
    if address == ecrecover_address
    then some 3_000
    else if (address == sha256_address) && is_enabled_in spec bernoulli
    then some 60
    else if (address == ripemd160_address) && is_enabled_in spec tsuki
    then some 600
    else if address == identity_address
    then some 15
    else if (address == modexp_address) && is_enabled_in spec galileo
    then some 500
    else if address == modexp_address
    then some 200
    else if address == bn254_add_address
    then some 150
    else if address == bn254_mul_address
    then some 6_000
    else if address == bn254_pairing_address
    then some 45_000
    else if (address == p256verify_address) && is_enabled_in spec galileo
    then some 6_900
    else if address == p256verify_address
    then some 3_450
    else none

-- `expected_not_implemented`
unfoldable pub expected_not_implemented : ScrollSpecId → ℕ → Bool
unfolding is_enabled_in
expected_not_implemented spec address =
    ((address == sha256_address) && not (is_enabled_in spec bernoulli))
    || ((address == ripemd160_address) && not (is_enabled_in spec tsuki))
    || (address == blake2f_address)

module _ (t : PrecompileTables) (revm : RevmPrecompiles) where
  -- `static_precompiles_for_spec`
  unfoldable pub static_precompiles_for_spec : ScrollSpecId → t.Precompiles
  unfolding pre_bernoulli_set bernoulli_set euclid_set feynman_set galileo_set tsuki_static
  static_precompiles_for_spec shanghai = pre_bernoulli_set t revm
  static_precompiles_for_spec bernoulli = bernoulli_set t revm
  static_precompiles_for_spec curie = bernoulli_set t revm
  static_precompiles_for_spec darwin = bernoulli_set t revm
  static_precompiles_for_spec euclid = euclid_set t revm
  static_precompiles_for_spec feynman = feynman_set t revm
  static_precompiles_for_spec galileo = galileo_set t revm
  static_precompiles_for_spec tsuki = tsuki_static t revm
  static_precompiles_for_spec tsuki_v2 = tsuki_static t revm

  -- `extension_addresses`
  unfoldable pub extension_addresses : ScrollSpecId → List ℕ
  unfolding is_enabled_in tsuki_extensions
  extension_addresses spec =
      if is_enabled_in spec tsuki then map (λ x. x.0) (tsuki_extensions t revm) else []

-- ===== src/Precompile/Sets/Matrix/Expected.antt =====
-- src/precompile/mod.rs: the provider of every hardfork against the matrix of the tests, at every
-- address and not only at the ones the tests visit.
use mathlib.Core.Option
use dogeos_revm.Prelude.{ℕ, ◌≡◌, true, none, some, if◌then◌else◌, arith}
use dogeos_revm.Spec.{
  ScrollSpecId, shanghai, bernoulli, curie, darwin, euclid, feynman, galileo, tsuki, tsuki_v2,
  is_enabled_in,
}
use dogeos_revm.Precompile.{RevmPrecompiles, transfer_id}
use dogeos_revm.Precompile.Wrapped.{
  precompile_not_implemented, sha256_bernoulli, ripemd160_tsuki, modexp_bernoulli, modexp_galileo,
  pair_bernoulli, pair_feynman,
}
use dogeos_revm.Precompile.Sets.{plain, dynamic, PrecompileTables, inner_for_spec, tsuki_extensions}
use dogeos_revm.Precompile.Sets.Activation.{
  planned_static, find-inner_for_spec, get-pre_bernoulli_set, get-bernoulli_set, get-euclid_set,
  get-feynman_set, get-galileo_set, get-tsuki_static,
}
use dogeos_revm.Precompile.Sets.Matrix.{
  elem, entry_id, expected_precompile_addresses, expected_precompile_id, expected_not_implemented,
  extension_addresses, static_precompiles_for_spec,
}

module _ (t : PrecompileTables) (revm : RevmPrecompiles) where
  -- At every address and under every hardfork: a precompile is installed exactly when the tests'
  -- matrix lists the address for the hardfork, and it has the id that the matrix gives the
  -- address.
  pub installed-expected :
      (spec : ScrollSpecId) (a : ℕ)
      → Option.map entry_id (t.find (inner_for_spec t revm spec) a)
        ≡ (if elem a (expected_precompile_addresses spec) then expected_precompile_id a else none)
  unfolding expected_precompile_addresses expected_precompile_id is_enabled_in sha256_bernoulli
      ripemd160_tsuki modexp_bernoulli modexp_galileo pair_bernoulli pair_feynman
      precompile_not_implemented
  installed-expected spec a = ground (
    arith,
    find-inner_for_spec t revm spec a,
    revm.ecrecover_at,
    revm.identity_at,
    revm.bn254_add_at,
    revm.bn254_mul_at,
    revm.bn254_pair_at,
    revm.p256verify_at,
    revm.p256verify_osaka_at,
  )

  -- Where the tests' matrix expects a disabled precompile, the provider holds the placeholder that
  -- refuses every input, under the id that the matrix gives the address.
  pub refused-expected :
      (spec : ScrollSpecId) (a : ℕ)
      → expected_not_implemented spec a ≡ true
      → t.find (inner_for_spec t revm spec) a
        ≡ Option.map (λ id. plain (precompile_not_implemented id a)) (expected_precompile_id a)
  unfolding expected_not_implemented expected_precompile_id is_enabled_in precompile_not_implemented
  refused-expected spec a refused = ground (arith, find-inner_for_spec t revm spec a)

  pub get-static_precompiles :
      (spec : ScrollSpecId) (a : ℕ)
      → t.get (static_precompiles_for_spec t revm spec) a ≡ planned_static t revm spec a
  unfolding static_precompiles_for_spec is_enabled_in
  get-static_precompiles shanghai a = get-pre_bernoulli_set t revm a
  get-static_precompiles bernoulli a = get-bernoulli_set t revm a
  get-static_precompiles curie a = get-bernoulli_set t revm a
  get-static_precompiles darwin a = get-bernoulli_set t revm a
  get-static_precompiles euclid a = get-euclid_set t revm a
  get-static_precompiles feynman a = get-feynman_set t revm a
  get-static_precompiles galileo a = get-galileo_set t revm a
  get-static_precompiles tsuki a = get-tsuki_static t revm a
  get-static_precompiles tsuki_v2 a = get-tsuki_static t revm a

  -- The provider of every hardfork is its static set with the extensions beside it: at an
  -- extension's address stands the native transfer and the static set holds nothing, so that
  -- nothing is shadowed, and at every other address stands what the static set holds.
  pub extensions_beside_static :
      (spec : ScrollSpecId) (a : ℕ)
      → if elem a (extension_addresses t revm spec)
        then (t.get (static_precompiles_for_spec t revm spec) a ≡ none)
          × (t.find (inner_for_spec t revm spec) a ≡ some (dynamic transfer_id))
        else t.find (inner_for_spec t revm spec) a
          ≡ Option.map plain (t.get (static_precompiles_for_spec t revm spec) a)
  unfolding extension_addresses tsuki_extensions is_enabled_in
  extensions_beside_static spec a =
      ground (arith, find-inner_for_spec t revm spec a, get-static_precompiles spec a)

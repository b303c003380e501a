-- ===== src/Precompile/Sets/Plan/Shadow.antt =====
-- src/precompile/mod.rs, its module `tests`: the addresses of the precompiles are distinct, and the
-- stateful precompiles stand beside the plain ones.
use mathlib.Core.Option
use dogeos_revm.Prelude.{
  ℕ, ◌≡◌, ◌≢◌, is_some, ForSome, refl, Bool, true, not, ◌&&◌, List, [], ◌∷◌, Option, none, some,
  ◌==◌, if◌then◌else◌, arith, ap, Bool-cases, Option-cases, inl, inr,
}
use dogeos_revm.Spec.{ScrollSpecId, is_enabled_in, tsuki, tsuki_v2}
use dogeos_revm.Precompile.{
  PrecompileId, ec_rec, sha256, ripemd160, identity, mod_exp, bn254_add, bn254_mul, bn254_pairing,
  blake2f, p256_verify, custom, Precompile, RevmPrecompiles,
}
use dogeos_revm.Precompile.Sets.{PrecompileTables, inner_for_spec, tsuki_extensions}
use dogeos_revm.Precompile.Sets.Matrix.{
  elem, entry_id, all_addresses, expected_precompile_addresses, expected_precompile_id,
  expected_zero_input_gas, extension_addresses, static_precompiles_for_spec,
}
use dogeos_revm.Precompile.Sets.Matrix.Expected.{installed-expected, extensions_beside_static}
use dogeos_revm.Precompile.Sets.Plan.{found}

-- `precompile_addresses_are_distinct`
abbrev pub distinct : List ℕ → Bool
distinct [] = true
distinct (a ∷ rest) = not (elem a rest) && distinct rest

distinct-all_addresses : distinct all_addresses ≡ true
distinct-all_addresses = refl

-- Where the tests put a precompile of an id.
abbrev address_of : PrecompileId → ℕ
address_of ec_rec = 1
address_of sha256 = 2
address_of ripemd160 = 3
address_of identity = 4
address_of mod_exp = 5
address_of bn254_add = 6
address_of bn254_mul = 7
address_of bn254_pairing = 8
address_of blake2f = 9
address_of p256_verify = 256
address_of (custom _) = 253

address_of-expected :
    (a : ℕ) (id : PrecompileId) → expected_precompile_id a ≡ some id → address_of id ≡ a
unfolding expected_precompile_id
address_of-expected a id h = ground arith

module _ (t : PrecompileTables) (revm : RevmPrecompiles) where
  abbrev pub static_at : ScrollSpecId → ℕ → Option Precompile
  static_at spec = t.get (static_precompiles_for_spec t revm spec)

  -- `dynamic_precompiles_do_not_shadow_static_ones`, for one hardfork and every address. The
  -- installed ids are compared by pairs of addresses.
  pub record ShadowsNothing (spec : ScrollSpecId) : Type 0 where
    pub apart :
        (a : ℕ)
        → if elem a (extension_addresses t revm spec) then static_at spec a ≡ none else Unit {0}
    pub static_installed :
        (a : ℕ)
        → ForSome (λ p. Option.map entry_id (found t revm spec a) ≡ some p.id) (static_at spec a)
    pub added :
        (a : ℕ)
        → (is_some (found t revm spec a) && not (is_some (static_at spec a)))
          ≡ elem a (extension_addresses t revm spec)
    pub known : (a : ℕ) → ForSome (λ e. elem a all_addresses ≡ true) (found t revm spec a)
    pub ids_differ :
        (a b : ℕ)
        → ForSome
            (λ e.
              if a == b
              then Unit {0}
              else Option.map entry_id (found t revm spec b) ≢ some (entry_id e))
            (found t revm spec a)

  -- `tsuki_v2_precompiles_match_tsuki`
  pub record MatchesTsuki : Type 0 where
    pub addresses : (a : ℕ) → is_some (found t revm tsuki_v2 a) ≡ is_some (found t revm tsuki a)
    pub ids :
        (a : ℕ)
        → Option.map entry_id (found t revm tsuki_v2 a) ≡ Option.map entry_id (found t revm tsuki a)
    pub zero_input_gas :
        (a : ℕ) → expected_zero_input_gas tsuki_v2 a ≡ expected_zero_input_gas tsuki a

  static_is_installed :
      (spec : ScrollSpecId) (a : ℕ)
      → ForSome (λ p. Option.map entry_id (found t revm spec a) ≡ some p.id) (static_at spec a)
  unfolding extension_addresses tsuki_extensions
  static_is_installed spec a = ground (arith, extensions_beside_static t revm spec a)

  added_extensions :
      (spec : ScrollSpecId) (a : ℕ)
      → (is_some (found t revm spec a) && not (is_some (static_at spec a)))
        ≡ elem a (extension_addresses t revm spec)
  added_extensions spec a = ground (arith, extensions_beside_static t revm spec a)

  installed_known :
      (spec : ScrollSpecId) (a : ℕ)
      → ForSome (λ e. elem a all_addresses ≡ true) (found t revm spec a)
  unfolding expected_precompile_addresses
  installed_known spec a = ground (arith, installed-expected t revm spec a)

  id_located :
      (spec : ScrollSpecId) (a : ℕ) (id : PrecompileId)
      → Option.map entry_id (found t revm spec a) ≡ some id
      → address_of id ≡ a
  id_located spec a id at =
      ground (arith, installed-expected t revm spec a, address_of-expected a id)

  ids_apart :
      (spec : ScrollSpecId) (a b : ℕ)
      → ForSome
          (λ e.
            if a == b
            then Unit {0}
            else Option.map entry_id (found t revm spec b) ≢ some (entry_id e))
          (found t revm spec a)
  ids_apart spec a b = elim (Option-cases (found t revm spec a)) [
    | inl absent ↦ rw absent tt
    | inr (e, here) ↦ rw here (elim (Bool-cases (a == b)) [
      | inl same ↦ rw same tt
      | inr apart ↦ rw apart (λ there. ground (
        arith,
        id_located spec b (entry_id e) there,
        id_located spec a (entry_id e) (ap (Option.map entry_id) here),
      ))
    ])
  ]

  -- Under every hardfork the stateful precompiles shadow no plain one: their addresses are free in
  -- the plain set, every plain precompile is still installed with its id, nothing but the stateful
  -- ones is added, only the known addresses are used, and no two of them have the same id.
  pub inner_for_spec-ShadowsNothing : (spec : ScrollSpecId) → ShadowsNothing spec
  inner_for_spec-ShadowsNothing spec = record {
    apart = λ a. ground (arith, extensions_beside_static t revm spec a);
    static_installed = static_is_installed spec;
    added = added_extensions spec;
    known = installed_known spec;
    ids_differ = ids_apart spec;
  }

  -- TsukiV2 has Tsuki's precompiles.
  inner_for_spec-MatchesTsuki : MatchesTsuki
  unfolding inner_for_spec expected_zero_input_gas is_enabled_in
  inner_for_spec-MatchesTsuki = record {
    addresses = λ a. refl;
    ids = λ a. refl;
    zero_input_gas = λ a. refl;
  }

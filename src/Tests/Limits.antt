-- ===== src/Tests/Limits.antt =====
-- The inputs of the tests of src/precompile/modexp.rs, over functions with the documented costs
-- that compute EIP-198's power.
use dogeos_revm.Prelude.{
  bit_length, ℕ, ◌≡◌, List, [], ◌∷◌, ◌++◌, replicate, be_bytes, if◌then◌else◌, err, refl, map,
}
use dogeos_revm.Precompile.{other, RevmPrecompiles}
use dogeos_revm.Precompile.Wrapped.Modexp.{field, lengths_within, modexp_bytes, LimitLifted}
use dogeos_revm.Precompile.Wrapped.Modexp.Costs.{berlin_cost, osaka_cost}
use dogeos_revm.Precompile.Wrapped.Modexp.Upgrade.{ModexpLaws, priced_power, modexp_upgrade}
use dogeos_revm.Tests.Precompiles.{revm}

abbrev lengths : ℕ → ℕ → ℕ → List ℕ
lengths base exponent modulus = be_bytes 32 base ++ be_bytes 32 exponent ++ be_bytes 32 modulus

-- The input of `test_galileo_modexp_backward_compatibility`: the fifth power of 3 modulo 7.
abbrev compatible_input : List ℕ
compatible_input = lengths 1 1 1 ++ (0x03 ∷ 0x05 ∷ 0x07 ∷ [])

compatible_power : modexp_bytes compatible_input ≡ 5 ∷ []
unfolding modexp_bytes field
compatible_power = refl

-- The input of `test_galileo_modexp_with_32_byte_limit`, with a base of 33 bytes.
abbrev long_input : List ℕ
long_input = lengths 33 1 1 ++ replicate 33 0x03 ++ (0x05 ∷ 0x07 ∷ [])

long_power : modexp_bytes long_input ≡ 0 ∷ []
unfolding modexp_bytes field
long_power = refl

-- The cases of `test_galileo_modexp_preserves_feynman_behavior`, with their results.
abbrev preserved_cases : List (List ℕ × List ℕ)
preserved_cases =
    ((lengths 1 1 1 ++ (0x02 ∷ 0x03 ∷ 0x05 ∷ []), 3 ∷ []))
    ∷ ((lengths 1 1 1 ++ (0x05 ∷ 0x00 ∷ 0x0d ∷ []), 1 ∷ []))
    ∷ []

preserved_powers : map (λ c. modexp_bytes c.0) preserved_cases ≡ map (λ c. c.1) preserved_cases
unfolding modexp_bytes field
preserved_powers = refl

-- EIP-198's power at the costs of the two EIPs, and EIP-7823's limit on the later function.
abbrev power_revm : RevmPrecompiles
power_revm = record revm {
  modexp_run_inner_berlin = λ osaka input gas min_gas. priced_power (berlin_cost input) input gas;
  modexp_osaka_run = λ input gas.
      if lengths_within 1_024 input
      then priced_power (osaka_cost input) input gas
      else err (other "ModexpEip7823LimitSize");
  padded_word = λ input offset. field input offset 32;
}

power_laws : ModexpLaws power_revm
power_laws = record {
  padded = λ input offset. refl;
  berlin_runs = λ input gas fits. refl;
  osaka_runs = λ input gas fits. rw fits refl;
  osaka_refuses = λ input gas over. (other "ModexpEip7823LimitSize", rw over refl);
}

-- An exponent of 32 bytes, all ones, costs 1360 before Galileo and 4080 from Galileo.
abbrev dear_input : List ℕ
dear_input = lengths 32 32 32 ++ replicate 96 0xff

dear_costs : (berlin_cost dear_input ≡ 1_360) × (osaka_cost dear_input ≡ 4_080)
unfolding berlin_cost osaka_cost bit_length
dear_costs = (refl, refl)

-- A base of 33 bytes at the gas of the test.
modexp_upgrade_example : LimitLifted power_revm "ModexpBaseOverflow" long_input (0 ∷ []) 100_000
unfolding field modexp_bytes osaka_cost bit_length
modexp_upgrade_example = modexp_upgrade power_revm power_laws long_input 100_000

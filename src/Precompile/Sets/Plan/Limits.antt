-- ===== src/Precompile/Sets/Plan/Limits.antt =====
-- src/precompile/mod.rs, its module `tests`: RIPEMD-160 from Tsuki, and the pairing from Feynman.
use dogeos_revm.Prelude.{
  ℕ, ◌+◌, ◌*◌, ◌/◌, ◌≤◌, ◌<◌, ◌≡◌, true, false, Option, String, List, [], replicate, length, some,
  ok, err, refl, arith,
}
use dogeos_revm.L1Block.{u64_max}
use dogeos_revm.Spec.{is_enabled_in, tsuki}
use dogeos_revm.Precompile.{
  mentions, PrecompileError, other, PrecompileOutput, PrecompileFn, Precompile, RevmPrecompiles,
  ripemd160_address, bn254_pairing_address,
}
use dogeos_revm.Precompile.Wrapped.{
  tsuki_len_limit, ripemd160_tsuki, ripemd160_tsuki_run, pair_bernoulli, pair_bernoulli_run,
  pair_feynman, precompile_not_implemented,
}
use dogeos_revm.Precompile.Sets.{PrecompileTables, euclid_set, feynman_set, galileo_set}
use dogeos_revm.Precompile.Sets.Activation.{
  find-inner_for_spec, get-euclid_set, get-feynman_set, get-galileo_set,
}
use dogeos_revm.Precompile.Sets.Plan.{AtStatic, RefusesAsPlaceholder}

-- revm's RIPEMD-160: 600 gas, and 120 for every word that the input starts.
abbrev pub ripemd160_cost : List ℕ → ℕ
ripemd160_cost input = 600 + 120 * ((length input + 31) / 32)

pub record RipemdLaws (revm : RevmPrecompiles) (digest : List ℕ → List ℕ) : Type 0 where
  pub runs :
      (input : List ℕ) (gas : ℕ)
      → ripemd160_cost input ≤ gas
      → revm.ripemd160_run input gas
        ≡ ok (record { gas_used = ripemd160_cost input; bytes = digest input; reverted = false })

-- revm's pairing at Istanbul prices is its `run_pair`, and computes `paired`.
pub record PairingLaws (revm : RevmPrecompiles) (paired : List ℕ → Option (List ℕ)) : Type 0 where
  pub runs :
      (input bytes : List ℕ) (gas : ℕ)
      → paired input ≡ some bytes
      → revm.istanbul_pair_base
          + revm.istanbul_pair_per_point * (length input / revm.pair_element_len)
        ≤ gas
      → (output : PrecompileOutput) × (revm.bn254_pair_istanbul.run input gas ≡ ok output)
        × (output.bytes ≡ bytes)

module _ (t : PrecompileTables) (revm : RevmPrecompiles) where
  -- An assertion on the function that a set has at an address.
  abbrev pub AtSet : t.Precompiles → ℕ → (PrecompileFn → Type 0) → Type 0
  AtSet set a Asserted = (p : Precompile) × (t.get set a ≡ some p) × Asserted p.run

  -- `test_ripemd160_enabled_only_from_tsuki`, `test_tsuki_ripemd160_accepts_32_byte_input` and
  -- `test_tsuki_ripemd160_rejects_33_byte_input`, where the digest is revm's.
  pub record RipemdFromTsuki (digest : List ℕ → List ℕ) : Type 0 where
    pub disabled_before : AtSet (galileo_set t revm) ripemd160_address RefusesAsPlaceholder
    pub enabled :
        AtStatic t revm
          (λ run.
            (output : PrecompileOutput) × (run [] u64_max ≡ ok output) × (output.bytes ≡ digest []))
          tsuki
          ripemd160_address
    pub accepts_32_bytes :
        AtStatic t revm
          (λ run.
            (output : PrecompileOutput) × (run (replicate tsuki_len_limit 0xff) u64_max
              ≡ ok output))
          tsuki
          ripemd160_address
    pub rejects_33_bytes :
        AtStatic t revm
          (λ run.
            (msg : String) × (run (replicate (tsuki_len_limit + 1) 0xff) u64_max ≡ err (other msg))
            × (mentions "Ripemd160InputOverflow" msg ≡ true))
          tsuki
          ripemd160_address

  -- `test_bn128_large_input`, for any input of more than four pairs and its result.
  pub record PairingFromFeynman (input expected : List ℕ) : Type 0 where
    pub euclid_refuses :
        AtSet
          (euclid_set t revm)
          bn254_pairing_address
          (λ run. (e : PrecompileError) × (run input u64_max ≡ err e))
    pub feynman_accepts : AtSet (feynman_set t revm) bn254_pairing_address (λ run.
        (output : PrecompileOutput) × (run input u64_max ≡ ok output) × (output.bytes ≡ expected))

  ripemd160-RipemdFromTsuki :
      (digest : List ℕ → List ℕ) → RipemdLaws revm digest → RipemdFromTsuki digest
  unfolding RefusesAsPlaceholder ripemd160_tsuki ripemd160_tsuki_run precompile_not_implemented
      is_enabled_in
  ripemd160-RipemdFromTsuki digest laws = record {
    disabled_before =
        (_, get-galileo_set t revm 3, ("NotImplemented: Precompile not implemented", refl, refl));
    enabled =
        (_, find-inner_for_spec t revm tsuki 3, (_, laws.runs [] u64_max (omega arith), refl));
    accepts_32_bytes = (
      _,
      find-inner_for_spec t revm tsuki 3,
      (_, laws.runs (replicate 32 0xff) u64_max (omega arith)),
    );
    rejects_33_bytes = (
      _,
      find-inner_for_spec t revm tsuki 3,
      ("Ripemd160InputOverflow: ripemd160 input overflow", refl, refl),
    );
  }

  pairing-PairingFromFeynman :
      (paired : List ℕ → Option (List ℕ))
      → PairingLaws revm paired
      → (input expected : List ℕ) → paired input ≡ some expected
      → 4 * revm.pair_element_len < length input
      → revm.istanbul_pair_base
          + revm.istanbul_pair_per_point * (length input / revm.pair_element_len)
        ≤ u64_max
      → PairingFromFeynman input expected
  unfolding pair_bernoulli pair_bernoulli_run pair_feynman is_enabled_in
  pairing-PairingFromFeynman paired laws input expected result long enough = record {
    euclid_refuses = (
      _,
      get-euclid_set t revm 8,
      (other "BN128PairingInputOverflow: input overflow", ground arith),
    );
    feynman_accepts = (_, get-feynman_set t revm 8, laws.runs input expected u64_max result enough);
  }

-- ===== src/Precompile/Wrapped/Modexp/Upgrade.antt =====
-- src/precompile/modexp.rs: what Galileo's modexp changes, for every input and every gas limit.
use dogeos_revm.Prelude.{
  ℕ, ◌≤◌, ◌≡◌, true, false, ◌&&◌, List, leb, if◌then◌else◌, ok, err, refl, inl, inr, Bool-cases,
  arith,
}
use dogeos_revm.Precompile.{other, out_of_gas, PrecompileError, PrecompileResult, RevmPrecompiles}
use dogeos_revm.Precompile.Wrapped.{modexp_bernoulli_run, modexp_galileo}
use dogeos_revm.Precompile.Wrapped.Modexp.{
  field, lengths_within, modexp_bytes, Compatible, LimitLifted, overflow_of, overflow_of-mentions,
}
use dogeos_revm.Precompile.Wrapped.Modexp.Costs.{
  berlin_cost, osaka_cost, berlin_cost-le, osaka_cost-short,
}

-- EIP-198's result for a cost, where the gas suffices.
abbrev pub priced_power : ℕ → List ℕ → ℕ → PrecompileResult
priced_power cost input gas =
    if leb cost gas
    then ok (record { gas_used = cost; bytes = modexp_bytes input; reverted = false })
    else err out_of_gas

-- What revm documents of its two functions: EIP-198's result at the cost of EIP-2565 and of
-- EIP-7883, for lengths of at most 1024 bytes; and an error above, by EIP-7823, from Osaka on.
pub record ModexpLaws (revm : RevmPrecompiles) : Type 0 where
  pub padded : (input : List ℕ) (offset : ℕ) → revm.padded_word input offset ≡ field input offset 32
  pub berlin_runs :
      (input : List ℕ) (gas : ℕ)
      → lengths_within 1_024 input ≡ true
      → revm.modexp_run_inner_berlin false input gas 200
        ≡ priced_power (berlin_cost input) input gas
  pub osaka_runs :
      (input : List ℕ) (gas : ℕ)
      → lengths_within 1_024 input ≡ true
      → revm.modexp_osaka_run input gas ≡ priced_power (osaka_cost input) input gas
  pub osaka_refuses :
      (input : List ℕ) (gas : ℕ)
      → lengths_within 1_024 input ≡ false
      → (e : PrecompileError) × (revm.modexp_osaka_run input gas ≡ err e)

module _ (revm : RevmPrecompiles) (input : List ℕ) (gas_limit : ℕ) where
  -- An input that neither version computes: the earlier one names the length, the later one fails.
  pub record StillRefused : Type 0 where
    pub before : modexp_bernoulli_run revm input gas_limit ≡ err (other (overflow_of input).1)
    pub error : PrecompileError
    pub after : (modexp_galileo revm).run input gas_limit ≡ err error

  -- The later version runs out of gas, and the earlier one where its own cost is not covered.
  pub record Dearer : Type 0 where
    pub before :
        modexp_bernoulli_run revm input gas_limit ≡ priced_power (berlin_cost input) input gas_limit
    pub after : (modexp_galileo revm).run input gas_limit ≡ err out_of_gas

module _ (revm : RevmPrecompiles) (laws : ModexpLaws revm) (input : List ℕ) (gas_limit : ℕ) where
  shorter : lengths_within 32 input ≡ true → lengths_within 1_024 input ≡ true
  shorter h = ground arith

  runs_short :
      lengths_within 32 input ≡ true
      → modexp_bernoulli_run revm input gas_limit ≡ priced_power (berlin_cost input) input gas_limit
  unfolding modexp_bernoulli_run
  runs_short short = ground (
    arith,
    laws.padded input 0,
    laws.padded input 32,
    laws.padded input 64,
    laws.berlin_runs input gas_limit (shorter short),
  )

  refuses_long :
      lengths_within 32 input ≡ false
      → modexp_bernoulli_run revm input gas_limit ≡ err (other (overflow_of input).1)
  unfolding modexp_bernoulli_run
  refuses_long long =
      ground (arith, laws.padded input 0, laws.padded input 32, laws.padded input 64)

  runs_galileo :
      lengths_within 1_024 input ≡ true
      → (modexp_galileo revm).run input gas_limit ≡ priced_power (osaka_cost input) input gas_limit
  unfolding modexp_galileo
  runs_galileo fits = laws.osaka_runs input gas_limit fits

  refuses_galileo :
      lengths_within 1_024 input ≡ false
      → (e : PrecompileError) × ((modexp_galileo revm).run input gas_limit ≡ err e)
  unfolding modexp_galileo
  refuses_galileo over = laws.osaka_refuses input gas_limit over

  short_input-Compatible :
      lengths_within 32 input ≡ true
      → osaka_cost input ≤ gas_limit
      → Compatible revm input (modexp_bytes input) gas_limit
  short_input-Compatible short enough = record {
    bernoulli_output = record {
      gas_used = berlin_cost input;
      bytes = modexp_bytes input;
      reverted = false;
    };
    galileo_output = record {
      gas_used = osaka_cost input;
      bytes = modexp_bytes input;
      reverted = false;
    };
    bernoulli_succeeds = ground (arith, runs_short short, berlin_cost-le input);
    galileo_succeeds = ground (arith, runs_galileo (shorter short));
    bernoulli_bytes = refl;
    galileo_bytes = refl;
    galileo_dearer = berlin_cost-le input;
  }

  long_input-LimitLifted :
      lengths_within 32 input ≡ false
      → lengths_within 1_024 input ≡ true
      → osaka_cost input ≤ gas_limit
      → LimitLifted revm (overflow_of input).0 input (modexp_bytes input) gas_limit
  long_input-LimitLifted long fits enough = record {
    message = (overflow_of input).1;
    bernoulli_refuses = refuses_long long;
    names_overflow = overflow_of-mentions input;
    galileo_output = record {
      gas_used = osaka_cost input;
      bytes = modexp_bytes input;
      reverted = false;
    };
    galileo_succeeds = ground (arith, runs_galileo fits);
    galileo_bytes = refl;
  }

  long_input-StillRefused :
      lengths_within 32 input ≡ false
      → (lengths_within 1_024 input && leb (osaka_cost input) gas_limit) ≡ false
      → StillRefused revm input gas_limit
  long_input-StillRefused long stays = elim (Bool-cases (lengths_within 1_024 input)) [
    | inr over ↦
        let (e, refused) = refuses_galileo over in
        record { before = refuses_long long; error = e; after = refused }
    | inl fits ↦ record {
      before = refuses_long long;
      error = out_of_gas;
      after = ground (arith, runs_galileo fits);
    }
  ]

  short_input-Dearer :
      lengths_within 32 input ≡ true
      → leb (osaka_cost input) gas_limit ≡ false
      → Dearer revm input gas_limit
  short_input-Dearer short little = record {
    before = runs_short short;
    after = ground (arith, runs_galileo (shorter short));
  }

  -- What Galileo's modexp changes, for every input and gas limit, where revm's functions charge
  -- the costs of EIP-2565 and EIP-7883 and compute EIP-198's power for lengths of up to 1024 bytes.
  -- Lengths of up to 32 bytes: with the later cost, which is at most 4080, both versions give the
  -- power, the later one at no lower cost; with less gas the later one runs out of gas, and the
  -- earlier one gives the power where its own cost is covered and else runs out of gas. A longer
  -- length: the earlier version refuses with the name of the first length that is too long,
  -- whatever the gas; the later one gives the power if no length is above 1024 bytes and the gas is
  -- at least its cost, and is an error otherwise.
  pub modexp_upgrade :
      if lengths_within 32 input
      then (osaka_cost input ≤ 4_080)
        × (if leb (osaka_cost input) gas_limit
            then Compatible revm input (modexp_bytes input) gas_limit
            else Dearer revm input gas_limit)
      else if lengths_within 1_024 input && leb (osaka_cost input) gas_limit
      then LimitLifted revm (overflow_of input).0 input (modexp_bytes input) gas_limit
      else StillRefused revm input gas_limit
  modexp_upgrade = elim (Bool-cases (lengths_within 32 input)) [
    | inl short ↦ elim (Bool-cases (leb (osaka_cost input) gas_limit)) [
      | inl enough ↦
          rw short
            (rw enough (osaka_cost-short input short, short_input-Compatible short (ground arith)))
      | inr little ↦
          rw short (rw little (osaka_cost-short input short, short_input-Dearer short little))
    ]
    | inr long ↦
        elim (Bool-cases (lengths_within 1_024 input && leb (osaka_cost input) gas_limit)) [
          | inl lifted ↦
              rw long (rw lifted (long_input-LimitLifted long (ground arith) (ground arith)))
          | inr stays ↦ rw long (rw stays (long_input-StillRefused long stays))
        ]
  ]

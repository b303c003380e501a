-- ===== src/Precompile/Wrapped/Limits.antt =====
-- src/precompile/{hash,modexp}.rs: what the input limits let through.
use dogeos_revm.Prelude.{ℕ, ◌≤◌, ◌<◌, ◌≡◌, ◌⊎◌, List, length, false, err, arith}
use dogeos_revm.Precompile.{other, RevmPrecompiles}
use dogeos_revm.Precompile.Wrapped.{ripemd160_tsuki, modexp_bernoulli_run}

module _ (revm : RevmPrecompiles) (input : List ℕ) (gas_limit : ℕ) where
  -- Before Galileo modexp runs revm's function with Berlin prices and a minimum of 200 where the
  -- three lengths at the head of the input are at most 32; otherwise it fails, before any gas is
  -- computed, with the error of the first length in the order base, exponent, modulus that is over.
  pub modexp_limits :
      let base_len = revm.padded_word input 0 in
      let exp_len = revm.padded_word input 32 in
      let mod_len = revm.padded_word input 64 in
      let result = modexp_bernoulli_run revm input gas_limit in
      ((base_len ≤ 32)
        × (exp_len ≤ 32)
        × (mod_len ≤ 32)
        × (result ≡ revm.modexp_run_inner_berlin false input gas_limit 200))
      ⊎ ((32 < base_len) × (result ≡ err (other "ModexpBaseOverflow: modexp base overflow")))
      ⊎ ((base_len ≤ 32)
          × (32 < exp_len)
          × (result ≡ err (other "ModexpExpOverflow: modexp exp overflow")))
      ⊎ ((base_len ≤ 32)
          × (exp_len ≤ 32)
          × (32 < mod_len)
          × (result ≡ err (other "ModexpModOverflow: modexp mod overflow")))
  unfolding modexp_bernoulli_run
  modexp_limits = ground arith

  -- From Tsuki RIPEMD-160 hashes inputs of up to 32 bytes and refuses longer ones.
  ripemd160_limit :
      let result = (ripemd160_tsuki revm).run input gas_limit in
      ((length input ≤ 32) × (result ≡ revm.ripemd160_run input gas_limit))
      ⊎ ((32 < length input)
          × (result ≡ err (other "Ripemd160InputOverflow: ripemd160 input overflow")))
  unfolding ripemd160_tsuki
  ripemd160_limit = ground arith

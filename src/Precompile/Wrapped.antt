-- ===== src/Precompile/Wrapped.antt =====
-- src/precompile/{hash,bn254,modexp,blake2}.rs and `precompile_not_implemented`: the precompiles
-- that wrap a function of revm with an input limit, or refuse.
use dogeos_revm.Prelude.{ℕ, ◌*◌, List, ltb, if◌then◌else◌, err, length, false}
use dogeos_revm.Precompile.{
  PrecompileId, sha256, ripemd160, mod_exp, bn254_pairing, blake2f, PrecompileError, other,
  PrecompileResult, Precompile, RevmPrecompiles, sha256_address, ripemd160_address, modexp_address,
  bn254_pairing_address, blake2f_address,
}
pub mod Limits
pub mod Modexp

-- `precompile_not_implemented`
unfoldable pub precompile_not_implemented : PrecompileId → ℕ → Precompile
precompile_not_implemented id address = record {
  id = id;
  address = address;
  run = λ _ _. err (other "NotImplemented: Precompile not implemented");
}

-- `hash::sha256::SHANGHAI`
abbrev pub sha256_shanghai : Precompile
unfolding precompile_not_implemented
sha256_shanghai = precompile_not_implemented sha256 sha256_address

-- `hash::ripemd160::SHANGHAI`
abbrev pub ripemd160_shanghai : Precompile
unfolding precompile_not_implemented
ripemd160_shanghai = precompile_not_implemented ripemd160 ripemd160_address

-- `blake2::SHANGHAI`
abbrev pub blake2_shanghai : Precompile
unfolding precompile_not_implemented
blake2_shanghai = precompile_not_implemented blake2f blake2f_address

-- `hash::ripemd160::TSUKI_LEN_LIMIT`, `modexp::BERNOULLI_LEN_LIMIT` and
-- `bn254::pair::BERNOULLI_LEN_LIMIT`
abbrev pub tsuki_len_limit : ℕ
tsuki_len_limit = 32

abbrev pub modexp_len_limit : ℕ
modexp_len_limit = 32

abbrev pub pair_len_limit : ℕ
pair_len_limit = 4

module _ (revm : RevmPrecompiles) where
  -- `hash::sha256::BERNOULLI`
  unfoldable pub sha256_bernoulli : Precompile
  sha256_bernoulli = record { id = sha256; address = sha256_address; run = revm.sha256_run }

  -- the closure of `hash::ripemd160::TSUKI`
  unfoldable pub ripemd160_tsuki_run : List ℕ → ℕ → PrecompileResult
  ripemd160_tsuki_run input gas_limit =
      if ltb tsuki_len_limit (length input)
      then err (other "Ripemd160InputOverflow: ripemd160 input overflow")
      else revm.ripemd160_run input gas_limit

  -- `hash::ripemd160::TSUKI`
  unfoldable pub ripemd160_tsuki : Precompile
  unfolding ripemd160_tsuki_run
  ripemd160_tsuki = record {
    id = ripemd160;
    address = ripemd160_address;
    run = ripemd160_tsuki_run;
  }

  -- `bn254::pair::bernoulli_run`
  unfoldable pub pair_bernoulli_run : List ℕ → ℕ → PrecompileResult
  pair_bernoulli_run input gas_limit =
      if ltb (pair_len_limit * revm.pair_element_len) (length input)
      then err (other "BN128PairingInputOverflow: input overflow")
      else revm.run_pair input revm.istanbul_pair_per_point revm.istanbul_pair_base gas_limit

  -- `bn254::pair::BERNOULLI`
  unfoldable pub pair_bernoulli : Precompile
  unfolding pair_bernoulli_run
  pair_bernoulli = record {
    id = bn254_pairing;
    address = bn254_pairing_address;
    run = pair_bernoulli_run;
  }

  -- `bn254::pair::FEYNMAN`
  unfoldable pub pair_feynman : Precompile
  pair_feynman = revm.bn254_pair_istanbul

  -- `modexp::bernoulli_run`
  unfoldable pub modexp_bernoulli_run : List ℕ → ℕ → PrecompileResult
  modexp_bernoulli_run input gas_limit =
      let base_len = revm.padded_word input 0 in
      let exp_len = revm.padded_word input 32 in
      let mod_len = revm.padded_word input 64 in
      if ltb modexp_len_limit base_len
      then err (other "ModexpBaseOverflow: modexp base overflow")
      else if ltb modexp_len_limit exp_len
      then err (other "ModexpExpOverflow: modexp exp overflow")
      else if ltb modexp_len_limit mod_len
      then err (other "ModexpModOverflow: modexp mod overflow")
      else revm.modexp_run_inner_berlin false input gas_limit 200

  -- `modexp::BERNOULLI`
  unfoldable pub modexp_bernoulli : Precompile
  unfolding modexp_bernoulli_run
  modexp_bernoulli = record { id = mod_exp; address = modexp_address; run = modexp_bernoulli_run }

  -- `modexp::GALILEO`
  unfoldable pub modexp_galileo : Precompile
  modexp_galileo = record { id = mod_exp; address = modexp_address; run = revm.modexp_osaka_run }

-- ===== src/Precompile/Wrapped/Modexp.antt =====
-- src/precompile/modexp.rs: what the step from Berlin's to Osaka's modexp changes, with what the
-- module's tests assert of it.
use dogeos_revm.Prelude.{
  ℕ, ◌+◌, ◌%◌, ◌^◌, ◌≤◌, ◌≡◌, Bool, true, ◌&&◌, List, ◌++◌, replicate, take, drop, be_value,
  be_bytes, leb, ◌==◌, if◌then◌else◌, String, ok, err, refl, inl, inr, Bool-cases,
}
use dogeos_revm.Precompile.{mentions, other, PrecompileOutput, RevmPrecompiles}
use dogeos_revm.Precompile.Wrapped.{modexp_bernoulli_run, modexp_galileo, modexp_len_limit}
pub mod Costs
pub mod Upgrade

-- The number in `len` bytes from `offset` on, where zeros follow the input.
unfoldable pub field : List ℕ → ℕ → ℕ → ℕ
field input offset len = be_value 0 (take len (drop offset input ++ replicate len 0))

-- The three lengths at the head of an input are at most `limit`.
abbrev pub lengths_within : ℕ → List ℕ → Bool
lengths_within limit input =
    leb (field input 0 32) limit && leb (field input 32 32) limit && leb (field input 64 32) limit

-- EIP-198: three lengths of 32 bytes, then base, exponent and modulus, and the power modulo the
-- modulus in as many bytes as the modulus has. A modulus of zero gives zero.
unfoldable pub modexp_bytes : List ℕ → List ℕ
unfolding field
modexp_bytes input =
    let base_len = field input 0 32 in
    let exp_len = field input 32 32 in
    let mod_len = field input 64 32 in
    let base = field input 96 base_len in
    let exponent = field input (96 + base_len) exp_len in
    let modulus = field input (96 + base_len + exp_len) mod_len in
    be_bytes mod_len (if modulus == 0 then 0 else base ^ exponent % modulus)

module _ (revm : RevmPrecompiles) where
  -- `test_galileo_modexp_backward_compatibility`, and a case of
  -- `test_galileo_modexp_preserves_feynman_behavior`.
  pub record Compatible (input expected : List ℕ) (gas_limit : ℕ) : Type 0 where
    pub bernoulli_output : PrecompileOutput
    pub galileo_output : PrecompileOutput
    pub bernoulli_succeeds : modexp_bernoulli_run revm input gas_limit ≡ ok bernoulli_output
    pub galileo_succeeds : (modexp_galileo revm).run input gas_limit ≡ ok galileo_output
    pub bernoulli_bytes : bernoulli_output.bytes ≡ expected
    pub galileo_bytes : galileo_output.bytes ≡ expected
    pub galileo_dearer : bernoulli_output.gas_used ≤ galileo_output.gas_used

  -- `test_galileo_modexp_with_32_byte_limit`
  pub record LimitLifted (overflow : String) (input expected : List ℕ) (gas_limit : ℕ)
      : Type 0 where
    pub message : String
    pub bernoulli_refuses : modexp_bernoulli_run revm input gas_limit ≡ err (other message)
    pub names_overflow : mentions overflow message ≡ true
    pub galileo_output : PrecompileOutput
    pub galileo_succeeds : (modexp_galileo revm).run input gas_limit ≡ ok galileo_output
    pub galileo_bytes : galileo_output.bytes ≡ expected

-- The error of `bernoulli_run` for an input that is too long, by its name and in full.
abbrev pub overflow_of : List ℕ → String × String
overflow_of input =
    if leb (field input 0 32) modexp_len_limit
    then (if leb (field input 32 32) modexp_len_limit
        then ("ModexpModOverflow", "ModexpModOverflow: modexp mod overflow")
        else ("ModexpExpOverflow", "ModexpExpOverflow: modexp exp overflow"))
    else ("ModexpBaseOverflow", "ModexpBaseOverflow: modexp base overflow")

pub overflow_of-mentions :
    (input : List ℕ) → mentions (overflow_of input).0 (overflow_of input).1 ≡ true
overflow_of-mentions input = elim (Bool-cases (leb (field input 0 32) modexp_len_limit)) [
  | inl base ↦ rw base (elim (Bool-cases (leb (field input 32 32) modexp_len_limit)) [
    | inl exponent ↦ rw exponent refl
    | inr exponent ↦ rw exponent refl
  ])
  | inr base ↦ rw base refl
]

-- ===== src/Precompile.antt =====
-- src/precompile: what the precompiles are made of, their addresses, and revm's precompiles, which
-- this repository takes unchanged or wraps. The children hold the precompiles and the sets.
use text.Mathlib.Text.{find?}
use dogeos_revm.Prelude.{
  true, false, ℕ, ◌-◌, ◌*◌, ◌^◌, ◌≡◌, String, Bool, List, [], ◌∷◌, Option, none, some, ◌==◌,
  if◌then◌else◌, Result, ok, err,
}
pub mod Wrapped
pub mod Transfer
pub mod Sets

-- `PrecompileId`
pub data PrecompileId : Type 0 where
  ec_rec sha256 ripemd160 identity mod_exp bn254_add bn254_mul bn254_pairing blake2f p256_verify :
      PrecompileId
  custom : String → PrecompileId

-- `PrecompileError`; `foreign` stands for the variants that only revm's precompiles return.
pub data PrecompileError : Type 0 where
  out_of_gas : PrecompileError
  other : String → PrecompileError
  fatal : PrecompileError
  foreign : ℕ → PrecompileError

-- `msg.contains(part)`
abbrev pub mentions : String → String → Bool
mentions part msg = elim (find? msg part) [ some _ ↦ true | none ↦ false ]

pub record PrecompileOutput : Type 0 where
  pub gas_used : ℕ
  pub bytes : List ℕ
  pub reverted : Bool

abbrev pub PrecompileResult : Type 0
PrecompileResult = Result PrecompileError PrecompileOutput

-- A function of the input and the gas limit.
abbrev pub PrecompileFn : Type 0
PrecompileFn = List ℕ → ℕ → PrecompileResult

pub record Precompile : Type 0 where
  pub id : PrecompileId
  pub address : ℕ
  pub run : PrecompileFn

-- src/precompile/addresses.rs
abbrev pub ecrecover_address : ℕ
ecrecover_address = 1

abbrev pub sha256_address : ℕ
sha256_address = 2

abbrev pub ripemd160_address : ℕ
ripemd160_address = 3

abbrev pub identity_address : ℕ
identity_address = 4

abbrev pub modexp_address : ℕ
modexp_address = 5

abbrev pub bn254_add_address : ℕ
bn254_add_address = 6

abbrev pub bn254_mul_address : ℕ
bn254_mul_address = 7

abbrev pub bn254_pairing_address : ℕ
bn254_pairing_address = 8

abbrev pub blake2f_address : ℕ
blake2f_address = 9

abbrev pub p256verify_address : ℕ
p256verify_address = 256

abbrev pub transfer_address : ℕ
transfer_address = 0xff - 2

abbrev pub transfer_id : PrecompileId
transfer_id = custom "TRANSFER"

-- What the sets take from revm: whole precompiles, with their documented addresses and ids, and
-- the functions that this repository wraps.
pub record RevmPrecompiles : Type 0 where
  pub ecrecover : Precompile
  pub identity_fun : Precompile
  pub bn254_add_istanbul : Precompile
  pub bn254_mul_istanbul : Precompile
  pub bn254_pair_istanbul : Precompile
  pub p256verify : Precompile
  pub p256verify_osaka : Precompile
  pub sha256_run : PrecompileFn
  pub ripemd160_run : PrecompileFn
  -- `run_pair(input, pair_per_point_cost, pair_base_cost, gas_limit)`
  pub run_pair : List ℕ → ℕ → ℕ → ℕ → PrecompileResult
  pub istanbul_pair_per_point : ℕ
  pub istanbul_pair_base : ℕ
  pub pair_element_len : ℕ
  -- `run_inner::<_, OSAKA>(input, gas_limit, min_gas, calc_gas)` with `berlin_gas_calc`
  pub modexp_run_inner_berlin : Bool → List ℕ → ℕ → ℕ → PrecompileResult
  pub modexp_osaka_run : PrecompileFn
  -- `U256::from_be_bytes(right_pad_with_offset::<32>(input, offset))`
  pub padded_word : List ℕ → ℕ → ℕ
  pub ecrecover_at : (ecrecover.address ≡ ecrecover_address) × (ecrecover.id ≡ ec_rec)
  pub identity_at : (identity_fun.address ≡ identity_address) × (identity_fun.id ≡ identity)
  pub bn254_add_at :
      (bn254_add_istanbul.address ≡ bn254_add_address) × (bn254_add_istanbul.id ≡ bn254_add)
  pub bn254_mul_at :
      (bn254_mul_istanbul.address ≡ bn254_mul_address) × (bn254_mul_istanbul.id ≡ bn254_mul)
  pub bn254_pair_at :
      (bn254_pair_istanbul.address ≡ bn254_pairing_address)
      × (bn254_pair_istanbul.id ≡ bn254_pairing)
  pub p256verify_at : (p256verify.address ≡ p256verify_address) × (p256verify.id ≡ p256_verify)
  pub p256verify_osaka_at :
      (p256verify_osaka.address ≡ p256verify_address) × (p256verify_osaka.id ≡ p256_verify)

-- ===== src/Tests/Precompiles.antt =====
-- The precompiles and their sets over concrete tables.
use dogeos_revm.Prelude.{
  ℕ, ◌≡◌, refl, false, List, [], ◌∷◌, length, Option, none, some, ◌==◌, if◌then◌else◌, ok,
}
use dogeos_revm.Spec.{galileo}
use dogeos_revm.Precompile.{
  PrecompileId, ec_rec, identity, bn254_add, bn254_mul, bn254_pairing, p256_verify, PrecompileFn,
  Precompile, RevmPrecompiles,
}
use dogeos_revm.Precompile.Sets.{Entry, plain, PrecompileTables, inner_for_spec}
use dogeos_revm.Precompile.Sets.Activation.{planned, find-inner_for_spec}

-- A function that returns its input, for one gas.
abbrev pub echo : PrecompileFn
echo input gas_limit = ok (record { gas_used = 1; bytes = input; reverted = false })

abbrev pub stub : PrecompileId → ℕ → Precompile
stub id address = record { id = id; address = address; run = echo }

abbrev pub revm : RevmPrecompiles
revm = record {
  ecrecover = stub ec_rec 1;
  identity_fun = stub identity 4;
  bn254_add_istanbul = stub bn254_add 6;
  bn254_mul_istanbul = stub bn254_mul 7;
  bn254_pair_istanbul = stub bn254_pairing 8;
  p256verify = stub p256_verify 256;
  p256verify_osaka = stub p256_verify 256;
  sha256_run = echo;
  ripemd160_run = echo;
  run_pair = λ input per_point base gas_limit. echo input gas_limit;
  istanbul_pair_per_point = 34_000;
  istanbul_pair_base = 45_000;
  pair_element_len = 192;
  modexp_run_inner_berlin = λ osaka input gas_limit min_gas. echo input gas_limit;
  modexp_osaka_run = echo;
  padded_word = λ input offset. length input;
  ecrecover_at = (refl, refl);
  identity_at = (refl, refl);
  bn254_add_at = (refl, refl);
  bn254_mul_at = (refl, refl);
  bn254_pair_at = (refl, refl);
  p256verify_at = (refl, refl);
  p256verify_osaka_at = (refl, refl);
}

abbrev pub extend_all : (ℕ → Option Precompile) → List Precompile → ℕ → Option Precompile
extend_all m [] = m
extend_all m (p ∷ ps) = extend_all (λ a. if p.address == a then some p else m a) ps

abbrev pub extend_map : (ℕ → Option Entry) → List (ℕ × Entry) → ℕ → Option Entry
extend_map m [] = m
extend_map m ((at, e) ∷ es) = extend_map (λ a. if at == a then some e else m a) es

abbrev pub tables : PrecompileTables
tables = record {
  Precompiles = ℕ → Option Precompile;
  default = λ a. none;
  extend = extend_all;
  get = λ m a. m a;
  PrecompilesMap = ℕ → Option Entry;
  from_static = λ m a. elim (m a) [ none ↦ none | some p ↦ some (plain p) ];
  with_extended_precompiles = extend_map;
  find = λ m a. m a;
  get-default = λ a. refl;
  get-extend_nil = λ m a. refl;
  get-extend_one = λ m p a. refl;
  get-extend_more = λ m p q ps a. refl;
  find-from_static = λ m a. refl;
  find-with_extended_one = λ m at e a. refl;
}

find-inner_for_spec_example :
    tables.find (inner_for_spec tables revm galileo) 256 ≡ planned tables revm galileo 256
find-inner_for_spec_example = find-inner_for_spec tables revm galileo 256

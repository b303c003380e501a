-- ===== src/Precompile/Sets/Plan/Calls.antt =====
-- src/precompile/mod.rs: the calls that the plan of the tests makes of the static precompiles.
use mathlib.Core.Path.{subst}
use dogeos_revm.Prelude.{
  ℕ, ◌≡◌, Bool, true, false, List, [], ◌∷◌, ◌++◌, inl, inr, Bool-cases, ◌∙◌, some, ◌==◌,
  if◌then◌else◌, arith, refl,
}
use dogeos_revm.Spec.{ScrollSpecId, bernoulli, euclid, feynman, galileo, tsuki, is_enabled_in}
use dogeos_revm.Precompile.{PrecompileId, sha256, ripemd160, blake2f, Precompile, RevmPrecompiles}
use dogeos_revm.Precompile.Wrapped.{
  precompile_not_implemented, sha256_bernoulli, ripemd160_tsuki, ripemd160_tsuki_run,
  pair_bernoulli, pair_feynman, modexp_bernoulli, modexp_galileo, modexp_bernoulli_run,
  pair_bernoulli_run,
}
use dogeos_revm.Precompile.Sets.{plain, PrecompileTables}
use dogeos_revm.Precompile.Sets.Activation.{planned, find-inner_for_spec}
use dogeos_revm.Precompile.Sets.Matrix.{
  elem, expected_precompile_addresses, expected_zero_input_gas, expected_not_implemented,
}
use dogeos_revm.Precompile.Sets.Plan.{CostsExactly, RefusesAsPlaceholder, AtStatic, Called}

-- What revm documents of its functions on an empty input.
pub record ZeroInputCosts (revm : RevmPrecompiles) : Type 0 where
  pub ecrecover : CostsExactly revm.ecrecover.run 3_000
  pub sha256 : CostsExactly revm.sha256_run 60
  pub ripemd160 : CostsExactly revm.ripemd160_run 600
  pub identity : CostsExactly revm.identity_fun.run 15
  pub modexp_berlin :
      CostsExactly (λ input gas. revm.modexp_run_inner_berlin false input gas 200) 200
  pub modexp_osaka : CostsExactly revm.modexp_osaka_run 500
  pub bn254_add : CostsExactly revm.bn254_add_istanbul.run 150
  pub bn254_mul : CostsExactly revm.bn254_mul_istanbul.run 6_000
  pub pairing :
      CostsExactly
        (λ input gas. revm.run_pair input revm.istanbul_pair_per_point revm.istanbul_pair_base gas)
        45_000
  pub pairing_istanbul : CostsExactly revm.bn254_pair_istanbul.run 45_000
  pub p256 : CostsExactly revm.p256verify.run 3_450
  pub p256_osaka : CostsExactly revm.p256verify_osaka.run 6_900
  -- an empty input is padded with zeros
  pub padded : (offset : ℕ) → revm.padded_word [] offset ≡ 0

-- An assertion on every member of a list, and what it says of a number that is asked for.
abbrev pub All : (ℕ → Type 0) → List ℕ → Type 0
All P [] = Unit {0}
All P (x ∷ xs) = P x × All P xs

All-append : (P : ℕ → Type 0) (xs ys : List ℕ) → All P xs → All P ys → All P (xs ++ ys)
All-append P [] ys _ q = q
All-append P (x ∷ xs) ys (p, ps) q = (p, All-append P xs ys ps q)

pub elem-All :
    (P : ℕ → Type 0) (a : ℕ) (xs : List ℕ) → All P xs → if elem a xs then P a else Unit {0}
elem-All P a [] _ = tt
elem-All P a (x ∷ xs) (p, ps) = elim (Bool-cases (x == a)) [
  | inl here ↦ let same : x ≡ a = ground arith in rw here (subst P same p)
  | inr there ↦ rw there (elem-All P a xs ps)
]

module _ (t : PrecompileTables) (revm : RevmPrecompiles) (costs : ZeroInputCosts revm) where
  modexp_costs : CostsExactly (modexp_bernoulli_run revm) 200
  unfolding modexp_bernoulli_run CostsExactly
  modexp_costs = rw (costs.padded 0, costs.padded 32, costs.padded 64) costs.modexp_berlin

  pairing_costs : CostsExactly (pair_bernoulli_run revm) 45_000
  unfolding pair_bernoulli_run CostsExactly
  pairing_costs = ground (arith, costs.pairing)

  abbrev pub Passes : ScrollSpecId → ℕ → Type 0
  Passes spec a = Called t revm spec a (expected_zero_input_gas spec a)

  costs_at :
      (n : ℕ) (spec : ScrollSpecId) (a : ℕ) (p : Precompile)
      → planned t revm spec a ≡ some (plain p)
      → CostsExactly p.run n
      → AtStatic t revm (λ run. CostsExactly run n) spec a
  costs_at n spec a p e x = (p, find-inner_for_spec t revm spec a ∙ e, x)

  refuses_at :
      (spec : ScrollSpecId) (id : PrecompileId) (a : ℕ)
      → planned t revm spec a ≡ some (plain (precompile_not_implemented id a))
      → AtStatic t revm RefusesAsPlaceholder spec a
  unfolding RefusesAsPlaceholder precompile_not_implemented
  refuses_at spec id a e =
      (precompile_not_implemented id a, find-inner_for_spec t revm spec a ∙ e, (_, refl, refl))

  ecrecover-Passes : (spec : ScrollSpecId) → Passes spec 1
  unfolding expected_zero_input_gas
  ecrecover-Passes spec = costs_at 3_000 spec 1 revm.ecrecover (ground arith) costs.ecrecover

  sha256-Passes : (spec : ScrollSpecId) → Passes spec 2
  unfolding expected_zero_input_gas expected_not_implemented sha256_bernoulli
      precompile_not_implemented
  sha256-Passes spec = elim (Bool-cases (is_enabled_in spec bernoulli)) [
    | inl on ↦ rw on (costs_at 60 spec 2 (sha256_bernoulli revm) (ground arith) costs.sha256)
    | inr off ↦
        let refused : expected_not_implemented spec 2 ≡ true = ground arith in
        rw (off, refused) (refuses_at spec sha256 2 (ground arith))
  ]

  ripemd160-Passes : (spec : ScrollSpecId) → Passes spec 3
  unfolding expected_zero_input_gas expected_not_implemented ripemd160_tsuki ripemd160_tsuki_run
      precompile_not_implemented CostsExactly
  ripemd160-Passes spec = elim (Bool-cases (is_enabled_in spec tsuki)) [
    | inl on ↦ rw on (costs_at 600 spec 3 (ripemd160_tsuki revm) (ground arith) costs.ripemd160)
    | inr off ↦
        let refused : expected_not_implemented spec 3 ≡ true = ground arith in
        rw (off, refused) (refuses_at spec ripemd160 3 (ground arith))
  ]

  identity-Passes : (spec : ScrollSpecId) → Passes spec 4
  unfolding expected_zero_input_gas
  identity-Passes spec = costs_at 15 spec 4 revm.identity_fun (ground arith) costs.identity

  modexp-Passes : (spec : ScrollSpecId) → Passes spec 5
  unfolding expected_zero_input_gas modexp_galileo modexp_bernoulli
  modexp-Passes spec = elim (Bool-cases (is_enabled_in spec galileo)) [
    | inl on ↦ rw on (costs_at 500 spec 5 (modexp_galileo revm) (ground arith) costs.modexp_osaka)
    | inr off ↦ rw off (costs_at 200 spec 5 (modexp_bernoulli revm) (ground arith) modexp_costs)
  ]

  bn254_add-Passes : (spec : ScrollSpecId) → Passes spec 6
  unfolding expected_zero_input_gas
  bn254_add-Passes spec = costs_at 150 spec 6 revm.bn254_add_istanbul (ground arith) costs.bn254_add

  bn254_mul-Passes : (spec : ScrollSpecId) → Passes spec 7
  unfolding expected_zero_input_gas
  bn254_mul-Passes spec =
      costs_at 6_000 spec 7 revm.bn254_mul_istanbul (ground arith) costs.bn254_mul

  pairing-Passes : (spec : ScrollSpecId) → Passes spec 8
  unfolding expected_zero_input_gas pair_feynman pair_bernoulli
  pairing-Passes spec = elim (Bool-cases (is_enabled_in spec feynman)) [
    | inl on ↦ costs_at 45_000 spec 8 (pair_feynman revm) (ground arith) costs.pairing_istanbul
    | inr off ↦ costs_at 45_000 spec 8 (pair_bernoulli revm) (ground arith) pairing_costs
  ]

  blake2f-Passes : (spec : ScrollSpecId) → Passes spec 9
  unfolding expected_zero_input_gas expected_not_implemented precompile_not_implemented
  blake2f-Passes spec = refuses_at spec blake2f 9 (ground arith)

  p256verify-Passes : (spec : ScrollSpecId) → is_enabled_in spec euclid ≡ true → Passes spec 256
  unfolding expected_zero_input_gas
  p256verify-Passes spec later = elim (Bool-cases (is_enabled_in spec galileo)) [
    | inl on ↦ rw on (costs_at 6_900 spec 256 revm.p256verify_osaka (ground arith) costs.p256_osaka)
    | inr off ↦ rw off (costs_at 3_450 spec 256 revm.p256verify (ground arith) costs.p256)
  ]

  pub listed_pass : (spec : ScrollSpecId) → All (Passes spec) (expected_precompile_addresses spec)
  unfolding expected_precompile_addresses expected_zero_input_gas expected_not_implemented
  listed_pass spec =
      All-append (Passes spec) (1 ∷ 2 ∷ 3 ∷ 4 ∷ 5 ∷ 6 ∷ 7 ∷ 8 ∷ 9 ∷ [])
        ((if is_enabled_in spec euclid then 256 ∷ [] else [])
          ++ (if is_enabled_in spec tsuki then 253 ∷ [] else []))
        (
          ecrecover-Passes spec,
          (
            sha256-Passes spec,
            (
              ripemd160-Passes spec,
              (
                identity-Passes spec,
                (
                  modexp-Passes spec,
                  (
                    bn254_add-Passes spec,
                    (bn254_mul-Passes spec, (pairing-Passes spec, (blake2f-Passes spec, tt))),
                  ),
                ),
              ),
            ),
          ),
        )
        (All-append (Passes spec) (if is_enabled_in spec euclid then 256 ∷ [] else [])
          (if is_enabled_in spec tsuki then 253 ∷ [] else [])
          (with_p256 (is_enabled_in spec euclid) refl) (with_transfer (is_enabled_in spec tsuki)))
    where
      with_p256 :
          (on : Bool)
          → is_enabled_in spec euclid ≡ on
          → All (Passes spec) (if on then 256 ∷ [] else [])
      with_p256 true e = (p256verify-Passes spec e, tt)
      with_p256 false e = tt

      with_transfer : (on : Bool) → All (Passes spec) (if on then 253 ∷ [] else [])
      with_transfer true = (tt, tt)
      with_transfer false = tt

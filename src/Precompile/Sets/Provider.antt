-- ===== src/Precompile/Sets/Provider.antt =====
-- src/precompile/mod.rs: `PrecompileProvider for ScrollPrecompileProvider`. The lookups are those
-- of the `PrecompilesMap` inside, taken as an interface.
use dogeos_revm.Prelude.{ℕ, ◌≡◌, Bool, List, [], ◌∷◌, Option, String, Result}
use dogeos_revm.Action.{Action}
use dogeos_revm.Spec.{ScrollSpecId}
use dogeos_revm.Precompile.{RevmPrecompiles}
use dogeos_revm.Precompile.Sets.{PrecompileTables, ScrollPrecompileProvider, set_spec}
pub mod Refine

-- `PrecompileProvider` for `PrecompilesMap`, on the map and the context. `run` takes the map by
-- `&mut`, and only looks its precompile up in it.
pub record MapOps (PrecompilesMap Context CallInputs Output : Type 0) : Type 0 where
  pub run_map : CallInputs → Action (PrecompilesMap × Context) String (Option Output)
  pub warm_addresses_map : PrecompilesMap → List ℕ
  pub contains_map : PrecompilesMap → ℕ → Bool
  pub run_map-keeps :
      (inputs : CallInputs) (m : PrecompilesMap) (c : Context) → (run_map inputs (m, c)).1.0 ≡ m

module _ (t : PrecompileTables) (revm : RevmPrecompiles) where
  abbrev pub Provider : Type 0
  Provider = ScrollPrecompileProvider t revm

  -- `ScrollPrecompileProvider::into_precompiles_map`
  unfoldable pub into_precompiles_map : Provider → t.PrecompilesMap
  into_precompiles_map self = self.inner

  module _ {Context CallInputs Output : Type 0}
      (ops : MapOps t.PrecompilesMap Context CallInputs Output) where
    -- `PrecompileProvider::run`
    unfoldable pub run : CallInputs → Action (Provider × Context) String (Option Output)
    run inputs (self, context) =
        let (result, (inner', context')) = ops.run_map inputs (self.inner, context) in
        (result, (record self { inner = inner' }, context'))

    -- `PrecompileProvider::warm_addresses`
    unfoldable pub warm_addresses : Provider → List ℕ
    warm_addresses self = ops.warm_addresses_map self.inner

    -- `PrecompileProvider::contains`
    unfoldable pub contains : Provider → ℕ → Bool
    contains self address = ops.contains_map self.inner address

-- The calls of `PrecompileProvider`, and what they answer.
pub data Call (CallInputs : Type 0) : Type 0 where
  set_spec_to : ScrollSpecId → Call CallInputs
  run_on : CallInputs → Call CallInputs
  warm : Call CallInputs
  contains_at : ℕ → Call CallInputs

pub data Answer (Output : Type 0) : Type 0 where
  changed : Bool → Answer Output
  ran : Result String (Option Output) → Answer Output
  warmed : List ℕ → Answer Output
  contained : Bool → Answer Output

module _ (t : PrecompileTables) (revm : RevmPrecompiles) {Context CallInputs Output : Type 0}
    (ops : MapOps t.PrecompilesMap Context CallInputs Output) where
  unfoldable pub step :
      Call CallInputs → Provider t revm × Context → Answer Output × (Provider t revm × Context)
  unfolding set_spec run warm_addresses contains
  step (set_spec_to spec) (self, context) =
      let (self', c) = set_spec t revm spec self in (changed c, (self', context))
  step (run_on inputs) s = let (result, s') = run t revm ops inputs s in (ran result, s')
  step warm (self, context) = (warmed (warm_addresses t revm ops self), (self, context))
  step (contains_at a) (self, context) = (contained (contains t revm ops self a), (self, context))

  unfoldable pub steps :
      List (Call CallInputs)
      → Provider t revm × Context
      → List (Answer Output) × (Provider t revm × Context)
  unfolding step
  steps [] s = ([], s)
  steps (call ∷ calls) s =
      let (answer, s') = step call s in
      let (answers, s'') = steps calls s' in (answer ∷ answers, s'')

-- ===== src/Precompile/Sets/Provider/Refine.antt =====
-- src/precompile/mod.rs: the provider refines the hardfork alone. The abstract provider keeps no
-- tables: every call looks up the tables of the current hardfork.
use dogeos_revm.Prelude.{◌≡◌, refl, not, List, [], ◌∷◌, ◌==◌, arith, Bool-cases, inl, inr}
use dogeos_revm.Spec.{ScrollSpecId, discriminant}
use dogeos_revm.Spec.Order.{discriminant-injective}
use dogeos_revm.Precompile.{RevmPrecompiles}
use dogeos_revm.Precompile.Sets.{PrecompileTables, new_with_spec, set_spec, inner_for_spec}
use dogeos_revm.Precompile.Sets.Provider.{
  MapOps, Provider, run, warm_addresses, contains, Call, set_spec_to, run_on, warm, contains_at,
  Answer, changed, ran, warmed, contained, step, steps,
}

module _ (t : PrecompileTables) (revm : RevmPrecompiles) {Context CallInputs Output : Type 0}
    (ops : MapOps t.PrecompilesMap Context CallInputs Output) where
  abbrev Concrete : Type 0
  Concrete = Provider t revm × Context

  abbrev Abstract : Type 0
  Abstract = ScrollSpecId × Context

  abbrev pub provider_at : Abstract → Concrete
  provider_at (spec, context) = (new_with_spec t revm spec, context)

  -- One call of the abstract provider.
  abbrev pub spec_step : Call CallInputs → Abstract → Answer Output × Abstract
  spec_step (set_spec_to new) (spec, context) =
      (changed (not (discriminant new == discriminant spec)), (new, context))
  spec_step (run_on inputs) (spec, context) =
      let (result, (_, context')) = ops.run_map inputs (inner_for_spec t revm spec, context) in
      (ran result, (spec, context'))
  spec_step warm (spec, context) =
      (warmed (ops.warm_addresses_map (inner_for_spec t revm spec)), (spec, context))
  spec_step (contains_at a) (spec, context) =
      (contained (ops.contains_map (inner_for_spec t revm spec) a), (spec, context))

  abbrev pub spec_steps : List (Call CallInputs) → Abstract → List (Answer Output) × Abstract
  spec_steps [] s = ([], s)
  spec_steps (call ∷ calls) s =
      let (answer, s') = spec_step call s in
      let (answers, s'') = spec_steps calls s' in (answer ∷ answers, s'')

  -- `set_spec` on a provider made for a hardfork: the provider of the new one.
  set_spec-new_with_spec :
      (spec new : ScrollSpecId)
      → set_spec t revm new (new_with_spec t revm spec)
        ≡ (new_with_spec t revm new, not (discriminant new == discriminant spec))
  unfolding set_spec new_with_spec
  set_spec-new_with_spec spec new = elim (Bool-cases (discriminant new == discriminant spec)) [
    | inl same ↦ ground (arith, discriminant-injective new spec (ground arith))
    | inr other ↦ ground arith
  ]

  step_refines :
      (call : Call CallInputs) (s : Abstract)
      → step t revm ops call (provider_at s)
        ≡ (let (answer, s') = spec_step call s in (answer, provider_at s'))
  unfolding step run warm_addresses contains new_with_spec
  step_refines (set_spec_to new) (spec, context) = rw (set_spec-new_with_spec spec new) refl
  step_refines (run_on inputs) (spec, context) =
      ground (arith, ops.run_map-keeps inputs (inner_for_spec t revm spec) context)
  step_refines warm (spec, context) = refl
  step_refines (contains_at a) (spec, context) = refl

  -- No sequence of calls of `set_spec`, `run`, `warm_addresses` and `contains` tells a provider
  -- made for a hardfork, which keeps its tables and rebuilds them only on a change, from the
  -- hardfork alone with its tables looked up at each call: the answers and the context are the
  -- same, and at the end the provider is the one made for the last hardfork set.
  pub steps_refines :
      (calls : List (Call CallInputs)) (spec : ScrollSpecId) (context : Context)
      → steps t revm ops calls (new_with_spec t revm spec, context) ≡ (
          let (answers, (spec', context')) = spec_steps calls (spec, context) in
          (answers, (new_with_spec t revm spec', context')))
  unfolding steps
  steps_refines [] spec context = refl
  steps_refines (call ∷ calls) spec context =
      rw
        (
          step_refines call (spec, context),
          steps_refines calls (spec_step call (spec, context)).1.0
              (spec_step call (spec, context)).1.1,
        )
        refl

-- ===== src/Tests/Providers.antt =====
-- The provider over a run of calls, and against the activation matrix of the tests.
use dogeos_revm.Prelude.{ℕ, ◌≡◌, refl, true, false, List, [], ◌∷◌, Option, none, some, ok}
use dogeos_revm.Spec.{galileo, tsuki}
use dogeos_revm.Precompile.Sets.{Entry, new_with_spec}
use dogeos_revm.Precompile.Sets.Provider.{
  MapOps, Call, set_spec_to, run_on, warm, contains_at, steps,
}
use dogeos_revm.Precompile.Sets.Provider.Refine.{spec_steps, steps_refines}
use dogeos_revm.Precompile.Sets.Plan.Shadow.{ShadowsNothing, inner_for_spec-ShadowsNothing}
use dogeos_revm.Tests.Precompiles.{revm, tables}

-- A map that answers a call by counting it in the context.
abbrev counting : MapOps (ℕ → Option Entry) ℕ ℕ ℕ
counting = record {
  run_map = λ inputs s. (ok (some inputs), (s.0, inputs));
  warm_addresses_map = λ m. 1 ∷ 2 ∷ [];
  contains_map = λ m a. elim (m a) [ none ↦ false | some e ↦ true ];
  run_map-keeps = λ inputs m c. refl;
}

-- Tsuki's provider told Galileo twice, with a call and look-ups.
abbrev session : List (Call ℕ)
session = set_spec_to galileo ∷ contains_at 253 ∷ set_spec_to galileo ∷ run_on 7 ∷ warm ∷ []

steps_refines_example : steps tables revm counting session (new_with_spec tables revm tsuki, 0) ≡ (
    let (answers, (spec', context')) = spec_steps tables revm counting session (tsuki, 0) in
    (answers, (new_with_spec tables revm spec', context')))
steps_refines_example = steps_refines tables revm counting session tsuki 0

inner_for_spec-ShadowsNothing_example : ShadowsNothing tables revm tsuki
inner_for_spec-ShadowsNothing_example = inner_for_spec-ShadowsNothing tables revm tsuki

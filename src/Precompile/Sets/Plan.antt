-- ===== src/Precompile/Sets/Plan.antt =====
-- src/precompile/mod.rs, its module `tests`: what `spec_activation_matrix_matches_scroll_plan`
-- asserts of a hardfork's configuration and precompiles.
use mathlib.Core.Option
use dogeos_revm.Prelude.{
  ℕ, ◌-◌, ◌≡◌, Bool, true, false, String, List, [], ◌++◌, replicate, Option, none, some, ltb,
  if◌then◌else◌, Result, ok, err,
}
use dogeos_revm.Uint.{UintOps}
use dogeos_revm.L1Block.{u64_max}
use dogeos_revm.Spec.{ScrollSpecId, euclid, feynman, tsuki, is_enabled_in}
use dogeos_revm.Gas.{
  GasTables, tx_eip7702_per_empty_account_cost, tx_floor_cost_per_token, tx_floor_cost_base_gas,
}
use dogeos_revm.Builder.{CfgEnv, CfgOps, new_scroll}
use dogeos_revm.Precompile.{
  mentions, PrecompileId, PrecompileError, out_of_gas, other, PrecompileOutput, PrecompileResult,
  PrecompileFn, Precompile, RevmPrecompiles, transfer_address, transfer_id,
}
use dogeos_revm.Precompile.Transfer.{
  Internals, ByteOps, PrecompileInput, native_doge_token_address, gas_cost, run as transfer_run,
}
use dogeos_revm.Precompile.Sets.{Entry, plain, dynamic, PrecompileTables, inner_for_spec}
use dogeos_revm.Precompile.Sets.Matrix.{
  elem, entry_id, expected_precompile_addresses, expected_precompile_id, expected_zero_input_gas,
  expected_not_implemented,
}
pub mod Calls
pub mod Matches
pub mod Limits
pub mod Shadow

-- `assert_precompile_zero_input_gas`: a call with no input and exactly the expected gas succeeds
-- and uses it all; with one less, where there is one less, it runs out of gas.
unfoldable pub CostsExactly : PrecompileFn → ℕ → Type 0
CostsExactly run expected_gas =
    ((output : PrecompileOutput) × (run [] expected_gas ≡ ok output)
      × (output.gas_used ≡ expected_gas))
    × (if ltb 0 expected_gas then run [] (expected_gas - 1) ≡ err out_of_gas else Unit {0})

-- `assert_precompile_not_implemented`
unfoldable pub RefusesAsPlaceholder : PrecompileFn → Type 0
RefusesAsPlaceholder run =
    (msg : String) × (run [] u64_max ≡ err (other msg)) × (mentions "NotImplemented" msg ≡ true)

-- The call of the native transfer that the test makes: 96 zero bytes, from the token contract.
abbrev pub transfer_call : ℕ → PrecompileInput
transfer_call gas = record {
  input_bytes = replicate 96 0;
  gas = gas;
  caller = native_doge_token_address;
  is_static = false;
  is_direct_call = true;
}

module _ (t : PrecompileTables) (revm : RevmPrecompiles) where
  -- What `precompiles_for_spec` has at an address.
  abbrev pub found : ScrollSpecId → ℕ → Option Entry
  found spec a = t.find (inner_for_spec t revm spec) a

  -- An assertion on the function of the static precompile at an address.
  abbrev pub AtStatic : (PrecompileFn → Type 0) → ScrollSpecId → ℕ → Type 0
  AtStatic Asserted spec a = (p : Precompile) × (found spec a ≡ some (plain p)) × Asserted p.run

  -- What is asserted of a call of a listed precompile.
  abbrev pub Called : ScrollSpecId → ℕ → Option ℕ → Type 0
  Called spec a (some expected_gas) = AtStatic (λ run. CostsExactly run expected_gas) spec a
  Called spec a none =
      if expected_not_implemented spec a then AtStatic RefusesAsPlaceholder spec a else Unit {0}

  -- And of the native transfer, which is installed under its id.
  abbrev pub Transfers :
      {S DbError : Type 0} → UintOps → Internals S DbError → ByteOps → ScrollSpecId → S → Type 0
  Transfers u j b spec s =
      (found spec transfer_address ≡ some (dynamic transfer_id))
      × ((output : PrecompileOutput) × ((transfer_run u j b (transfer_call gas_cost) s).0
            ≡ ok output)
          × (output.gas_used ≡ gas_cost))
      × ((transfer_run u j b (transfer_call (gas_cost - 1)) s).0 ≡ err out_of_gas)

module _ (t : PrecompileTables) (revm : RevmPrecompiles) (g : GasTables) {Rest : Type 0}
    (ops : CfgOps g.GasParams Rest) (effective_cap : CfgEnv g.GasParams Rest → ℕ)
    {S DbError : Type 0} (u : UintOps) (j : Internals S DbError) (b : ByteOps) where
  abbrev cfg : ScrollSpecId → CfgEnv g.GasParams Rest
  cfg = new_scroll g ops

  -- `spec_activation_matrix_matches_scroll_plan`, for one hardfork. Where the test compares the sets
  -- of addresses, every address is asked for. `effective_cap` is the method `tx_gas_limit_cap` of
  -- revm's configuration.
  pub record MatchesPlan (spec : ScrollSpecId) : Type 0 where
    pub eip7702_gas :
        g.get (cfg spec).gas_params tx_eip7702_per_empty_account_cost
        ≡ (if is_enabled_in spec euclid then g.per_empty_account_cost else 0)
    pub eip7623_token_gas :
        g.get (cfg spec).gas_params tx_floor_cost_per_token
        ≡ (if is_enabled_in spec feynman then g.total_cost_floor_per_token else 0)
    pub eip7623_base_gas :
        g.get (cfg spec).gas_params tx_floor_cost_base_gas
        ≡ (if is_enabled_in spec feynman then 21_000 else 0)
    pub eip7825_cap :
        (cfg spec).tx_gas_limit_cap
        ≡ (if is_enabled_in spec tsuki then some ops.eip7825_cap else none)
    pub eip7825_effective_cap :
        effective_cap (cfg spec) ≡ (if is_enabled_in spec tsuki then ops.eip7825_cap else u64_max)
    pub addresses_and_ids :
        (a : ℕ)
        → Option.map entry_id (found t revm spec a)
          ≡ (if elem a (expected_precompile_addresses spec) then expected_precompile_id a else none)
    pub calls :
        (a : ℕ)
        → if elem a (expected_precompile_addresses spec)
          then Called t revm spec a (expected_zero_input_gas spec a)
          else Unit {0}
    pub native_transfer :
        (s : S) → if is_enabled_in spec tsuki then Transfers t revm u j b spec s else Unit {0}

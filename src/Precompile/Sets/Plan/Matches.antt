-- ===== src/Precompile/Sets/Plan/Matches.antt =====
-- src/precompile/mod.rs: every hardfork matches the plan of the tests.
use dogeos_revm.Prelude.{
  ℕ, ◌-◌, ◌≡◌, true, replicate, inl, inr, Bool-cases, ◌∙◌, Option, none, some, ◌==◌, if◌then◌else◌,
  ok, err, arith, refl,
}
use dogeos_revm.Uint.{UintOps}
use dogeos_revm.L1Block.{u64_max}
use dogeos_revm.Spec.{ScrollSpecId, tsuki, is_enabled_in}
use dogeos_revm.Gas.{
  GasTables, tx_eip7702_per_empty_account_cost, tx_floor_cost_per_token, tx_floor_cost_base_gas,
}
use dogeos_revm.Gas.Overrides.{get-new_scroll_spec}
use dogeos_revm.Builder.{CfgEnv, CfgOps, new_scroll}
use dogeos_revm.Builder.Config.{set_scroll_spec_configures}
use dogeos_revm.Precompile.{transfer_id, PrecompileOutput, out_of_gas, RevmPrecompiles}
use dogeos_revm.Precompile.Transfer.{
  Internals, ByteOps, gas_cost, from_of, value_of, answer, run as transfer_run, guards,
  check_and_move, move_value,
}
use dogeos_revm.Precompile.Sets.{dynamic, PrecompileTables, inner_for_spec}
use dogeos_revm.Precompile.Sets.Activation.{find-inner_for_spec}
use dogeos_revm.Precompile.Sets.Matrix.{expected_precompile_addresses}
use dogeos_revm.Precompile.Sets.Matrix.Expected.{installed-expected}
use dogeos_revm.Precompile.Sets.Plan.{transfer_call, Transfers, MatchesPlan}
use dogeos_revm.Precompile.Sets.Plan.Calls.{ZeroInputCosts, elem-All, Passes, listed_pass}

-- A journal over a database that answers a transfer.
pub record TransferAnswers {S DbError : Type 0} (j : Internals S DbError) : Type 0 where
  pub answers :
      (from to value : ℕ) (s : S) → (e : Option ℕ) × ((j.transfer from to value s).0 ≡ ok e)

-- What the native transfer answers to the call of the tests, which has one account of zeros as its
-- sender and receiver.
module _ (t : PrecompileTables) (revm : RevmPrecompiles) {S DbError : Type 0} (u : UintOps)
    (j : Internals S DbError) (b : ByteOps) where
  pays_gas :
      (s : S)
      → TransferAnswers j
      → (output : PrecompileOutput) × ((transfer_run u j b (transfer_call gas_cost) s).0
          ≡ ok output)
        × (output.gas_used ≡ gas_cost)
  unfolding transfer_run guards check_and_move move_value
  pays_gas s db =
      let bytes = replicate 96 0 in
      let from = from_of b bytes in
      let same : (from == from) ≡ true = ground arith in
      let (e, moved) = db.answers from from (value_of b bytes) s in
      rw (same, check_and_move, moved) (answered e)
    where
      answered :
          (e : Option ℕ)
          → (output : PrecompileOutput) × (answer {DbError = DbError} (ok e) ≡ ok output)
            × (output.gas_used ≡ gas_cost)
      answered none = (_, refl, refl)
      answered (some _) = (_, refl, refl)

  short_of_gas : (s : S) → (transfer_run u j b (transfer_call (gas_cost - 1)) s).0 ≡ err out_of_gas
  unfolding transfer_run guards check_and_move move_value
  short_of_gas s = refl

  transfer_passes :
      TransferAnswers j
      → (spec : ScrollSpecId) (s : S)
      → if is_enabled_in spec tsuki then Transfers t revm u j b spec s else Unit {0}
  transfer_passes db spec s = elim (Bool-cases (is_enabled_in spec tsuki)) [
    | inl on ↦
        let installed : t.find (inner_for_spec t revm spec) 253 ≡ some (dynamic transfer_id) =
          find-inner_for_spec t revm spec 253 ∙ ground arith in
        rw on (installed, pays_gas s db, short_of_gas s)
    | inr off ↦ rw off tt
  ]

module _ (t : PrecompileTables) (revm : RevmPrecompiles) (costs : ZeroInputCosts revm)
    (g : GasTables) {Rest : Type 0} (ops : CfgOps g.GasParams Rest)
    (effective_cap : CfgEnv g.GasParams Rest → ℕ) where
  -- revm's Shanghai table knows neither EIP-7702 nor EIP-7623, and its configuration without a cap
  -- has the greatest one.
  pub record ShanghaiLaws : Type 0 where
    pub no_eip7702 : g.get (g.new_spec g.eth_shanghai) tx_eip7702_per_empty_account_cost ≡ 0
    pub no_token_floor : g.get (g.new_spec g.eth_shanghai) tx_floor_cost_per_token ≡ 0
    pub no_base_floor : g.get (g.new_spec g.eth_shanghai) tx_floor_cost_base_gas ≡ 0
    pub uncapped :
        (cfg : CfgEnv g.GasParams Rest)
        → effective_cap cfg ≡ (elim cfg.tx_gas_limit_cap [ some cap ↦ cap | none ↦ u64_max ])

  -- Every hardfork matches the plan of the tests: the gas parameters of EIP-7702 from Euclid and of
  -- EIP-7623 from Feynman, the gas cap of EIP-7825 from Tsuki, the precompiles at every address with
  -- their ids, what each costs on an empty input or that it only refuses, and the native transfer
  -- from Tsuki. It holds for every implementation of revm's tables and functions that has their
  -- documented zero-input costs, where Shanghai's table has zeros for the parameters that are
  -- overridden and a transfer's database answers.
  pub new_scroll-MatchesPlan :
      {S DbError : Type 0} (u : UintOps) (j : Internals S DbError) (b : ByteOps)
      → ShanghaiLaws
      → TransferAnswers j
      → (spec : ScrollSpecId) → MatchesPlan t revm g ops effective_cap u j b spec
  unfolding new_scroll
  new_scroll-MatchesPlan u j b table db spec =
      let configured = set_scroll_spec_configures g ops spec (ops.new_with_spec spec) in
      record {
        eip7702_gas = ground (
          arith,
          configured,
          get-new_scroll_spec g spec tx_eip7702_per_empty_account_cost,
          table.no_eip7702,
        );
        eip7623_token_gas = ground (
          arith,
          configured,
          get-new_scroll_spec g spec tx_floor_cost_per_token,
          table.no_token_floor,
        );
        eip7623_base_gas = ground (
          arith,
          configured,
          get-new_scroll_spec g spec tx_floor_cost_base_gas,
          table.no_base_floor,
        );
        eip7825_cap = ground (arith, configured, ops.new-cap spec);
        eip7825_effective_cap =
            ground (arith, configured, ops.new-cap spec, table.uncapped (new_scroll g ops spec));
        addresses_and_ids = installed-expected t revm spec;
        calls = λ a.
            elem-All (Passes t revm costs spec) a (expected_precompile_addresses spec)
              (listed_pass t revm costs spec);
        native_transfer = transfer_passes t revm u j b db spec;
      }

-- ===== src/Builder.antt =====
-- src/builder.rs: the configuration of a hardfork.
use dogeos_revm.Prelude.{ℕ, ◌≡◌, Bool, ◌&&◌, Option, none, some, if◌then◌else◌}
use dogeos_revm.Spec.{ScrollSpecId, tsuki, is_enabled_in}
use dogeos_revm.Gas.{GasTables, new_scroll_spec}
pub mod Config
pub mod History

-- What is used of revm's `CfgEnv`: `rest` stands for the fields that are never touched here.
pub record CfgEnv (GasParams Rest : Type 0) : Type 0 where
  pub spec : ScrollSpecId
  pub gas_params : GasParams
  pub tx_gas_limit_cap : Option ℕ
  pub rest : Rest

-- revm's constructor and setter, and the cap of EIP-7825. A new configuration has no cap.
pub record CfgOps (GasParams Rest : Type 0) : Type 0 where
  pub new_with_spec : ScrollSpecId → CfgEnv GasParams Rest
  pub set_gas_params : GasParams → CfgEnv GasParams Rest → CfgEnv GasParams Rest
  pub eip7825_cap : ℕ
  pub new-cap : (s : ScrollSpecId) → (new_with_spec s).tx_gas_limit_cap ≡ none
  pub set_gas_params-spec :
      (g : GasParams) (c : CfgEnv GasParams Rest) → (set_gas_params g c).spec ≡ c.spec
  pub set_gas_params-gas :
      (g : GasParams) (c : CfgEnv GasParams Rest) → (set_gas_params g c).gas_params ≡ g
  pub set_gas_params-cap :
      (g : GasParams) (c : CfgEnv GasParams Rest)
      → (set_gas_params g c).tx_gas_limit_cap ≡ c.tx_gas_limit_cap

abbrev pub is_none : Option ℕ → Bool
is_none none = Bool.true
is_none (some _) = Bool.false

module _ (t : GasTables) {Rest : Type 0} (ops : CfgOps t.GasParams Rest) where
  -- `ScrollCfgExt::set_scroll_spec`
  unfoldable pub set_scroll_spec : ScrollSpecId → CfgEnv t.GasParams Rest → CfgEnv t.GasParams Rest
  unfolding is_enabled_in new_scroll_spec
  set_scroll_spec spec self =
      let self' = ops.set_gas_params (new_scroll_spec t spec) (record self { spec = spec }) in
      if is_enabled_in spec tsuki && is_none self'.tx_gas_limit_cap
      then record self' { tx_gas_limit_cap = some ops.eip7825_cap }
      else self'

  -- `ScrollCfgExt::new_scroll`
  unfoldable pub new_scroll : ScrollSpecId → CfgEnv t.GasParams Rest
  unfolding set_scroll_spec
  new_scroll spec = set_scroll_spec spec (ops.new_with_spec spec)

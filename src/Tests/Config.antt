-- ===== src/Tests/Config.antt =====
-- Gas parameters and configurations over concrete tables.
use dogeos_revm.Prelude.{ℕ, ◌≡◌, refl, [], ◌∷◌, none, some, if◌then◌else◌}
use dogeos_revm.Spec.{ScrollSpecId, feynman, tsuki}
use dogeos_revm.Gas.{GasId, tx_floor_cost_base_gas, last_override, GasTables}
use dogeos_revm.Gas.Overrides.{planned_gas}
use dogeos_revm.Builder.{CfgEnv, CfgOps, new_scroll}
use dogeos_revm.Builder.History.{reached_tsuki, set_scroll_specs, configured_history}

-- Parameters are functions of their ids; Shanghai's are all 7.
abbrev pub gas_tables : GasTables
gas_tables = record {
  GasParams = GasId → ℕ;
  SpecId = Unit {0};
  eth_shanghai = tt;
  new_spec = λ spec id. 7;
  override_gas = λ os p id. last_override os id (p id);
  get = λ p id. p id;
  per_empty_account_cost = 25_000;
  per_auth_base_cost = 12_500;
  total_cost_floor_per_token = 10;
  get-override_gas = λ os p id. refl;
}

abbrev pub plain_cfg : ScrollSpecId → CfgEnv (GasId → ℕ) (Unit {0})
plain_cfg spec = record { spec = spec; gas_params = λ id. 0; tx_gas_limit_cap = none; rest = tt }

abbrev pub cfg_ops : CfgOps (GasId → ℕ) (Unit {0})
cfg_ops = record {
  new_with_spec = plain_cfg;
  set_gas_params = λ g c. record c { gas_params = g };
  eip7825_cap = 16_777_216;
  new-cap = λ s. refl;
  set_gas_params-spec = λ g c. refl;
  set_gas_params-gas = λ g c. refl;
  set_gas_params-cap = λ g c. refl;
}

-- From Feynman to Tsuki and back to Feynman.
configured_history_example :
    let cfg =
      set_scroll_specs gas_tables cfg_ops
        (tsuki ∷ feynman ∷ [])
        (new_scroll gas_tables cfg_ops feynman) in
    (cfg.spec ≡ feynman)
    × (cfg.gas_params tx_floor_cost_base_gas
        ≡ planned_gas gas_tables feynman tx_floor_cost_base_gas)
    × (cfg.tx_gas_limit_cap
        ≡ (if reached_tsuki feynman (tsuki ∷ feynman ∷ []) then some 16_777_216 else none))
configured_history_example =
    configured_history gas_tables cfg_ops feynman (tsuki ∷ feynman ∷ []) tx_floor_cost_base_gas

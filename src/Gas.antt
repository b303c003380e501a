-- ===== src/Gas.antt =====
-- src/gas.rs: the gas parameters of each hardfork, over revm's table of gas parameters.
use dogeos_revm.Prelude.{ℕ, ◌+◌, ◌-◌, ◌≡◌, Bool, List, [], ◌∷◌, ◌==◌, if◌then◌else◌}
use dogeos_revm.Spec.{ScrollSpecId, euclid, feynman, is_enabled_in, into_eth_spec_id}
pub mod Overrides
pub mod Refund

-- The gas ids that are overridden, and any other by its number.
pub data GasId : Type 0 where
  tx_eip7702_per_empty_account_cost tx_eip7702_auth_refund : GasId
  tx_floor_cost_per_token tx_floor_cost_base_gas : GasId
  other_id : ℕ → GasId

abbrev pub id_code : GasId → ℕ
id_code tx_eip7702_per_empty_account_cost = 0
id_code tx_eip7702_auth_refund = 1
id_code tx_floor_cost_per_token = 2
id_code tx_floor_cost_base_gas = 3
id_code (other_id n) = n + 4

-- The last override of an id, or else what stood there.
abbrev pub last_override : List (GasId × ℕ) → GasId → ℕ → ℕ
last_override [] id cost = cost
last_override ((i, v) ∷ rest) id cost =
    last_override rest id (if id_code i == id_code id then v else cost)

-- revm's `GasParams` and the constants that are taken from it.
pub record GasTables : Type 1 where
  pub GasParams : Type 0
  pub SpecId : Type 0
  pub eth_shanghai : SpecId
  pub new_spec : SpecId → GasParams
  pub override_gas : List (GasId × ℕ) → GasParams → GasParams
  pub get : GasParams → GasId → ℕ
  pub per_empty_account_cost : ℕ
  pub per_auth_base_cost : ℕ
  pub total_cost_floor_per_token : ℕ
  pub get-override_gas :
      (os : List (GasId × ℕ)) (p : GasParams) (id : GasId)
      → get (override_gas os p) id ≡ last_override os id (get p id)

module _ (t : GasTables) where
  open t use {GasParams, override_gas}

  -- `GasParams::new_scroll_spec`
  unfoldable pub new_scroll_spec : ScrollSpecId → GasParams
  unfolding is_enabled_in into_eth_spec_id
  new_scroll_spec spec =
      let baseline = t.new_spec (into_eth_spec_id t.eth_shanghai spec) in
      let with_eip7702 =
        if is_enabled_in spec euclid
        then override_gas
            ((tx_eip7702_per_empty_account_cost, t.per_empty_account_cost)
              ∷ (tx_eip7702_auth_refund, t.per_empty_account_cost - t.per_auth_base_cost)
              ∷ [])
            baseline
        else baseline in
      if is_enabled_in spec feynman
      then override_gas
          ((tx_floor_cost_per_token, t.total_cost_floor_per_token)
            ∷ (tx_floor_cost_base_gas, 21_000)
            ∷ [])
          with_eip7702
      else with_eip7702

-- ===== src/Gas/Overrides.antt =====
-- src/gas.rs: which parameters differ from revm's Shanghai table, and from when.
use dogeos_revm.Prelude.{ℕ, ◌-◌, ◌≡◌, List, [], ◌∷◌, if◌then◌else◌, arith}
use dogeos_revm.Spec.{ScrollSpecId, euclid, feynman, is_enabled_in}
use dogeos_revm.Spec.Baseline.{into_eth_spec_id-eq}
use dogeos_revm.Gas.{
  GasId, tx_eip7702_per_empty_account_cost, tx_eip7702_auth_refund, tx_floor_cost_per_token,
  tx_floor_cost_base_gas, other_id, GasTables, new_scroll_spec,
}

module _ (t : GasTables) where
  abbrev euclid_overrides : List (GasId × ℕ)
  euclid_overrides =
      (tx_eip7702_per_empty_account_cost, t.per_empty_account_cost)
      ∷ (tx_eip7702_auth_refund, t.per_empty_account_cost - t.per_auth_base_cost)
      ∷ []

  abbrev feynman_overrides : List (GasId × ℕ)
  feynman_overrides =
      (tx_floor_cost_per_token, t.total_cost_floor_per_token)
      ∷ (tx_floor_cost_base_gas, 21_000)
      ∷ []

  -- The plan: the two EIP-7702 parameters from Euclid, the two EIP-7623 parameters from Feynman.
  abbrev pub planned_gas : ScrollSpecId → GasId → ℕ
  planned_gas spec tx_eip7702_per_empty_account_cost =
      if is_enabled_in spec euclid
      then t.per_empty_account_cost
      else t.get (t.new_spec t.eth_shanghai) tx_eip7702_per_empty_account_cost
  planned_gas spec tx_eip7702_auth_refund =
      if is_enabled_in spec euclid
      then t.per_empty_account_cost - t.per_auth_base_cost
      else t.get (t.new_spec t.eth_shanghai) tx_eip7702_auth_refund
  planned_gas spec tx_floor_cost_per_token =
      if is_enabled_in spec feynman
      then t.total_cost_floor_per_token
      else t.get (t.new_spec t.eth_shanghai) tx_floor_cost_per_token
  planned_gas spec tx_floor_cost_base_gas =
      if is_enabled_in spec feynman
      then 21_000
      else t.get (t.new_spec t.eth_shanghai) tx_floor_cost_base_gas
  planned_gas spec (other_id n) = t.get (t.new_spec t.eth_shanghai) (other_id n)

  -- Every gas parameter of every hardfork is revm's Shanghai value, but for the two of EIP-7702
  -- from Euclid and the two of EIP-7623 from Feynman, which have Scroll's values.
  pub get-new_scroll_spec :
      (spec : ScrollSpecId) (id : GasId) → t.get (new_scroll_spec t spec) id ≡ planned_gas spec id
  unfolding new_scroll_spec
  get-new_scroll_spec spec id = ground (
    arith,
    into_eth_spec_id-eq t.eth_shanghai spec,
    t.get-override_gas euclid_overrides (t.new_spec t.eth_shanghai) id,
    t.get-override_gas feynman_overrides (t.new_spec t.eth_shanghai) id,
    t.get-override_gas feynman_overrides
        (t.override_gas euclid_overrides (t.new_spec t.eth_shanghai)) id,
  )

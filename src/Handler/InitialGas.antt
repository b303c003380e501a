-- ===== src/Handler/InitialGas.antt =====
-- src/handler.rs: `validate_initial_tx_gas`, over revm's `initial_tx_gas`.
use mathlib.Core.List.{foldl}
use dogeos_revm.Prelude.{
  ℕ, ◌+◌, ◌≤◌, ◌≡◌, ◌⊎◌, Bool, true, false, not, ◌&&◌, ◌||◌, List, [], ◌∷◌, Option, none, some, ltb,
  ◌==◌, if◌then◌else◌, length, Result, ok, err, ◌>>=◌, ◌>>◌, fail_if, arith, refl, inl, inr,
}
use dogeos_revm.Spec.{feynman, is_enabled_in}
use dogeos_revm.Transaction.{
  ScrollTransaction, AccessListItem, tx_type, gas_limit, input, kind, is_create, access_list,
  authorization_list_len,
}
use dogeos_revm.Handler.{
  InvalidTransaction, call_gas_cost_more_than_gas_limit, gas_floor_more_than_gas_limit, Cfg,
}
pub mod Floor

-- `InitialAndFloorGas`
pub record InitialAndFloorGas : Type 0 where
  pub initial_gas : ℕ
  pub floor_gas : ℕ

-- The fold over the access list.
abbrev pub count_item : ℕ × ℕ → AccessListItem → ℕ × ℕ
count_item (num_accounts, num_storage_slots) item =
    (num_accounts + 1, num_storage_slots + length item.storage_slots)

-- `.map(|al| al.fold(…)).unwrap_or_default()`
abbrev pub fold_items : Option (List AccessListItem) → ℕ × ℕ
fold_items none = (0, 0)
fold_items (some items) = foldl count_item (0, 0) items

unfoldable pub access_list_counts : ScrollTransaction → ℕ × ℕ
access_list_counts tx = if not (tx_type tx == 0) then fold_items (access_list tx) else (0, 0)

-- `gas_params().initial_tx_gas`: of the input, whether it creates, the numbers of accounts, storage
-- slots and authorizations.
abbrev pub InitialTxGas : Type 0
InitialTxGas = List ℕ → Bool → ℕ → ℕ → ℕ → InitialAndFloorGas

module _ (initial_tx_gas : InitialTxGas) (cfg : Cfg) (tx : ScrollTransaction) where
  abbrev pub configured_gas : InitialAndFloorGas
  configured_gas =
      let (accounts, storages) = access_list_counts tx in
      initial_tx_gas (input tx) (is_create (kind tx)) accounts storages (authorization_list_len tx)

  abbrev pub floored_gas : InitialAndFloorGas → InitialAndFloorGas
  floored_gas gas =
      if cfg.is_eip7623_disabled || not (is_enabled_in cfg.spec feynman)
      then record gas { floor_gas = 0 }
      else gas

  -- `validate_initial_tx_gas`
  unfoldable pub validate_initial_tx_gas : Result InvalidTransaction InitialAndFloorGas
  unfolding access_list_counts is_enabled_in
  validate_initial_tx_gas = do
    let gas = floored_gas configured_gas
    fail_if (ltb (gas_limit tx) gas.initial_gas)
        (call_gas_cost_more_than_gas_limit (gas_limit tx) gas.initial_gas)
    fail_if (is_enabled_in cfg.spec feynman && ltb (gas_limit tx) gas.floor_gas)
        (gas_floor_more_than_gas_limit gas.floor_gas (gas_limit tx))
    ok gas

-- ===== src/Handler/InitialGas/Floor.antt =====
-- src/handler.rs: what `validate_initial_tx_gas` lets through and returns.
use mathlib.Core.List.{foldl}
use dogeos_revm.Prelude.{
  ℕ, ◌+◌, ◌≤◌, ◌<◌, ◌≡◌, ◌⊎◌, true, not, ◌&&◌, List, [], ◌∷◌, Option, none, some, ◌==◌,
  if◌then◌else◌, length, ok, err, arith, refl, ◌∙◌,
}
use dogeos_revm.Spec.{feynman, is_enabled_in}
use dogeos_revm.Transaction.{ScrollTransaction, AccessListItem, tx_type, gas_limit, access_list}
use dogeos_revm.Handler.{call_gas_cost_more_than_gas_limit, gas_floor_more_than_gas_limit, Cfg}
use dogeos_revm.Handler.InitialGas.{
  InitialTxGas, count_item, fold_items, access_list_counts, configured_gas, validate_initial_tx_gas,
}

abbrev pub slots_of : List AccessListItem → ℕ
slots_of [] = 0
slots_of (item ∷ items) = length item.storage_slots + slots_of items

foldl-count_item :
    (a b : ℕ) (items : List AccessListItem)
    → foldl count_item (a, b) items ≡ (a + length items, b + slots_of items)
foldl-count_item a b [] = ground arith
foldl-count_item a b (item ∷ items) =
    foldl-count_item (a + 1) (b + length item.storage_slots) items ∙ ground arith

-- The accounts of an access list, and all their slots.
abbrev pub counted : Option (List AccessListItem) → ℕ × ℕ
counted none = (0, 0)
counted (some items) = (length items, slots_of items)

fold_items-counted : (al : Option (List AccessListItem)) → fold_items al ≡ counted al
fold_items-counted none = refl
fold_items-counted (some items) = foldl-count_item 0 0 items ∙ ground arith

-- The access list of a transaction that has one is counted by its accounts and by all their
-- slots; a legacy transaction counts as having none.
access_list_counts_lem :
    (tx : ScrollTransaction)
    → access_list_counts tx ≡ (if tx_type tx == 0 then (0, 0) else counted (access_list tx))
unfolding access_list_counts
access_list_counts_lem tx = ground (arith, fold_items-counted (access_list tx))

module _ (initial_tx_gas : InitialTxGas) (cfg : Cfg) (tx : ScrollTransaction) where
  -- A transaction passes with its gas limit at least the initial gas and the floor, and the gas
  -- returned is the configured one, except that the floor is zero before Feynman and where
  -- EIP-7623 is switched off; a limit below the initial gas is the first error, and one below the
  -- floor the second, which occurs from Feynman only. Both errors carry the two numbers.
  pub validate_initial_tx_gas_cases :
      let configured = configured_gas initial_tx_gas cfg tx in
      let floor =
        if not cfg.is_eip7623_disabled && is_enabled_in cfg.spec feynman
        then configured.floor_gas
        else 0 in
      let result = validate_initial_tx_gas initial_tx_gas cfg tx in
      ((configured.initial_gas ≤ gas_limit tx)
        × (floor ≤ gas_limit tx)
        × (result ≡ ok (record configured { floor_gas = floor })))
      ⊎ ((gas_limit tx < configured.initial_gas)
          × (result
              ≡ err (call_gas_cost_more_than_gas_limit (gas_limit tx) configured.initial_gas)))
      ⊎ ((configured.initial_gas ≤ gas_limit tx)
          × (gas_limit tx < floor)
          × (is_enabled_in cfg.spec feynman ≡ true)
          × (result ≡ err (gas_floor_more_than_gas_limit floor (gas_limit tx))))
  unfolding validate_initial_tx_gas
  validate_initial_tx_gas_cases = ground arith

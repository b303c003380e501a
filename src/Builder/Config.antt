-- ===== src/Builder/Config.antt =====
-- src/builder.rs: what the configuration of a hardfork holds.
use dogeos_revm.Prelude.{ℕ, ◌≡◌, Option, none, some, if◌then◌else◌, arith}
use dogeos_revm.Spec.{ScrollSpecId, tsuki, is_enabled_in}
use dogeos_revm.Gas.{GasTables, new_scroll_spec}
use dogeos_revm.Builder.{CfgEnv, CfgOps, set_scroll_spec}

-- The cap after `set_scroll_spec`: a cap that was set stays, whichever hardfork is chosen, and
-- without one the cap of EIP-7825 is set from Tsuki.
abbrev pub cap_after : ℕ → ScrollSpecId → Option ℕ → Option ℕ
cap_after eip7825_cap spec (some cap) = some cap
cap_after eip7825_cap spec none = if is_enabled_in spec tsuki then some eip7825_cap else none

module _ (t : GasTables) {Rest : Type 0} (ops : CfgOps t.GasParams Rest) where
  -- Setting a hardfork puts the hardfork and its gas parameters in place, whatever the
  -- configuration was, and the transaction gas cap of EIP-7825 from Tsuki only where no cap was
  -- set before: a cap is never replaced and, on a change to an earlier hardfork, never removed.
  pub set_scroll_spec_configures :
      (spec : ScrollSpecId) (cfg : CfgEnv t.GasParams Rest)
      → let cfg' = set_scroll_spec t ops spec cfg in
        (cfg'.spec ≡ spec)
        × (cfg'.gas_params ≡ new_scroll_spec t spec)
        × (cfg'.tx_gas_limit_cap ≡ cap_after ops.eip7825_cap spec cfg.tx_gas_limit_cap)
  unfolding set_scroll_spec
  set_scroll_spec_configures spec cfg = ground (
    arith,
    ops.set_gas_params-spec (new_scroll_spec t spec) (record cfg { spec = spec }),
    ops.set_gas_params-gas (new_scroll_spec t spec) (record cfg { spec = spec }),
    ops.set_gas_params-cap (new_scroll_spec t spec) (record cfg { spec = spec }),
  )

-- ===== src/Builder/History.antt =====
-- src/builder.rs: a configuration over its life, through any sequence of `set_scroll_spec`.
use dogeos_revm.Prelude.{
  ℕ, ◌≡◌, Bool, true, false, ◌||◌, List, [], ◌∷◌, Option, none, some, if◌then◌else◌, arith, ◌∙◌, ap,
}
use dogeos_revm.Spec.{ScrollSpecId, tsuki, is_enabled_in}
use dogeos_revm.Gas.{GasId, GasTables, new_scroll_spec}
use dogeos_revm.Gas.Overrides.{planned_gas, get-new_scroll_spec}
use dogeos_revm.Builder.{CfgEnv, CfgOps, set_scroll_spec, new_scroll}
use dogeos_revm.Builder.Config.{cap_after, set_scroll_spec_configures}

-- The hardfork after a sequence of them, and whether Tsuki was ever reached.
abbrev pub latest : ScrollSpecId → List ScrollSpecId → ScrollSpecId
latest spec [] = spec
latest spec (s ∷ specs) = latest s specs

abbrev pub reached_tsuki : ScrollSpecId → List ScrollSpecId → Bool
reached_tsuki spec [] = is_enabled_in spec tsuki
reached_tsuki spec (s ∷ specs) = is_enabled_in spec tsuki || reached_tsuki s specs

module _ (t : GasTables) {Rest : Type 0} (ops : CfgOps t.GasParams Rest) where
  unfoldable pub set_scroll_specs :
      List ScrollSpecId → CfgEnv t.GasParams Rest → CfgEnv t.GasParams Rest
  unfolding set_scroll_spec
  set_scroll_specs [] cfg = cfg
  set_scroll_specs (spec ∷ specs) cfg = set_scroll_specs specs (set_scroll_spec t ops spec cfg)

  -- A configuration that is set up for a hardfork, with a given cap.
  record IsSetUp (spec : ScrollSpecId) (cap : Option ℕ) (cfg : CfgEnv t.GasParams Rest)
      : Type 0 where
    has_spec : cfg.spec ≡ spec
    has_gas : cfg.gas_params ≡ new_scroll_spec t spec
    has_cap : cfg.tx_gas_limit_cap ≡ cap

  set_scroll_spec-IsSetUp :
      (spec : ScrollSpecId) (cap : Option ℕ) (cfg : CfgEnv t.GasParams Rest)
      → cfg.tx_gas_limit_cap ≡ cap
      → IsSetUp spec (cap_after ops.eip7825_cap spec cap) (set_scroll_spec t ops spec cfg)
  set_scroll_spec-IsSetUp spec cap cfg e =
      let (s, g, c) = set_scroll_spec_configures t ops spec cfg in
      record { has_spec = s; has_gas = g; has_cap = c ∙ ap (cap_after ops.eip7825_cap spec) e }

  -- The cap after a sequence of hardforks.
  abbrev cap_of : Bool → Option ℕ
  cap_of true = some ops.eip7825_cap
  cap_of false = none

  set_scroll_specs-IsSetUp :
      (spec : ScrollSpecId) (specs : List ScrollSpecId) (cfg : CfgEnv t.GasParams Rest)
      (reached : Bool)
      → IsSetUp spec (cap_of (reached || is_enabled_in spec tsuki)) cfg
      → IsSetUp
          (latest spec specs)
          (cap_of (reached || reached_tsuki spec specs))
          (set_scroll_specs specs cfg)
  unfolding set_scroll_specs
  set_scroll_specs-IsSetUp spec [] cfg reached up = up
  set_scroll_specs-IsSetUp spec (s ∷ specs) cfg reached up =
      let next = set_scroll_spec-IsSetUp s _ cfg up.has_cap in
      let rest =
        set_scroll_specs-IsSetUp s specs (set_scroll_spec t ops s cfg)
          (reached || is_enabled_in spec tsuki)
          (record {
            has_spec = next.has_spec;
            has_gas = next.has_gas;
            has_cap = ground (arith, next.has_cap);
          }) in
      record {
        has_spec = rest.has_spec;
        has_gas = rest.has_gas;
        has_cap = ground (arith, rest.has_cap);
      }

  -- A configuration made for a hardfork and then set to any sequence of them is, at the end, the one
  -- of the last: its hardfork and every gas parameter, which is revm's Shanghai value but for the two
  -- of EIP-7702 from Euclid and the two of EIP-7623 from Feynman. Only the transaction gas cap
  -- remembers: it is the cap of EIP-7825 exactly when a hardfork of the sequence was Tsuki or later,
  -- the last one or an earlier one, and otherwise there is none.
  pub configured_history :
      (spec : ScrollSpecId) (specs : List ScrollSpecId) (id : GasId)
      → let cfg = set_scroll_specs specs (new_scroll t ops spec) in
        (cfg.spec ≡ latest spec specs)
        × (t.get cfg.gas_params id ≡ planned_gas t (latest spec specs) id)
        × (cfg.tx_gas_limit_cap ≡ (if reached_tsuki spec specs then some ops.eip7825_cap else none))
  unfolding new_scroll
  configured_history spec specs id =
      let first = set_scroll_spec-IsSetUp spec none (ops.new_with_spec spec) (ops.new-cap spec) in
      let up = set_scroll_specs-IsSetUp spec specs (new_scroll t ops spec) false (record {
        has_spec = first.has_spec;
        has_gas = first.has_gas;
        has_cap = ground (arith, first.has_cap);
      }) in
      (
        up.has_spec,
        ap (λ g. t.get g id) up.has_gas ∙ get-new_scroll_spec t (latest spec specs) id,
        ground (arith, up.has_cap),
      )

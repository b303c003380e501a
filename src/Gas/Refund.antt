-- ===== src/Gas/Refund.antt =====
-- src/gas.rs, its module `tests`: the refund of an authorization, by hardfork.
use dogeos_revm.Prelude.{◌-◌, ◌≡◌, true, refl, List, [], ◌∷◌, arith}
use dogeos_revm.Spec.{
  ScrollSpecId, darwin, euclid, feynman, galileo, tsuki, tsuki_v2, is_enabled_in,
}
use dogeos_revm.Gas.{
  GasTables, new_scroll_spec, tx_eip7702_auth_refund, tx_eip7702_per_empty_account_cost,
}
use dogeos_revm.Gas.Overrides.{get-new_scroll_spec}

module _ (t : GasTables) where
  -- The assertions in the loop of `test_eip7702_auth_refund_per_spec`.
  pub record RefundsAuthority (spec : ScrollSpecId) : Type 0 where
    pub refund_is_delta :
        t.get (new_scroll_spec t spec) tx_eip7702_auth_refund
        ≡ t.per_empty_account_cost - t.per_auth_base_cost
    pub refund : t.get (new_scroll_spec t spec) tx_eip7702_auth_refund ≡ 12_500
    pub per_empty_account :
        t.get (new_scroll_spec t spec) tx_eip7702_per_empty_account_cost ≡ 25_000

  -- The hardforks of that loop.
  abbrev refunding_specs : List ScrollSpecId
  refunding_specs = euclid ∷ feynman ∷ galileo ∷ tsuki ∷ tsuki_v2 ∷ []

  abbrev pub AllRefund : List ScrollSpecId → Type 0
  AllRefund [] = Unit {0}
  AllRefund (spec ∷ specs) = RefundsAuthority spec × AllRefund specs

  -- `test_eip7702_auth_refund_per_spec`
  pub record RefundPerSpec : Type 0 where
    pub none_before_euclid : t.get (new_scroll_spec t darwin) tx_eip7702_auth_refund ≡ 0
    pub from_euclid : AllRefund refunding_specs

  -- revm's constants, and its Shanghai table, which knows no refund for an authorization.
  pub record RefundLaws : Type 0 where
    pub empty_cost : t.per_empty_account_cost ≡ 25_000
    pub base_cost : t.per_auth_base_cost ≡ 12_500
    pub no_refund : t.get (t.new_spec t.eth_shanghai) tx_eip7702_auth_refund ≡ 0

  module _ (laws : RefundLaws) where
    spec-RefundsAuthority :
        (spec : ScrollSpecId) → is_enabled_in spec euclid ≡ true → RefundsAuthority spec
    spec-RefundsAuthority spec on = record {
      refund_is_delta = ground (arith, get-new_scroll_spec t spec tx_eip7702_auth_refund);
      refund = ground (
        arith,
        laws.empty_cost,
        laws.base_cost,
        get-new_scroll_spec t spec tx_eip7702_auth_refund,
      );
      per_empty_account =
          ground
            (arith, laws.empty_cost, get-new_scroll_spec t spec tx_eip7702_per_empty_account_cost);
    }

    new_scroll_spec-RefundPerSpec : RefundPerSpec
    unfolding is_enabled_in
    new_scroll_spec-RefundPerSpec = record {
      none_before_euclid =
          ground (arith, laws.no_refund, get-new_scroll_spec t darwin tx_eip7702_auth_refund);
      from_euclid = (
        spec-RefundsAuthority euclid refl,
        (
          spec-RefundsAuthority feynman refl,
          (
            spec-RefundsAuthority galileo refl,
            (spec-RefundsAuthority tsuki refl, (spec-RefundsAuthority tsuki_v2 refl, tt)),
          ),
        ),
      );
    }

-- ===== src/Spec/Baseline.antt =====
-- src/spec.rs: the Ethereum baseline of the hardforks.
use dogeos_revm.Prelude.{◌≡◌, refl}
use dogeos_revm.Spec.{ScrollSpecId, shanghai, into_eth_spec_id}

-- Every hardfork has Shanghai as its baseline.
pub into_eth_spec_id-eq :
    {SpecId : Type 0} (eth_shanghai : SpecId) (spec : ScrollSpecId)
    → into_eth_spec_id eth_shanghai spec ≡ eth_shanghai
unfolding into_eth_spec_id
into_eth_spec_id-eq e shanghai = refl
into_eth_spec_id-eq e _ = refl

-- ===== src/Spec.antt =====
-- src/spec.rs: the Scroll hardforks, their order, their Ethereum baseline and their names.
use dogeos_revm.Prelude.{ℕ, String, Bool, leb, if◌then◌else◌, Result, ok, err, Option}
use text.Mathlib.Text.{◌==◌ as str_eq}
pub mod Order
pub mod Names
pub mod Documented
pub mod Baseline

-- `ScrollSpecId`
pub data ScrollSpecId : Type 0 where
  shanghai bernoulli curie darwin euclid feynman galileo tsuki tsuki_v2 : ScrollSpecId

-- `spec as u8`
unfoldable pub discriminant : ScrollSpecId → ℕ
discriminant shanghai = 1
discriminant bernoulli = 2
discriminant curie = 3
discriminant darwin = 4
discriminant euclid = 5
discriminant feynman = 6
discriminant galileo = 7
discriminant tsuki = 8
discriminant tsuki_v2 = 9

-- `ScrollSpecId::default`
abbrev pub default : ScrollSpecId
default = tsuki_v2

-- `ScrollSpecId::try_from_u8`, over the function `n` that the derive macro of `enumn` generates.
unfoldable pub try_from_u8 : (ℕ → Option ScrollSpecId) → ℕ → Option ScrollSpecId
try_from_u8 n spec_id = n spec_id

-- `ScrollSpecId::enabled`
unfoldable pub enabled : ScrollSpecId → ScrollSpecId → Bool
unfolding discriminant
enabled our other = leb (discriminant other) (discriminant our)

-- `ScrollSpecId::is_enabled_in`
unfoldable pub is_enabled_in : ScrollSpecId → ScrollSpecId → Bool
unfolding enabled
is_enabled_in self other = enabled self other

-- `into_eth_spec_id`, over revm's `SpecId` and its `SHANGHAI`.
unfoldable pub into_eth_spec_id : {SpecId : Type 0} → SpecId → ScrollSpecId → SpecId
into_eth_spec_id eth_shanghai shanghai = eth_shanghai
into_eth_spec_id eth_shanghai bernoulli = eth_shanghai
into_eth_spec_id eth_shanghai curie = eth_shanghai
into_eth_spec_id eth_shanghai darwin = eth_shanghai
into_eth_spec_id eth_shanghai euclid = eth_shanghai
into_eth_spec_id eth_shanghai feynman = eth_shanghai
into_eth_spec_id eth_shanghai galileo = eth_shanghai
into_eth_spec_id eth_shanghai tsuki = eth_shanghai
into_eth_spec_id eth_shanghai tsuki_v2 = eth_shanghai

-- `impl From<ScrollSpecId> for SpecId`
unfoldable pub eth_spec_id_from : {SpecId : Type 0} → SpecId → ScrollSpecId → SpecId
unfolding into_eth_spec_id
eth_spec_id_from eth_shanghai spec_id = into_eth_spec_id eth_shanghai spec_id

pub data UnknownHardfork : Type 0 where
  unknown_hardfork : UnknownHardfork

-- `impl From<ScrollSpecId> for &'static str`, over revm's `name::SHANGHAI`.
unfoldable pub name : String → ScrollSpecId → String
name shanghai_name shanghai = shanghai_name
name shanghai_name bernoulli = "bernoulli"
name shanghai_name curie = "curie"
name shanghai_name darwin = "darwin"
name shanghai_name euclid = "euclid"
name shanghai_name feynman = "feynman"
name shanghai_name galileo = "galileo"
name shanghai_name tsuki = "tsuki"
name shanghai_name tsuki_v2 = "tsukiV2"

-- `FromStr for ScrollSpecId`
unfoldable pub from_str : String → String → Result UnknownHardfork ScrollSpecId
from_str shanghai_name s =
    if str_eq s shanghai_name
    then ok shanghai
    else if str_eq s "bernoulli"
    then ok bernoulli
    else if str_eq s "curie"
    then ok curie
    else if str_eq s "darwin"
    then ok darwin
    else if str_eq s "euclid"
    then ok euclid
    else if str_eq s "feynman"
    then ok feynman
    else if str_eq s "galileo"
    then ok galileo
    else if str_eq s "tsuki"
    then ok tsuki
    else if str_eq s "tsukiV2"
    then ok tsuki_v2
    else err unknown_hardfork

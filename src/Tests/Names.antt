-- ===== src/Tests/Names.antt =====
-- Hardforks and their names at concrete inputs.
use text.Mathlib.TextEquality.{eq_iff}
use dogeos_revm.Prelude.{◌≡◌, ◌↔◌, ok, arith}
use dogeos_revm.Spec.{tsuki_v2, name, from_str}
use dogeos_revm.Spec.Names.{IsOwnName, from_str_iff_name}

shanghai-IsOwnName : IsOwnName "Shanghai"
shanghai-IsOwnName = record {
  not_bernoulli = ground (arith, eq_iff "bernoulli" "Shanghai");
  not_curie = ground (arith, eq_iff "curie" "Shanghai");
  not_darwin = ground (arith, eq_iff "darwin" "Shanghai");
  not_euclid = ground (arith, eq_iff "euclid" "Shanghai");
  not_feynman = ground (arith, eq_iff "feynman" "Shanghai");
  not_galileo = ground (arith, eq_iff "galileo" "Shanghai");
  not_tsuki = ground (arith, eq_iff "tsuki" "Shanghai");
  not_tsuki_v2 = ground (arith, eq_iff "tsukiV2" "Shanghai");
}

from_str_iff_name_example :
    (from_str "Shanghai" "tsukiV2" ≡ ok tsuki_v2) ↔ ("tsukiV2" ≡ name "Shanghai" tsuki_v2)
from_str_iff_name_example = from_str_iff_name "Shanghai" "tsukiV2" tsuki_v2 shanghai-IsOwnName

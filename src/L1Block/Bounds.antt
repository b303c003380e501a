-- ===== src/L1Block/Bounds.antt =====
-- src/l1block.rs: what the cap on the rollup fee changes from Galileo to Tsuki.
use dogeos_revm.Prelude.{ℕ, err, ◌>>=◌, refl, Result, ◌≡◌, min, Option, List, ok, map_ok, arith}
use dogeos_revm.Uint.{UintOps}
use dogeos_revm.Spec.{galileo, tsuki, tsuki_v2}
use dogeos_revm.L1Block.{L1BlockInfo, L1FeeError, u64_max, u96_max}
use dogeos_revm.L1Block.Cost.{uncapped_tx_l1_cost, try_calculate_tx_l1_cost}

recap :
    (r : Result L1FeeError ℕ)
    → (r >>= λ c. ok (min c u64_max)) ≡ map_ok (λ c. min c u64_max) (r >>= λ c. ok (min c u96_max))
recap (ok c) = ground arith
recap (err e) = refl

-- The only change of the fee from Galileo to Tsuki is the cap: at equal inputs the two specs fail
-- alike, and Galileo's fee is Tsuki's cut off at 64 bits. TsukiV2 charges what Tsuki charges.
galileo_fee_from_tsuki :
    (u : UintOps) (info : L1BlockInfo) (input : List ℕ) (ratio size : Option ℕ)
    → (try_calculate_tx_l1_cost u info input galileo ratio size
        ≡ map_ok (λ c. min c u64_max) (try_calculate_tx_l1_cost u info input tsuki ratio size))
      × (try_calculate_tx_l1_cost u info input tsuki_v2 ratio size
          ≡ try_calculate_tx_l1_cost u info input tsuki ratio size)
unfolding try_calculate_tx_l1_cost
galileo_fee_from_tsuki u info input ratio size =
    (recap (uncapped_tx_l1_cost u info input tsuki ratio size), refl)

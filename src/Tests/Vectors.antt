-- ===== src/Tests/Vectors.antt =====
-- What the test modules of src/l1block.rs and src/spec.rs list, put to the definitions.
use dogeos_revm.Prelude.{ℕ, ◌≡◌, List, [], ◌∷◌, some, ok, err, map, replicate, refl}
use dogeos_revm.Uint.{native}
use dogeos_revm.Spec.{from_str, unknown_hardfork}
use dogeos_revm.Spec.Documented.{unknown_names}
use dogeos_revm.L1Block.{L1BlockInfo, empty_info}
use dogeos_revm.L1Block.Cost.{calculate_tx_l1_cost_galileo}

-- `test_rollup_fee_galileo`: compressed sizes and their fees, at one gwei of both base fees.
abbrev galileo_fees : List (ℕ × ℕ)
galileo_fees =
    ((50, 171_557_471_810))
    ∷ ((100, 344_821_983_141))
    ∷ ((1_024, 3_854_009_072_433))
    ∷ ((10_240, 70_759_382_824_796))
    ∷ ((1_048_576, 378_961_881_717_079_120))
    ∷ []

abbrev gwei_info : L1BlockInfo
gwei_info = record empty_info {
  l1_base_fee = 1_000_000_000;
  l1_blob_base_fee = some 1_000_000_000;
  l1_commit_scalar = some 2_394_981_796;
  l1_blob_scalar = some 1_019_097_245;
  penalty_factor = some 10_000;
}

galileo_fees_hold :
    map (λ c. calculate_tx_l1_cost_galileo native gwei_info 10_000_000_000 c.0) galileo_fees
    ≡ map (λ c. ok c.1) galileo_fees
unfolding calculate_tx_l1_cost_galileo
galileo_fees_hold = refl

-- `unknown_spec_name_is_an_error`
unknown_names_hold :
    map (from_str "Shanghai") (unknown_names "Latest") ≡ replicate 7 (err unknown_hardfork)
unfolding from_str
unknown_names_hold = refl

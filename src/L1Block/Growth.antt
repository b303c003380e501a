-- ===== src/L1Block/Growth.antt =====
-- src/l1block.rs: how the rollup fee moves with its inputs, saturation included.
use dogeos_revm.Prelude.{
  ℕ, ◌≤◌, ◌<◌, ◌≡◌, max, some, List, ok, length, leb, if◌then◌else◌, arith, Option-cases, inl, inr,
}
use dogeos_revm.Uint.{UintOps}
use dogeos_revm.Uint.Laws.{saturating_add_mono, saturating_mul_mono, wrapping_div_mono}
use dogeos_revm.L1Block.{L1BlockInfo, tx_l1_fee_precision}
use dogeos_revm.L1Block.Cost.{calculate_tx_l1_cost_feynman, calculate_tx_l1_cost_galileo}
use native.Mathlib.Nat.{le_refl}

module _ (u : UintOps) where
  -- The arithmetic of `calculate_tx_l1_cost_galileo`.
  abbrev galileo_amount : ℕ → ℕ → ℕ → ℕ → ℕ → ℕ → ℕ
  galileo_amount exec base blob blob_base factor size =
      let per_byte =
        u.saturating_add (u.saturating_mul exec base) (u.saturating_mul blob blob_base) in
      let base_term = u.saturating_mul per_byte size in
      u.wrapping_div
        (u.saturating_add base_term (u.wrapping_div (u.saturating_mul base_term size) factor))
        tx_l1_fee_precision

  galileo_amount_mono :
      (exec base base' blob blob_base factor size size' : ℕ)
      → 0 < factor
      → base ≤ base'
      → size ≤ size'
      → galileo_amount exec base blob blob_base factor size
        ≤ galileo_amount exec base' blob blob_base factor size'
  galileo_amount_mono exec base base' blob blob_base factor size size' pos p q =
      let blob_part = u.saturating_mul blob blob_base in
      let per_byte =
        saturating_add_mono u _ blob_part _ blob_part
          (saturating_mul_mono u exec base exec base' (le_refl _) p) (le_refl _) in
      let base_term = saturating_mul_mono u _ size _ size' per_byte q in
      let penalty_term =
        wrapping_div_mono u _ _ factor pos (saturating_mul_mono u _ size _ size' base_term q) in
      wrapping_div_mono u _ _ tx_l1_fee_precision (omega arith)
        (saturating_add_mono u _ _ _ _ base_term penalty_term)

  galileo_amount_of_ok :
      (info : L1BlockInfo) (tx_size size c : ℕ)
      → calculate_tx_l1_cost_galileo u info tx_size size ≡ ok c
      → (exec : ℕ) × (blob : ℕ) × (blob_base : ℕ) × (factor : ℕ) × (info.l1_commit_scalar
          ≡ some exec)
        × (info.l1_blob_scalar ≡ some blob)
        × (info.l1_blob_base_fee ≡ some blob_base)
        × (info.penalty_factor ≡ some factor)
        × (c ≡ galileo_amount exec info.l1_base_fee blob blob_base (max factor 1) size)
  unfolding calculate_tx_l1_cost_galileo
  galileo_amount_of_ok info tx_size size c h = elim (Option-cases info.l1_commit_scalar) [
    | inl e ↦ absurd (ground arith)
    | inr (exec, e) ↦ elim (Option-cases info.l1_blob_scalar) [
      | inl e' ↦ absurd (ground arith)
      | inr (blob, e') ↦ elim (Option-cases info.l1_blob_base_fee) [
        | inl e'' ↦ absurd (ground arith)
        | inr (blob_base, e'') ↦ elim (Option-cases info.penalty_factor) [
          | inl unset ↦ absurd (ground arith)
          | inr (factor, set) ↦ (exec, blob, blob_base, factor, e, e', e'', set, ground arith)
        ]
      ]
    ]
  ]

  -- From Galileo a transaction that compresses to more bytes, or a higher L1 base fee, never
  -- costs less, also where the arithmetic saturates.
  pub galileo_fee_mono :
      (info : L1BlockInfo) (base' tx_size size tx_size' size' c c' : ℕ)
      → info.l1_base_fee ≤ base'
      → size ≤ size'
      → calculate_tx_l1_cost_galileo u info tx_size size ≡ ok c
      → calculate_tx_l1_cost_galileo u (record info { l1_base_fee = base' }) tx_size' size' ≡ ok c'
      → c ≤ c'
  galileo_fee_mono info base' tx_size size tx_size' size' c c' p q h h' =
      let (exec, blob, blob_base, factor, e₁, e₂, e₃, e₄, amount) =
        galileo_amount_of_ok info tx_size size c h in
      let (_, _, _, _, e₁', e₂', e₃', e₄', amount') =
        galileo_amount_of_ok (record info { l1_base_fee = base' }) tx_size' size' c' h' in
      ground (
        arith,
        galileo_amount_mono exec info.l1_base_fee base' blob blob_base (max factor 1) size size',
      )

  -- The arithmetic of `calculate_tx_l1_cost_feynman` after the fee of the whole transaction.
  abbrev penalized : ℕ → ℕ → ℕ
  penalized fee penalty =
      u.wrapping_div (u.wrapping_div (u.saturating_mul fee penalty) tx_l1_fee_precision)
        tx_l1_fee_precision

  penalized_mono : (fee p p' : ℕ) → p ≤ p' → penalized fee p ≤ penalized fee p'
  penalized_mono fee p p' h = wrapping_div_mono u _ _ tx_l1_fee_precision (omega arith) (
      wrapping_div_mono u _ _ tx_l1_fee_precision (omega arith)
        (saturating_mul_mono u fee p fee p' (le_refl _) h))

  abbrev plain_fee : ℕ → ℕ → ℕ → ℕ → ℕ → ℕ
  plain_fee size exec base blob blob_base =
      u.saturating_mul size
        (u.saturating_add (u.saturating_mul exec base) (u.saturating_mul blob blob_base))

  penalized_of_ok :
      (info : L1BlockInfo) (input : List ℕ) (ratio c factor : ℕ)
      → info.penalty_factor ≡ some factor
      → calculate_tx_l1_cost_feynman u info input ratio ≡ ok c
      → (exec : ℕ) × (blob : ℕ) × (blob_base : ℕ) × (threshold : ℕ) × (info.l1_commit_scalar
          ≡ some exec)
        × (info.l1_blob_scalar ≡ some blob)
        × (info.l1_blob_base_fee ≡ some blob_base)
        × (info.penalty_threshold ≡ some threshold)
        × (c
            ≡ penalized
                (plain_fee (length input) exec info.l1_base_fee blob blob_base)
                (if leb threshold ratio then tx_l1_fee_precision else factor))
  unfolding calculate_tx_l1_cost_feynman
  penalized_of_ok info input ratio c factor f h = elim (Option-cases info.l1_commit_scalar) [
    | inl e ↦ absurd (ground arith)
    | inr (exec, e) ↦ elim (Option-cases info.l1_blob_scalar) [
      | inl e' ↦ absurd (ground arith)
      | inr (blob, e') ↦ elim (Option-cases info.l1_blob_base_fee) [
        | inl e'' ↦ absurd (ground arith)
        | inr (blob_base, e'') ↦ elim (Option-cases info.penalty_threshold) [
          | inl unset ↦ absurd (ground arith)
          | inr (threshold, set) ↦ (exec, blob, blob_base, threshold, e, e', e'', set, ground arith)
        ]
      ]
    ]
  ]

  -- Under Feynman, with a penalty factor of at least one, a better compression ratio never costs
  -- more.
  pub feynman_fee_antitone :
      (info : L1BlockInfo) (input : List ℕ) (factor ratio ratio' c c' : ℕ)
      → info.penalty_factor ≡ some factor
      → tx_l1_fee_precision ≤ factor
      → ratio ≤ ratio'
      → calculate_tx_l1_cost_feynman u info input ratio ≡ ok c
      → calculate_tx_l1_cost_feynman u info input ratio' ≡ ok c'
      → c' ≤ c
  feynman_fee_antitone info input factor ratio ratio' c c' f b p h h' =
      let (exec, blob, blob_base, threshold, e₁, e₂, e₃, e₄, amount) =
        penalized_of_ok info input ratio c factor f h in
      let (_, _, _, _, e₁', e₂', e₃', e₄', amount') =
        penalized_of_ok info input ratio' c' factor f h' in
      let fee = plain_fee (length input) exec info.l1_base_fee blob blob_base in
      ground (arith, penalized_mono fee tx_l1_fee_precision factor b)

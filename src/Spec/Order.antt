-- ===== src/Spec/Order.antt =====
-- src/spec.rs: the order of the hardforks.
use dogeos_revm.Prelude.{◌≡◌, ◌↔◌, le→leb, true, arith, ◌≤◌, leb→le}
use dogeos_revm.Spec.{ScrollSpecId, discriminant, enabled, is_enabled_in}

-- No two hardforks share a discriminant.
pub discriminant-injective : (a b : ScrollSpecId) → discriminant a ≡ discriminant b → a ≡ b
unfolding discriminant
discriminant-injective a b h = ground arith

pub is_enabled_in_trans :
    (a b c : ScrollSpecId)
    → is_enabled_in a b ≡ true
    → is_enabled_in b c ≡ true
    → is_enabled_in a c ≡ true
unfolding is_enabled_in enabled
is_enabled_in_trans a b c p q = ground arith

-- `is_enabled_in` is the linear order of the hardforks by their discriminants: one is enabled in
-- another exactly when its discriminant is at most the other's, and two that enable each other
-- are the same.
is_enabled_in_order :
    (a b : ScrollSpecId)
    → ((is_enabled_in a b ≡ true) ↔ (discriminant b ≤ discriminant a))
      × (((is_enabled_in a b ≡ true) × (is_enabled_in b a ≡ true)) ↔ (a ≡ b))
unfolding is_enabled_in enabled
is_enabled_in_order a b = (
  ((λ h. leb→le _ _ h), (λ h. le→leb _ _ h)),
  ((λ h. discriminant-injective a b (ground arith)), (λ e. ground arith)),
)

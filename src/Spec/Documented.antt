-- ===== src/Spec/Documented.antt =====
-- src/spec.rs, its module `tests`: what they assert of the hardforks and their names.
use dogeos_revm.Prelude.{
  ℕ, ◌+◌, ◌≡◌, ◌≢◌, true, false, List, [], ◌∷◌, String, Option, none, some, ForSome, ok, refl,
  arith, Option-cases, inl, inr,
}
use dogeos_revm.Spec.{
  ScrollSpecId, tsuki, tsuki_v2, default, discriminant, try_from_u8, is_enabled_in,
  eth_spec_id_from, name, from_str,
}
use dogeos_revm.Spec.Names.{IsOwnName, IsEnumN, from_str-name}

-- `spec_names_round_trip`, for every number that decodes to a hardfork.
unfoldable pub NamesRoundTrip : String → (ℕ → Option ScrollSpecId) → Type 0
NamesRoundTrip shanghai_name n =
    (v : ℕ)
    → ForSome
        (λ spec.
          (from_str shanghai_name (name shanghai_name spec) ≡ ok spec)
          × (try_from_u8 n (discriminant spec) ≡ some spec))
        (try_from_u8 n v)

-- The texts of `unknown_spec_name_is_an_error`, with revm's `name::LATEST`.
abbrev pub unknown_names : String → List String
unknown_names latest = "" ∷ latest ∷ "prague" ∷ "Euclid" ∷ "tsukiv2" ∷ "tsuki_v2" ∷ " tsuki" ∷ []

-- `default_is_latest_spec`
unfoldable pub DefaultIsLatest : (ℕ → Option ScrollSpecId) → Type 0
DefaultIsLatest n = (default ≡ tsuki_v2) × (try_from_u8 n (discriminant default + 1) ≡ none)

-- `tsuki_v2_follows_tsuki`, over revm's `SpecId::SHANGHAI`.
pub record FollowsTsuki {SpecId : Type 0} (shanghai_name : String) (eth_shanghai : SpecId)
    (n : ℕ → Option ScrollSpecId) : Type 0 where
  pub its_name : name shanghai_name tsuki_v2 ≡ "tsukiV2"
  pub its_discriminant : discriminant tsuki_v2 ≡ 9
  pub none_after : try_from_u8 n 10 ≡ none
  pub its_baseline : eth_spec_id_from eth_shanghai tsuki_v2 ≡ eth_shanghai
  pub after_tsuki : is_enabled_in tsuki_v2 tsuki ≡ true
  pub not_before : is_enabled_in tsuki tsuki_v2 ≡ false

ten_is_none : (spec : ScrollSpecId) → 10 ≢ discriminant spec
unfolding discriminant
ten_is_none spec h = ground arith

module _ (sh : String) (own : IsOwnName sh) (n : ℕ → Option ScrollSpecId) (enum : IsEnumN n) where
  names-NamesRoundTrip : NamesRoundTrip sh n
  unfolding NamesRoundTrip try_from_u8
  names-NamesRoundTrip v = elim (Option-cases (n v)) [
    | inl unknown ↦ rw unknown tt
    | inr (spec, known) ↦ rw known (from_str-name sh own spec, enum.finds spec)
  ]

  none_at_ten : n 10 ≡ none
  none_at_ten = elim (Option-cases (n 10)) [
    | inl unknown ↦ unknown
    | inr (spec, known) ↦ absurd (ten_is_none spec (enum.found 10 spec known))
  ]

  default-DefaultIsLatest : DefaultIsLatest n
  unfolding DefaultIsLatest try_from_u8 discriminant
  default-DefaultIsLatest = (refl, none_at_ten)

  tsuki_v2-FollowsTsuki : {SpecId : Type 0} (eth_shanghai : SpecId) → FollowsTsuki sh eth_shanghai n
  unfolding name discriminant try_from_u8 eth_spec_id_from is_enabled_in
  tsuki_v2-FollowsTsuki eth_shanghai = record {
    its_name = refl;
    its_discriminant = refl;
    none_after = none_at_ten;
    its_baseline = refl;
    after_tsuki = refl;
    not_before = refl;
  }

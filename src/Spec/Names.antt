-- ===== src/Spec/Names.antt =====
-- src/spec.rs: hardfork names and their parsing.
use text.Mathlib.Text.{◌==◌ as str_eq}
use text.Mathlib.TextEquality.{eq_iff}
use dogeos_revm.Prelude.{◌≡◌, ◌≢◌, ◌↔◌, ok, some, Option, ℕ, String, arith, false}
use dogeos_revm.Spec.{
  ScrollSpecId, shanghai, bernoulli, curie, darwin, euclid, feynman, galileo, tsuki, tsuki_v2, name,
  from_str, discriminant, try_from_u8,
}

-- What the parser relies on of revm's `name::SHANGHAI`: it is none of the names declared here.
pub record IsOwnName (shanghai_name : String) : Type 0 where
  pub not_bernoulli : "bernoulli" ≢ shanghai_name
  pub not_curie : "curie" ≢ shanghai_name
  pub not_darwin : "darwin" ≢ shanghai_name
  pub not_euclid : "euclid" ≢ shanghai_name
  pub not_feynman : "feynman" ≢ shanghai_name
  pub not_galileo : "galileo" ≢ shanghai_name
  pub not_tsuki : "tsuki" ≢ shanghai_name
  pub not_tsuki_v2 : "tsukiV2" ≢ shanghai_name

str_eq-ne : (a b : String) → a ≢ b → str_eq a b ≡ false
str_eq-ne a b h = ground (arith, eq_iff a b)

pub from_str-name :
    (sh : String) → IsOwnName sh → (spec : ScrollSpecId) → from_str sh (name sh spec) ≡ ok spec
unfolding from_str name
from_str-name sh h shanghai = ground (arith, eq_iff sh sh)
from_str-name sh h bernoulli = rw (str_eq-ne _ _ h.not_bernoulli)
from_str-name sh h curie = rw (str_eq-ne _ _ h.not_curie)
from_str-name sh h darwin = rw (str_eq-ne _ _ h.not_darwin)
from_str-name sh h euclid = rw (str_eq-ne _ _ h.not_euclid)
from_str-name sh h feynman = rw (str_eq-ne _ _ h.not_feynman)
from_str-name sh h galileo = rw (str_eq-ne _ _ h.not_galileo)
from_str-name sh h tsuki = rw (str_eq-ne _ _ h.not_tsuki)
from_str-name sh h tsuki_v2 = rw (str_eq-ne _ _ h.not_tsuki_v2)

from_str_sound : (sh s : String) (spec : ScrollSpecId) → from_str sh s ≡ ok spec → s ≡ name sh spec
unfolding from_str name
from_str_sound sh s spec h = ground (
  arith,
  eq_iff s sh,
  eq_iff s "bernoulli",
  eq_iff s "curie",
  eq_iff s "darwin",
  eq_iff s "euclid",
  eq_iff s "feynman",
  eq_iff s "galileo",
  eq_iff s "tsuki",
  eq_iff s "tsukiV2",
)

-- Parsing and printing are inverse: a text parses to a hardfork exactly when it is the name of
-- that hardfork, provided that revm's name of Shanghai is none of the names declared here. So
-- every other text, one that differs in case or spacing included, is an unknown hardfork.
pub from_str_iff_name :
    (sh s : String) (spec : ScrollSpecId)
    → IsOwnName sh
    → (from_str sh s ≡ ok spec) ↔ (s ≡ name sh spec)
from_str_iff_name sh s spec h = (from_str_sound sh s spec, λ e. rw e (from_str-name sh h spec))

-- The documented behaviour of the generated `n`: the variant with the given discriminant, if any.
pub record IsEnumN (n : ℕ → Option ScrollSpecId) : Type 0 where
  pub finds : (spec : ScrollSpecId) → n (discriminant spec) ≡ some spec
  pub found : (v : ℕ) (spec : ScrollSpecId) → n v ≡ some spec → v ≡ discriminant spec

-- A number that decodes to a hardfork is that hardfork's discriminant, the name that is printed
-- for it parses to the same hardfork, and no other number decodes to it.
spec_names_round_trip :
    (sh : String) (n : ℕ → Option ScrollSpecId) (v : ℕ) (spec : ScrollSpecId)
    → IsOwnName sh
    → IsEnumN n
    → try_from_u8 n v ≡ some spec
    → (from_str sh (name sh spec) ≡ ok spec)
      × (v ≡ discriminant spec)
      × ((w : ℕ) → (try_from_u8 n w ≡ some spec) ↔ (w ≡ v))
unfolding try_from_u8
spec_names_round_trip sh n v spec own enum h = (
  from_str-name sh own spec,
  enum.found v spec h,
  λ w. (λ k. ground (arith, enum.found w spec k, enum.found v spec h), λ e. ground (arith, e)),
)

-- ===== src/Precompile/Sets/Activation.antt =====
-- src/precompile/mod.rs: which precompile stands at which address under which hardfork.
use mathlib.Core.Option
use dogeos_revm.Prelude.{
  true, ◌≢◌, ◌&&◌, ℕ, ◌≡◌, ◌∙◌, List, [], ◌∷◌, Option, none, some, ◌==◌, if◌then◌else◌, arith,
}
use dogeos_revm.Spec.{
  ScrollSpecId, shanghai, bernoulli, curie, darwin, euclid, feynman, galileo, tsuki, tsuki_v2,
  is_enabled_in,
}
use dogeos_revm.Spec.Order.{is_enabled_in_trans}
use dogeos_revm.Precompile.{Precompile, RevmPrecompiles, transfer_id, transfer_address}
use dogeos_revm.Precompile.Wrapped.{
  sha256_shanghai, ripemd160_shanghai, blake2_shanghai, sha256_bernoulli, ripemd160_tsuki,
  pair_bernoulli, pair_feynman, modexp_bernoulli, modexp_galileo, precompile_not_implemented,
}
use dogeos_revm.Precompile.Sets.{
  Entry, plain, dynamic, PrecompileTables, pre_bernoulli_set, bernoulli_set, euclid_set,
  feynman_set, galileo_set, tsuki_static, tsuki_extensions, tsuki_set, inner_for_spec,
}

-- The last precompile of a list that has the address, or else the default.
abbrev last_at : List Precompile → ℕ → Option Precompile → Option Precompile
last_at [] a d = d
last_at (p ∷ ps) a d = last_at ps a (if p.address == a then some p else d)

get-extend :
    (t : PrecompileTables) (ps : List Precompile) (m : t.Precompiles) (a : ℕ)
    → t.get (t.extend m ps) a ≡ last_at ps a (t.get m a)
get-extend t [] m a = t.get-extend_nil m a
get-extend t (p ∷ []) m a = t.get-extend_one m p a
get-extend t (p ∷ q ∷ ps) m a =
    t.get-extend_more m p q ps a
    ∙ ground (arith, get-extend t (q ∷ ps) (t.extend m (p ∷ [])) a, t.get-extend_one m p a)

module _ (t : PrecompileTables) (revm : RevmPrecompiles) where
  -- The activation plan of the static precompiles, address by address.
  abbrev pub planned_static : ScrollSpecId → ℕ → Option Precompile
  planned_static spec a =
      if a == 1
      then some revm.ecrecover
      else if a == 2
      then some (if is_enabled_in spec bernoulli then sha256_bernoulli revm else sha256_shanghai)
      else if a == 3
      then some (if is_enabled_in spec tsuki then ripemd160_tsuki revm else ripemd160_shanghai)
      else if a == 4
      then some revm.identity_fun
      else if a == 5
      then some (if is_enabled_in spec galileo then modexp_galileo revm else modexp_bernoulli revm)
      else if a == 6
      then some revm.bn254_add_istanbul
      else if a == 7
      then some revm.bn254_mul_istanbul
      else if a == 8
      then some (if is_enabled_in spec feynman then pair_feynman revm else pair_bernoulli revm)
      else if a == 9
      then some blake2_shanghai
      else if a == 256
      then (if is_enabled_in spec galileo
          then some revm.p256verify_osaka
          else if is_enabled_in spec euclid
          then some revm.p256verify
          else none)
      else none

  -- With the one stateful precompile: the native transfer, from Tsuki.
  abbrev pub planned : ScrollSpecId → ℕ → Option Entry
  planned spec a =
      if is_enabled_in spec tsuki && a == 253
      then some (dynamic transfer_id)
      else Option.map plain (planned_static spec a)

  pub get-pre_bernoulli_set :
      (a : ℕ) → t.get (pre_bernoulli_set t revm) a ≡ planned_static shanghai a
  unfolding pre_bernoulli_set is_enabled_in modexp_bernoulli pair_bernoulli
      precompile_not_implemented
  get-pre_bernoulli_set a = ground (
    arith,
    t.get-default a,
    get-extend t
        (revm.ecrecover
          ∷ sha256_shanghai
          ∷ ripemd160_shanghai
          ∷ revm.identity_fun
          ∷ modexp_bernoulli revm
          ∷ revm.bn254_add_istanbul
          ∷ revm.bn254_mul_istanbul
          ∷ pair_bernoulli revm
          ∷ blake2_shanghai
          ∷ [])
        t.default a,
    revm.ecrecover_at,
    revm.identity_at,
    revm.bn254_add_at,
    revm.bn254_mul_at,
  )

  pub get-bernoulli_set : (a : ℕ) → t.get (bernoulli_set t revm) a ≡ planned_static bernoulli a
  unfolding bernoulli_set is_enabled_in sha256_bernoulli
  get-bernoulli_set a = ground (
    arith,
    get-pre_bernoulli_set a,
    get-extend t (sha256_bernoulli revm ∷ []) (pre_bernoulli_set t revm) a,
  )

  pub get-euclid_set : (a : ℕ) → t.get (euclid_set t revm) a ≡ planned_static euclid a
  unfolding euclid_set is_enabled_in
  get-euclid_set a = ground (
    arith,
    get-bernoulli_set a,
    get-extend t (revm.p256verify ∷ []) (bernoulli_set t revm) a,
    revm.p256verify_at,
  )

  pub get-feynman_set : (a : ℕ) → t.get (feynman_set t revm) a ≡ planned_static feynman a
  unfolding feynman_set is_enabled_in pair_feynman
  get-feynman_set a = ground (
    arith,
    get-euclid_set a,
    get-extend t (pair_feynman revm ∷ []) (euclid_set t revm) a,
    revm.bn254_pair_at,
  )

  pub get-galileo_set : (a : ℕ) → t.get (galileo_set t revm) a ≡ planned_static galileo a
  unfolding galileo_set is_enabled_in modexp_galileo
  get-galileo_set a = ground (
    arith,
    get-feynman_set a,
    get-extend t (modexp_galileo revm ∷ revm.p256verify_osaka ∷ []) (feynman_set t revm) a,
    revm.p256verify_osaka_at,
  )

  pub get-tsuki_static : (a : ℕ) → t.get (tsuki_static t revm) a ≡ planned_static tsuki a
  unfolding tsuki_static is_enabled_in ripemd160_tsuki
  get-tsuki_static a =
      ground
        (arith, get-galileo_set a, get-extend t (ripemd160_tsuki revm ∷ []) (galileo_set t revm) a)

  find-tsuki_set : (a : ℕ) → t.find (tsuki_set t revm) a ≡ planned tsuki a
  unfolding tsuki_set tsuki_extensions is_enabled_in
  find-tsuki_set a = ground (
    arith,
    get-tsuki_static a,
    t.find-from_static (tsuki_static t revm) a,
    t.find-with_extended_one (t.from_static (tsuki_static t revm)) transfer_address
        (dynamic transfer_id) a,
  )

  find-static :
      (m : t.Precompiles) (a : ℕ) {o : Option Precompile}
      → t.get m a ≡ o
      → t.find (t.from_static m) a ≡ Option.map plain o
  find-static m a e = ground (arith, t.find-from_static m a)

  -- The provider of each hardfork holds exactly the precompiles of the activation plan: at every
  -- address the one planned there, and none elsewhere. The plan: 1, 4, 6, 7 revm's from the start;
  -- SHA-256 at 2 refused until Bernoulli, RIPEMD-160 at 3 until Tsuki, BLAKE2 at 9 always; modexp
  -- at 5 replaced at Galileo, the pairing at 8 at Feynman; P256VERIFY at 256 from Euclid, with
  -- another price from Galileo; the native transfer at 253 from Tsuki.
  pub find-inner_for_spec :
      (spec : ScrollSpecId) (a : ℕ) → t.find (inner_for_spec t revm spec) a ≡ planned spec a
  unfolding inner_for_spec is_enabled_in
  find-inner_for_spec shanghai a = find-static _ a (get-pre_bernoulli_set a)
  find-inner_for_spec bernoulli a = find-static _ a (get-bernoulli_set a)
  find-inner_for_spec curie a = find-static _ a (get-bernoulli_set a)
  find-inner_for_spec darwin a = find-static _ a (get-bernoulli_set a)
  find-inner_for_spec euclid a = find-static _ a (get-euclid_set a)
  find-inner_for_spec feynman a = find-static _ a (get-feynman_set a)
  find-inner_for_spec galileo a = find-static _ a (get-galileo_set a)
  find-inner_for_spec tsuki a = find-tsuki_set a
  find-inner_for_spec tsuki_v2 a = find-tsuki_set a

  -- No hardfork takes a precompile away: where one is installed under a hardfork, one is installed
  -- under every later hardfork.
  installed_stays :
      (spec later : ScrollSpecId) (a : ℕ)
      → is_enabled_in later spec ≡ true
      → t.find (inner_for_spec t revm spec) a ≢ none
      → t.find (inner_for_spec t revm later) a ≢ none
  installed_stays spec later a order there = ground (
    arith,
    find-inner_for_spec spec a,
    find-inner_for_spec later a,
    is_enabled_in_trans later spec euclid order,
    is_enabled_in_trans later spec galileo order,
    is_enabled_in_trans later spec tsuki order,
  )

-- ===== src/Precompile/Wrapped/Modexp/Costs.antt =====
-- src/precompile/modexp.rs: the costs of EIP-2565 and EIP-7883, by which revm's Berlin and Osaka
-- functions are documented to charge.
use dogeos_revm.Prelude.{
  bit_length, bit_length-le, ℕ, ◌+◌, ◌-◌, ◌*◌, ◌/◌, ◌≤◌, ◌≡◌, min, max, Bool, true, ◌&&◌, List, leb,
  ◌==◌, if◌then◌else◌, arith, Bool-cases, inl, inr,
}
use dogeos_revm.Precompile.Wrapped.Modexp.{field, lengths_within}

-- How often the power is squared or multiplied: by the digits of the exponent's first 32 bytes,
-- and `multiplier` for each further byte.
unfoldable pub iterations : ℕ → ℕ → ℕ → ℕ
iterations multiplier exp_len head = max 1 (
    if leb exp_len 32
    then bit_length 256 head - 1
    else multiplier * (exp_len - 32) + (max 1 (bit_length 256 head) - 1))

-- The complexity of a multiplication: the square of the length in words of eight bytes; by
-- EIP-7883 sixteen up to 32 bytes, and twice the square above.
unfoldable pub words_squared : ℕ → ℕ
words_squared len = (len + 7) / 8 * ((len + 7) / 8)

unfoldable pub osaka_complexity : ℕ → ℕ
unfolding words_squared
osaka_complexity len = if leb len 32 then 16 else 2 * words_squared len

abbrev exponent_head : List ℕ → ℕ
exponent_head input = field input (96 + field input 0 32) (min (field input 32 32) 32)

-- Base and modulus of no bytes cost the minimum.
abbrev is_empty : List ℕ → Bool
is_empty input = (field input 0 32 == 0) && (field input 64 32 == 0)

abbrev longest : List ℕ → ℕ
longest input = max (field input 0 32) (field input 64 32)

unfoldable pub berlin_cost : List ℕ → ℕ
unfolding field iterations words_squared
berlin_cost input =
    if is_empty input
    then 200
    else max 200
        (words_squared (longest input) * iterations 8 (field input 32 32) (exponent_head input) / 3)

unfoldable pub osaka_cost : List ℕ → ℕ
unfolding field iterations osaka_complexity
osaka_cost input =
    if is_empty input
    then 500
    else max 500
        (osaka_complexity (longest input) * iterations 16 (field input 32 32) (exponent_head input))

iterations_mono : (exp_len head : ℕ) → iterations 8 exp_len head ≤ iterations 16 exp_len head
unfolding iterations
iterations_mono exp_len head = ground arith

iterations_short : (exp_len head : ℕ) → exp_len ≤ 32 → iterations 16 exp_len head ≤ 255
unfolding iterations
iterations_short exp_len head h = ground (arith, bit_length-le 256 head)

square_short : (w : ℕ) → w ≤ 4 → w * w ≤ 16
square_short w h = grind arith

complexity_mono : (len : ℕ) → words_squared len ≤ osaka_complexity len
unfolding words_squared osaka_complexity
complexity_mono len = elim (Bool-cases (leb len 32)) [
  | inl short ↦ ground (arith, square_short ((len + 7) / 8))
  | inr long ↦ ground arith
]

product_mono : (a b c d : ℕ) → a ≤ c → b ≤ d → a * b / 3 ≤ c * d
product_mono a b c d p q = let h : a * b ≤ c * d = grind arith in omega arith

costs_le :
    (empty : Bool) (p q : ℕ)
    → p ≤ q
    → (if empty then 200 else max 200 p) ≤ (if empty then 500 else max 500 q)
costs_le empty p q h = ground arith

-- Osaka's cost is never below Berlin's.
pub berlin_cost-le : (input : List ℕ) → berlin_cost input ≤ osaka_cost input
unfolding berlin_cost osaka_cost
berlin_cost-le input =
    let exp_len = field input 32 32 in
    let head = exponent_head input in
    let len = longest input in
    costs_le (is_empty input) (words_squared len * iterations 8 exp_len head / 3)
      (osaka_complexity len * iterations 16 exp_len head)
      (product_mono (words_squared len) (iterations 8 exp_len head) (osaka_complexity len)
        (iterations 16 exp_len head) (complexity_mono len) (iterations_mono exp_len head))

short_complexity : (len : ℕ) → len ≤ 32 → osaka_complexity len ≡ 16
unfolding osaka_complexity
short_complexity len h = ground arith

short_cost :
    (empty : Bool) (complexity n : ℕ)
    → complexity ≡ 16
    → n ≤ 255
    → (if empty then 500 else max 500 (complexity * n)) ≤ 4_080
short_cost empty complexity n sixteen h =
    let product : complexity * n ≤ 4_080 = grind arith in ground arith

-- The lengths that an input gives.
within_each :
    (base_len exp_len mod_len : ℕ)
    → (leb base_len 32 && leb exp_len 32 && leb mod_len 32) ≡ true
    → (exp_len ≤ 32) × (max base_len mod_len ≤ 32)
within_each base_len exp_len mod_len h = ground arith

-- On lengths of up to 32 bytes Osaka's cost is at most 4080.
pub osaka_cost-short : (input : List ℕ) → lengths_within 32 input ≡ true → osaka_cost input ≤ 4_080
unfolding osaka_cost
osaka_cost-short input short =
    let (exp_within, longest_within) =
      within_each (field input 0 32) (field input 32 32) (field input 64 32) short in
    short_cost (is_empty input) (osaka_complexity (longest input))
      (iterations 16 (field input 32 32) (exponent_head input))
      (short_complexity (longest input) longest_within)
      (iterations_short (field input 32 32) (exponent_head input) exp_within)

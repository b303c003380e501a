-- ===== src/Prelude/Bytes.antt =====
-- Big-endian bytes: numbers as lists of bytes, and back.
use native.Mathlib.Nat.{pow-succ'}
use Prim.Native.Nat.{ℕ, zero, suc, ◌+◌, ◌*◌, ◌/◌, ◌%◌, ◌^◌, ◌<◌, ◌≤◌}
use mathlib.Core.Path.{◌≡◌, refl, ap, ap₂, ◌∙◌}
use dogeos_revm.Prelude.Tests.{◌==◌, if◌then◌else◌}
use mathlib.Core.List.{List, [], ◌∷◌, ◌++◌}
use native.Mathlib.Omega.{arith}
use dogeos_revm.Prelude.Lists.{length, take, drop, length-append}

-- The number that bytes stand for, after those of `acc`.
abbrev pub be_value : ℕ → List ℕ → ℕ
be_value acc [] = acc
be_value acc (b ∷ bs) = be_value (acc * 256 + b) bs

-- The last `k` bytes of a number.
abbrev pub be_bytes : ℕ → ℕ → List ℕ
be_bytes zero n = []
be_bytes (suc k) n = be_bytes k (n / 256) ++ (n % 256 ∷ [])

be_value-append :
    (acc : ℕ) (xs : List ℕ) (b : ℕ) → be_value acc (xs ++ (b ∷ [])) ≡ be_value acc xs * 256 + b
be_value-append acc [] b = refl
be_value-append acc (x ∷ xs) b = be_value-append (acc * 256 + x) xs b

pub length-be_bytes : (k n : ℕ) → length (be_bytes k n) ≡ k
length-be_bytes zero n = refl
length-be_bytes (suc k) n =
    length-append (be_bytes k (n / 256)) (n % 256 ∷ []) ∙ omega (arith, length-be_bytes k (n / 256))

pub be_value-be_bytes : (k n : ℕ) → n < 256 ^ k → be_value 0 (be_bytes k n) ≡ n
be_value-be_bytes zero n h = omega arith
be_value-be_bytes (suc k) n h =
    be_value-append 0 (be_bytes k (n / 256)) (n % 256)
    ∙ omega (arith, be_value-be_bytes k (n / 256) (omega (arith, pow-succ' 256 k)))

-- The number of binary digits, of a number with at most `width` of them.
unfoldable pub bit_length : ℕ → ℕ → ℕ
bit_length zero n = 0
bit_length (suc width) n = let rest = bit_length width (n / 2) in if n == 0 then 0 else suc rest

pub bit_length-le : (width n : ℕ) → bit_length width n ≤ width
unfolding bit_length
bit_length-le zero n = omega arith
bit_length-le (suc width) n = ground (arith, bit_length-le width (n / 2))

abbrev pub IsBytes : List ℕ → Type 0
IsBytes [] = Unit
IsBytes (b ∷ bs) = (b < 256) × IsBytes bs

-- Byte lists of one length are told apart by their values.
pub be_value-injective :
    (xs ys : List ℕ) (acc acc' : ℕ)
    → length xs ≡ length ys
    → IsBytes xs
    → IsBytes ys
    → be_value acc xs ≡ be_value acc' ys
    → (acc ≡ acc') × (xs ≡ ys)
be_value-injective [] [] acc acc' h p q e = (e, refl)
be_value-injective [] (y ∷ ys) acc acc' h p q e = absurd (omega arith)
be_value-injective (x ∷ xs) [] acc acc' h p q e = absurd (omega arith)
be_value-injective (x ∷ xs) (y ∷ ys) acc acc' h p q e =
    let (head, tail) =
      be_value-injective xs ys (acc * 256 + x) (acc' * 256 + y) (omega arith) p.1 q.1 e in
    let same : x ≡ y = omega (arith, p.0, q.0) in (omega (arith, p.0, q.0), ap₂ ◌∷◌ same tail)

module _ {ℓ} {A : Type ℓ} where
  take-append : (n : ℕ) (xs ys : List A) → length xs ≡ n → take n (xs ++ ys) ≡ xs
  take-append zero [] ys h = refl
  take-append zero (x ∷ xs) ys h = absurd (omega arith)
  take-append (suc n) [] ys h = absurd (omega arith)
  take-append (suc n) (x ∷ xs) ys h = ap (λ r. x ∷ r) (take-append n xs ys (omega arith))

  drop-append : (n : ℕ) (xs ys : List A) → length xs ≡ n → drop n (xs ++ ys) ≡ ys
  drop-append zero [] ys h = refl
  drop-append zero (x ∷ xs) ys h = absurd (omega arith)
  drop-append (suc n) [] ys h = absurd (omega arith)
  drop-append (suc n) (x ∷ xs) ys h = drop-append n xs ys (omega arith)

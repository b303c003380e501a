-- ===== src/Balances/Total.antt =====
-- How payments change the sum of the balances.
use dogeos_revm.Prelude.{ℕ, zero, suc, ◌+◌, ◌≤◌, ◌<◌, ◌≡◌, ltb, if◌then◌else◌, arith, refl}
use dogeos_revm.Balances.{supply, charged, credited}

supply-charged-ltb :
    (n : ℕ) (balance : ℕ → ℕ) (payer x : ℕ)
    → x ≤ balance payer
    → supply n (charged balance payer x) + (if ltb payer n then x else 0) ≡ supply n balance
supply-charged-ltb zero balance payer x h = ground arith
supply-charged-ltb (suc n) balance payer x h =
    ground (arith, supply-charged-ltb n balance payer x h)

supply-credited-ltb :
    (n : ℕ) (balance : ℕ → ℕ) (payee x : ℕ)
    → supply n (credited balance payee x) ≡ supply n balance + (if ltb payee n then x else 0)
supply-credited-ltb zero balance payee x = ground arith
supply-credited-ltb (suc n) balance payee x = ground (arith, supply-credited-ltb n balance payee x)

pub supply-charged :
    (n : ℕ) (balance : ℕ → ℕ) (payer x : ℕ)
    → payer < n
    → x ≤ balance payer
    → supply n (charged balance payer x) + x ≡ supply n balance
supply-charged n balance payer x inside h = ground (arith, supply-charged-ltb n balance payer x h)

pub supply-credited :
    (n : ℕ) (balance : ℕ → ℕ) (payee x : ℕ)
    → payee < n
    → supply n (credited balance payee x) ≡ supply n balance + x
supply-credited n balance payee x inside = ground (arith, supply-credited-ltb n balance payee x)

-- No account holds more than there is.
pub le-supply : (n : ℕ) (balance : ℕ → ℕ) (a : ℕ) → a < n → balance a ≤ supply n balance
le-supply zero balance a h = absurd (omega arith)
le-supply (suc n) balance a h = ground (arith, le-supply n balance a)

-- The sum depends on the balances alone.
pub supply-ext : (n : ℕ) (b b' : ℕ → ℕ) → ((a : ℕ) → b a ≡ b' a) → supply n b ≡ supply n b'
supply-ext zero b b' same = refl
supply-ext (suc n) b b' same = omega (arith, same n, supply-ext n b b' same)

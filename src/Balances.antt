-- ===== src/Balances.antt =====
-- Balances as a function of the state and the account: how the specifications speak of a journal.
use dogeos_revm.Prelude.{ℕ, zero, suc, ◌-◌, ◌+◌, ◌≡◌, ◌==◌, if◌then◌else◌}
pub mod Total

-- Two states with the same balances.
abbrev pub SameBalances : {S : Type 0} → (S → ℕ → ℕ) → S → S → Type 0
SameBalances balance s s' = (a : ℕ) → balance s' a ≡ balance s a

-- The balances after `payer` has paid an amount.
abbrev pub charged : (ℕ → ℕ) → ℕ → ℕ → ℕ → ℕ
charged balance payer amount a = if a == payer then balance a - amount else balance a

-- The balances after `payee` has received an amount.
abbrev pub credited : (ℕ → ℕ) → ℕ → ℕ → ℕ → ℕ
credited balance payee amount a = if a == payee then balance a + amount else balance a

-- The sum of the balances of the addresses below a bound.
abbrev pub supply : ℕ → (ℕ → ℕ) → ℕ
supply zero balance = 0
supply (suc n) balance = balance n + supply n balance

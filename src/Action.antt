-- ===== src/Action.antt =====
-- A fallible call that changes a state: `Result`-returning Rust methods with `&mut self`. The state
-- comes back after an error too, since what was written stays written.
use dogeos_revm.Prelude.{Bool, true, false, Result, ok, err}
pub mod Stays

abbrev pub Action : Type 0 → Type 0 → Type 0 → Type 0
Action S E A = S → Result E A × S

module _ {S E : Type 0} where
  infixl 5 ◌>>=◌ ◌>>◌
  abbrev pub ◌>>=◌ : {A B : Type 0} → Action S E A → (A → Action S E B) → Action S E B
  ◌>>=◌ m f s = let (r, s') = m s in elim r [ ok a ↦ f a s' | err e ↦ (err e, s') ]

  abbrev pub ◌>>◌ : {A B : Type 0} → Action S E A → Action S E B → Action S E B
  m >> k = m >>= λ _. k

  abbrev pub pure : {A : Type 0} → A → Action S E A
  pure a s = (ok a, s)

  -- a fallible value that touches no state
  abbrev pub lift : {A : Type 0} → Result E A → Action S E A
  lift r s = (r, s)

  -- `if cond { return Err(e) }`
  abbrev pub throw_if : Bool → E → Action S E (Unit {0})
  throw_if true e s = (err e, s)
  throw_if false e s = (ok tt, s)

  -- a method with no result
  abbrev pub modify : (S → S) → Action S E (Unit {0})
  modify f s = (ok tt, f s)

  -- `if cond { m }`
  abbrev pub when : Bool → Action S E (Unit {0}) → Action S E (Unit {0})
  when true m s = m s
  when false m s = (ok tt, s)

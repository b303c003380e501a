-- ===== src/Action/Stays.antt =====
-- What a fallible call leaves in place. An error keeps the state that was reached, so the rules for
-- the ways to build a call hold on both outcomes.
use dogeos_revm.Prelude.{Bool, true, false, if◌then◌else◌, Result, ok, err}
use dogeos_revm.Action.{Action, ◌>>=◌, pure, lift, throw_if, when}

-- A property of the state that holds before the call holds after it, on success and on error.
pub record Stays {S E A : Type 0} (Inv : S → Type 0) (call : Action S E A) : Type 0 where
  pub after : (s : S) → Inv s → Inv (call s).1

module _ {S E : Type 0} {Inv : S → Type 0} where
  pub throw_if-Stays : (cond : Bool) (error : E) → Stays Inv (throw_if cond error)
  throw_if-Stays true _ = record { after = λ _ i. i }
  throw_if-Stays false _ = record { after = λ _ i. i }

  pub when-Stays :
      (cond : Bool) (call : Action S E (Unit {0})) → Stays Inv call → Stays Inv (when cond call)
  when-Stays true _ stays = record { after = stays.after }
  when-Stays false _ _ = record { after = λ _ i. i }

  module _ {A : Type 0} where
    pub lift-Stays : (answer : Result E A) → Stays Inv (lift answer)
    lift-Stays _ = record { after = λ _ i. i }

    pub pure-Stays : (a : A) → Stays {E = E} Inv (pure a)
    pure-Stays a = record { after = λ _ i. i }

    pub either-Stays :
        (cond : Bool) (yes_call no_call : Action S E A)
        → Stays Inv yes_call
        → Stays Inv no_call
        → Stays Inv (if cond then yes_call else no_call)
    either-Stays true _ _ stays _ = stays
    either-Stays false _ _ _ stays = stays

    module _ {B : Type 0} (rest : A → Action S E B) (goes_on : (a : A) → Stays Inv (rest a)) where
      answered : (answer : Result E A) → Stays Inv (lift answer >>= rest)
      answered (err _) = record { after = λ _ i. i }
      answered (ok a) = record { after = (goes_on a).after }

      pub bind-Stays : (call : Action S E A) → Stays Inv call → Stays Inv (call >>= rest)
      bind-Stays call stays = record {
        after = λ s i. (answered (call s).0).after _ (stays.after s i);
      }

pub ruleset stays_rules =
    (bind-Stays, when-Stays, throw_if-Stays, either-Stays, lift-Stays, pure-Stays)

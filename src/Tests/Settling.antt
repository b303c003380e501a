-- ===== src/Tests/Settling.antt =====
-- What happens after execution, at concrete inputs.
use dogeos_revm.Prelude.{ℕ, ◌+◌, ◌-◌, refl, ok, arith}
use dogeos_revm.Handler.Outcome.{GasOps, FrameResult, PostMainnet, success}
use dogeos_revm.Handler.Outcome.Reward.{CreditLaws}
use dogeos_revm.Tests.Ledger.{Balances, ledger_journal, itself, holding}

pub record Counter : Type 0 where
  pub limit : ℕ
  pub remaining : ℕ
  pub refunded : ℕ

-- Refunds are natural numbers here.
abbrev pub counters : GasOps
counters = record {
  Gas = Counter;
  I64 = ℕ;
  zero_refund = 0;
  add_refund = λ a b. a + b;
  limit = λ c. c.limit;
  remaining = λ c. c.remaining;
  refunded = λ c. c.refunded;
  used = λ c. c.limit - (c.remaining + c.refunded);
  new_spent = λ n. record { limit = n; remaining = 0; refunded = 0 };
  erase_cost = λ n c. record c { remaining = c.remaining + n };
  record_refund = λ r c. record c { refunded = c.refunded + r };
  new_spent-limit = λ n. refl;
  new_spent-remaining = λ n. refl;
  new_spent-refunded = λ n. refl;
  erase_cost-limit = λ n c. refl;
  erase_cost-remaining = λ n c. refl;
  erase_cost-refunded = λ n c. refl;
  record_refund-limit = λ r c. refl;
  record_refund-remaining = λ r c. refl;
  record_refund-refunded = λ r c. refl;
  add_refund-zero = λ r. omega arith;
}

abbrev pub sample_frame : FrameResult Counter (Unit {0})
sample_frame = record {
  result = success;
  gas = record { limit = 9_000; remaining = 4_000; refunded = 100 };
  rest = tt;
}

abbrev pub plain_post :
    PostMainnet Balances (Unit {0}) Counter ℕ (Unit {0}) (Unit {0}) (Unit {0}) (Unit {0})
plain_post = record {
  eth_shanghai = tt;
  eip7623_check_gas_floor = λ frame gas. record frame { gas = record frame.gas { remaining = 0 } };
  refund = λ spec gas r. record gas { refunded = gas.refunded + r };
  reimburse_caller = λ tx frame s. (ok tt, holding 0);
  effective_gas_price = λ tx basefee. 2;
  set_floor_gas = λ n gas. gas;
  execution_result = λ frame gas s. (ok tt, s);
}

pub ledger_credits : CreditLaws ledger_journal itself
ledger_credits = record { incr_credits = λ payee x s h fits a. refl }

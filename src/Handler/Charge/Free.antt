-- ===== src/Handler/Charge/Free.antt =====
-- src/handler.rs: `pre_execution` as a whole takes nothing from an L1 message.
use dogeos_revm.Prelude.{ℕ, ◌≡◌, true, arith, Result-cases, inl, inr}
use dogeos_revm.Balances.{SameBalances}
use dogeos_revm.Uint.{UintOps}
use dogeos_revm.Transaction.{ScrollTransaction, is_l1_msg}
use dogeos_revm.Handler.{Cfg}
use dogeos_revm.Handler.Charge.{
  Journal, Mainnet, Context, is_fee_charged, validate_against_state_and_deduct_caller,
  pre_execution,
}
use dogeos_revm.Handler.Charge.Laws.{CallerLaws}
use dogeos_revm.Handler.Charge.L1Message.{l1_message_free}
use dogeos_revm.Handler.Charge.PreExecution.{QuietLaws}

-- All that happens to an L1 message before its execution, under every hardfork and whether it is
-- accepted or refused at any step, leaves each account's balance as it was, its sender's included,
-- where loads, updates of nonces, touches, the access list and the authorization list move no
-- balance.
pub l1_message_pre_execution_free :
    {S D : Type 0} (u : UintOps) (j : Journal S D) (mainnet : Mainnet S D) (cfg : Cfg)
    (tx : ScrollTransaction) (balance : S → ℕ → ℕ)
    → CallerLaws j balance
    → QuietLaws j mainnet balance
    → (c : Context S) → is_l1_msg tx ≡ true
    → SameBalances balance c.journal (pre_execution u j mainnet cfg tx c).1.journal
unfolding pre_execution is_fee_charged
l1_message_pre_execution_free u j mainnet cfg tx balance laws quiet c h a =
    let charging = validate_against_state_and_deduct_caller u j mainnet cfg tx c in
    let loading = mainnet.load_accounts tx charging.1.journal in
    let free = l1_message_free u j mainnet cfg tx balance laws c h a in
    let loaded = quiet.load_accounts_keeps tx charging.1.journal a in
    elim (Result-cases charging.0) [
      | inr (d, f) ↦ ground (arith, free)
      | inl (_, f) ↦ elim (Result-cases loading.0) [
        | inr (d, g) ↦ ground (arith, free, loaded)
        | inl (_, g) ↦ ground (arith, free, loaded, quiet.auth_list_keeps tx loading.1 a)
      ]
    ]

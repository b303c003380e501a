-- ===== src/Handler/Charge/SystemTx.antt =====
-- src/handler.rs: system transactions in `pre_execution`.
use dogeos_revm.Prelude.{◌≡◌, true, false, arith}
use dogeos_revm.Action.{◌>>◌}
use dogeos_revm.Uint.{UintOps}
use dogeos_revm.Transaction.{ScrollTransaction, is_l1_msg, is_system_tx}
use dogeos_revm.Handler.{Cfg}
use dogeos_revm.Handler.Charge.{
  Journal, Mainnet, Context, mainnet_step, is_fee_charged, deduct_before_tsuki_v2,
  deduct_from_tsuki_v2, validate_against_state_and_deduct_caller, pre_execution,
}

module _ {S D : Type 0} (u : UintOps) (j : Journal S D) (mainnet : Mainnet S D) (cfg : Cfg)
    (tx : ScrollTransaction) where
  -- Under every hardfork a system transaction that is no L1 message is charged by revm's own step
  -- and nothing else: the oracle is not read, no L1 fee is computed, so it needs neither its
  -- encoded bytes nor a compression ratio, and the L1 values of the context stay as they are.
  pub system_tx_mainnet_only :
      (c : Context S)
      → is_l1_msg tx ≡ false
      → is_system_tx tx ≡ true
      → pre_execution u j mainnet cfg tx c
        ≡ (mainnet_step (mainnet.validate_against_state_and_deduct_caller tx)
              >> mainnet_step (mainnet.load_accounts tx)
              >> mainnet_step (mainnet.apply_eip7702_auth_list tx))
            c
  unfolding pre_execution validate_against_state_and_deduct_caller deduct_before_tsuki_v2
      deduct_from_tsuki_v2 is_fee_charged
  system_tx_mainnet_only c not_l1 system = ground arith

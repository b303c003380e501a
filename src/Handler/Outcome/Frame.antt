-- ===== src/Handler/Outcome/Frame.antt =====
-- src/handler.rs: the gas of the last frame.
use dogeos_revm.Prelude.{◌≡◌, ◌&&◌, not, if◌then◌else◌, arith}
use dogeos_revm.Transaction.{ScrollTransaction, gas_limit, is_l1_msg}
use dogeos_revm.Handler.Outcome.{GasOps, is_ok_or_revert, is_ok, FrameResult, last_frame_result}

module _ (g : GasOps) {Rest : Type 0} (tx : ScrollTransaction) where
  -- The counter of the last frame becomes one of the whole transaction: its limit is the
  -- transaction's; what is left is what the frame had left after a success or a revert, and nothing
  -- after a halt; the refund is the frame's after a success and zero otherwise, and always zero for
  -- an L1 message. Result and output are the frame's.
  pub last_frame_result_gas :
      (frame : FrameResult g.Gas Rest)
      → let final = last_frame_result g tx frame in
        (g.limit final.gas ≡ gas_limit tx)
        × (g.remaining final.gas
            ≡ (if is_ok_or_revert frame.result then g.remaining frame.gas else 0))
        × (g.refunded final.gas ≡ (
            if is_ok frame.result && not (is_l1_msg tx)
            then g.refunded frame.gas
            else g.zero_refund))
        × (final.result ≡ frame.result)
        × (final.rest ≡ frame.rest)
  unfolding last_frame_result
  last_frame_result_gas frame =
      let spent = g.new_spent (gas_limit tx) in
      let erased = g.erase_cost (g.remaining frame.gas) spent in
      ground (
        arith,
        g.new_spent-limit (gas_limit tx),
        g.new_spent-remaining (gas_limit tx),
        g.new_spent-refunded (gas_limit tx),
        g.erase_cost-limit (g.remaining frame.gas) spent,
        g.erase_cost-remaining (g.remaining frame.gas) spent,
        g.erase_cost-refunded (g.remaining frame.gas) spent,
        g.record_refund-limit (g.refunded frame.gas) erased,
        g.record_refund-remaining (g.refunded frame.gas) erased,
        g.record_refund-refunded (g.refunded frame.gas) erased,
        g.add_refund-zero (g.refunded frame.gas),
      )

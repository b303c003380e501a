-- ===== src/Handler/Outcome.antt =====
-- src/handler.rs: what happens after execution: `last_frame_result`, `eip7623_check_gas_floor`,
-- `refund`, `reimburse_caller`, `reward_beneficiary` and `execution_result`. revm's gas counter, its
-- mainnet steps and its results are taken as the operations that are called.
use dogeos_revm.Prelude.{
  ℕ, Bool, true, false, not, ◌&&◌, if◌then◌else◌, Result, ok, err, map_err, ◌≡◌, ◌-◌, ◌+◌, ◌≤◌,
}
use dogeos_revm.Action.{Action, ◌>>=◌, ◌>>◌, pure, when}
use dogeos_revm.Uint.{UintOps}
use dogeos_revm.Spec.{ScrollSpecId, into_eth_spec_id}
use dogeos_revm.Transaction.{ScrollTransaction, gas_limit, is_l1_msg, is_system_tx}
use dogeos_revm.Handler.{EvmError, Cfg, Block}
use dogeos_revm.Handler.InitialGas.{InitialAndFloorGas}
use dogeos_revm.Handler.Charge.{
  Journal, Context, journaled, mainnet_step, context_l1_cost, tx_l1_cost, Mainnet,
}
pub mod Confined
pub mod Frame
pub mod Reward
pub mod Conservation

-- `InstructionResult`, by the two classes that are tested; a success is of both.
pub data InstructionResult : Type 0 where
  success revert halt : InstructionResult

abbrev pub is_ok_or_revert : InstructionResult → Bool
is_ok_or_revert success = true
is_ok_or_revert revert = true
is_ok_or_revert halt = false

abbrev pub is_ok : InstructionResult → Bool
is_ok success = true
is_ok revert = false
is_ok halt = false

-- revm's `Gas`, whose refund is an `i64`, with the documented effect of what is called: a new
-- counter has nothing left and nothing refunded, erasing a cost gives gas back, and recording a
-- refund adds to it.
pub record GasOps : Type 1 where
  pub Gas : Type 0
  pub I64 : Type 0
  pub zero_refund : I64
  pub add_refund : I64 → I64 → I64
  pub limit : Gas → ℕ
  pub remaining : Gas → ℕ
  pub refunded : Gas → I64
  pub used : Gas → ℕ
  pub new_spent : ℕ → Gas
  pub erase_cost : ℕ → Gas → Gas
  pub record_refund : I64 → Gas → Gas
  pub new_spent-limit : (n : ℕ) → limit (new_spent n) ≡ n
  pub new_spent-remaining : (n : ℕ) → remaining (new_spent n) ≡ 0
  pub new_spent-refunded : (n : ℕ) → refunded (new_spent n) ≡ zero_refund
  pub erase_cost-limit : (n : ℕ) (g : Gas) → limit (erase_cost n g) ≡ limit g
  pub erase_cost-remaining : (n : ℕ) (g : Gas) → remaining (erase_cost n g) ≡ remaining g + n
  pub erase_cost-refunded : (n : ℕ) (g : Gas) → refunded (erase_cost n g) ≡ refunded g
  pub record_refund-limit : (r : I64) (g : Gas) → limit (record_refund r g) ≡ limit g
  pub record_refund-remaining : (r : I64) (g : Gas) → remaining (record_refund r g) ≡ remaining g
  pub record_refund-refunded :
      (r : I64) (g : Gas) → refunded (record_refund r g) ≡ add_refund (refunded g) r
  pub add_refund-zero : (r : I64) → add_refund zero_refund r ≡ r

-- `FrameResult`: its instruction result and its gas; `Rest` stands for the output.
pub record FrameResult (Gas Rest : Type 0) : Type 0 where
  pub result : InstructionResult
  pub gas : Gas
  pub rest : Rest

-- revm's steps after execution. A frame result is changed in place, so a step returns the new one.
pub record PostMainnet (S D Gas I64 Rest SpecId ResultGas Exec : Type 0) : Type 0 where
  pub eth_shanghai : SpecId
  pub eip7623_check_gas_floor : FrameResult Gas Rest → InitialAndFloorGas → FrameResult Gas Rest
  pub refund : SpecId → Gas → I64 → Gas
  pub reimburse_caller : ScrollTransaction → FrameResult Gas Rest → Action S (EvmError D) (Unit {0})
  pub effective_gas_price : ScrollTransaction → ℕ → ℕ
  pub set_floor_gas : ℕ → ResultGas → ResultGas
  pub execution_result : FrameResult Gas Rest → ResultGas → Action S (EvmError D) Exec

module _ (g : GasOps) {Rest : Type 0} (tx : ScrollTransaction) where
  -- `last_frame_result`
  unfoldable pub last_frame_result : FrameResult g.Gas Rest → FrameResult g.Gas Rest
  unfolding is_l1_msg
  last_frame_result frame =
      let remaining = g.remaining frame.gas in
      let refunded = g.refunded frame.gas in
      let spent = g.new_spent (gas_limit tx) in
      let erased = if is_ok_or_revert frame.result then g.erase_cost remaining spent else spent in
      let final =
        if not (is_l1_msg tx) && is_ok frame.result
        then g.record_refund refunded erased
        else erased in
      record frame { gas = final }

module _ {S D : Type 0} (u : UintOps) (j : Journal S D) (g : GasOps)
    {Rest SpecId ResultGas Exec : Type 0}
    (post : PostMainnet S D g.Gas g.I64 Rest SpecId ResultGas Exec) (cfg : Cfg) (block : Block)
    (tx : ScrollTransaction) where
  -- `eip7623_check_gas_floor`
  unfoldable pub eip7623_check_gas_floor :
      FrameResult g.Gas Rest → InitialAndFloorGas → FrameResult g.Gas Rest
  unfolding is_l1_msg
  eip7623_check_gas_floor exec_result init_and_floor_gas =
      if is_l1_msg tx
      then exec_result
      else post.eip7623_check_gas_floor exec_result init_and_floor_gas

  -- `refund`
  unfoldable pub refund : FrameResult g.Gas Rest → g.I64 → FrameResult g.Gas Rest
  unfolding is_l1_msg into_eth_spec_id
  refund exec_result eip7702_refund = if is_l1_msg tx then exec_result else record exec_result {
    gas = post.refund (into_eth_spec_id post.eth_shanghai cfg.spec) exec_result.gas eip7702_refund;
  }

  -- `reimburse_caller`
  unfoldable pub reimburse_caller :
      FrameResult g.Gas Rest → Action (Context S) (EvmError D) (Unit {0})
  unfolding is_l1_msg
  reimburse_caller exec_result =
      if is_l1_msg tx then pure tt else mainnet_step (post.reimburse_caller tx exec_result)

  -- the reward of the beneficiary, for a given L1 cost
  unfoldable pub reward_of : FrameResult g.Gas Rest → ℕ → ℕ
  reward_of exec_result l1_cost =
      u.saturating_add
        (u.saturating_mul (post.effective_gas_price tx block.basefee) (g.used exec_result.gas))
        l1_cost

  -- the L1 cost in `reward_beneficiary`
  unfoldable pub rewarded_l1_cost : Action (Context S) (EvmError D) ℕ
  unfolding is_system_tx tx_l1_cost
  rewarded_l1_cost c =
      if not (is_system_tx tx) then (tx_l1_cost u c.l1_block_info tx cfg.spec, c) else (ok 0, c)

  -- `reward_beneficiary`
  unfoldable pub reward_beneficiary :
      FrameResult g.Gas Rest → Action (Context S) (EvmError D) (Unit {0})
  reward_beneficiary exec_result =
      if is_l1_msg tx
      then pure tt
      else (rewarded_l1_cost >>= λ l1_cost.
          journaled (j.balance_incr block.beneficiary (reward_of exec_result l1_cost)))

  -- `execution_result`
  unfoldable pub execution_result :
      FrameResult g.Gas Rest → ResultGas → Action (Context S) (EvmError D) Exec
  unfolding is_l1_msg
  execution_result result result_gas = mainnet_step (
      post.execution_result result
        (if is_l1_msg tx then post.set_floor_gas 0 result_gas else result_gas))

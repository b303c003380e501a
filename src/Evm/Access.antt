-- ===== src/Evm/Access.antt =====
-- src/evm.rs: `EvmTr` and `InspectorEvmTr`. A method that lends a part by `&mut` is a `Lens`: what
-- it lends, and the EVM after the borrower has written the part. Methods that only forward to
-- revm's `Evm` are forwarded to an interface.
use dogeos_revm.Prelude.{Option}
use dogeos_revm.Action.{Action}
use dogeos_revm.Evm.{ScrollEvm}
pub mod Lawful

pub record Lens (S A : Type 0) : Type 0 where
  pub get : S → A
  pub put : A → S → S

-- revm's own methods of `Evm` that are forwarded to, and `FrameStack::get`.
pub record RevmEvm
    (Ctx Insp Instr Precompiles Stack Frame FrameInit Initialized FrameStep Outcome Error : Type 0)
    : Type 0 where
  pub all : ScrollEvm Ctx Insp Instr Precompiles Stack → Ctx × Instr × Precompiles × Stack
  pub all_mut :
      Lens (ScrollEvm Ctx Insp Instr Precompiles Stack) (Ctx × Instr × Precompiles × Stack)
  pub all_inspector :
      ScrollEvm Ctx Insp Instr Precompiles Stack → Ctx × Instr × Precompiles × Stack × Insp
  pub all_mut_inspector :
      Lens (ScrollEvm Ctx Insp Instr Precompiles Stack) (Ctx × Instr × Precompiles × Stack × Insp)
  pub frame_init : FrameInit → Action (ScrollEvm Ctx Insp Instr Precompiles Stack) Error Initialized
  pub frame_run : Action (ScrollEvm Ctx Insp Instr Precompiles Stack) Error FrameStep
  pub frame_return_result :
      Outcome → Action (ScrollEvm Ctx Insp Instr Precompiles Stack) Error (Option Outcome)
  pub current_frame : Lens Stack Frame

module _ {Ctx Insp Instr Precompiles Stack : Type 0} where
  unfoldable pub ctx : Lens (ScrollEvm Ctx Insp Instr Precompiles Stack) Ctx
  ctx = record { get = λ self. self.ctx; put = λ c self. record self { ctx = c } }

  unfoldable pub ctx_ref : ScrollEvm Ctx Insp Instr Precompiles Stack → Ctx
  ctx_ref self = self.ctx

  unfoldable pub ctx_instructions : Lens (ScrollEvm Ctx Insp Instr Precompiles Stack) (Ctx × Instr)
  ctx_instructions = record {
    get = λ self. (self.ctx, self.instruction);
    put = λ p self. record self { ctx = p.0; instruction = p.1 };
  }

  unfoldable pub ctx_precompiles :
      Lens (ScrollEvm Ctx Insp Instr Precompiles Stack) (Ctx × Precompiles)
  ctx_precompiles = record {
    get = λ self. (self.ctx, self.precompiles);
    put = λ p self. record self { ctx = p.0; precompiles = p.1 };
  }

  unfoldable pub frame_stack : Lens (ScrollEvm Ctx Insp Instr Precompiles Stack) Stack
  frame_stack = record {
    get = λ self. self.frame_stack;
    put = λ s self. record self { frame_stack = s };
  }

  unfoldable pub inspector : Lens (ScrollEvm Ctx Insp Instr Precompiles Stack) Insp
  inspector = record { get = λ self. self.inspector; put = λ i self. record self { inspector = i } }

  unfoldable pub ctx_inspector : Lens (ScrollEvm Ctx Insp Instr Precompiles Stack) (Ctx × Insp)
  ctx_inspector = record {
    get = λ self. (self.ctx, self.inspector);
    put = λ p self. record self { ctx = p.0; inspector = p.1 };
  }

  module _ {Frame FrameInit Initialized FrameStep Outcome Error : Type 0}
      (revm : RevmEvm Ctx Insp Instr Precompiles Stack Frame FrameInit Initialized FrameStep Outcome
        Error) where
    unfoldable pub all :
        ScrollEvm Ctx Insp Instr Precompiles Stack → Ctx × Instr × Precompiles × Stack
    all self = revm.all self

    unfoldable pub all_mut :
        Lens (ScrollEvm Ctx Insp Instr Precompiles Stack) (Ctx × Instr × Precompiles × Stack)
    all_mut = revm.all_mut

    unfoldable pub all_inspector :
        ScrollEvm Ctx Insp Instr Precompiles Stack → Ctx × Instr × Precompiles × Stack × Insp
    all_inspector self = revm.all_inspector self

    unfoldable pub all_mut_inspector :
        Lens (ScrollEvm Ctx Insp Instr Precompiles Stack) (Ctx × Instr × Precompiles × Stack × Insp)
    all_mut_inspector = revm.all_mut_inspector

    unfoldable pub frame_init :
        FrameInit → Action (ScrollEvm Ctx Insp Instr Precompiles Stack) Error Initialized
    frame_init frame_input self = revm.frame_init frame_input self

    unfoldable pub frame_run : Action (ScrollEvm Ctx Insp Instr Precompiles Stack) Error FrameStep
    frame_run self = revm.frame_run self

    unfoldable pub frame_return_result :
        Outcome → Action (ScrollEvm Ctx Insp Instr Precompiles Stack) Error (Option Outcome)
    frame_return_result result self = revm.frame_return_result result self

    unfoldable pub ctx_inspector_frame :
        Lens (ScrollEvm Ctx Insp Instr Precompiles Stack) (Ctx × Insp × Frame)
    ctx_inspector_frame = record {
      get = λ self. (self.ctx, self.inspector, revm.current_frame.get self.frame_stack);
      put = λ p self. record self {
        ctx = p.0;
        inspector = p.1;
        frame_stack = revm.current_frame.put p.2 self.frame_stack;
      };
    }

    unfoldable pub ctx_inspector_frame_instructions :
        Lens (ScrollEvm Ctx Insp Instr Precompiles Stack) (Ctx × Insp × Frame × Instr)
    ctx_inspector_frame_instructions = record {
      get = λ self.
          (self.ctx, self.inspector, revm.current_frame.get self.frame_stack, self.instruction);
      put = λ p self. record self {
        ctx = p.0;
        inspector = p.1;
        frame_stack = revm.current_frame.put p.2 self.frame_stack;
        instruction = p.3;
      };
    }

-- ===== src/Evm/Access/Lawful.antt =====
-- src/evm.rs: what is written through an accessor is what a later read sees, and nothing else.
use dogeos_revm.Prelude.{◌≡◌, arith}
use dogeos_revm.Evm.Access.{Lens, RevmEvm, ctx_inspector_frame_instructions}

-- The three laws of a reference that is lent: reading what was written, writing back what was read,
-- and writing twice.
pub record IsLawful {S A : Type 0} (l : Lens S A) : Type 0 where
  pub get-put : (a : A) (s : S) → l.get (l.put a s) ≡ a
  pub put-get : (s : S) → l.put (l.get s) s ≡ s
  pub put-put : (a b : A) (s : S) → l.put b (l.put a s) ≡ l.put b s

module _
    {Ctx Insp Instr Precompiles Stack Frame FrameInit Initialized FrameStep Outcome Error : Type 0}
    (revm : RevmEvm Ctx Insp Instr Precompiles Stack Frame FrameInit Initialized FrameStep Outcome
      Error) where
  -- Where revm's frame stack lends its current frame lawfully, the accessor that lends context,
  -- inspector, current frame and instructions at once is lawful.
  ctx_inspector_frame_instructions-IsLawful :
      IsLawful revm.current_frame → IsLawful (ctx_inspector_frame_instructions revm)
  unfolding ctx_inspector_frame_instructions
  ctx_inspector_frame_instructions-IsLawful frame = record {
    get-put = λ a s. ground (arith, frame.get-put a.2 s.frame_stack);
    put-get = λ s. ground (arith, frame.put-get s.frame_stack);
    put-put = λ a b s. ground (arith, frame.put-put a.2 b.2 s.frame_stack);
  }

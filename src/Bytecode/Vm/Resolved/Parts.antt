-- ===== src/Bytecode/Vm/Resolved/Parts.antt =====
-- src/kernel-bytecode/vm.ts: the instructions on a graph whose references resolve.
use semantic_systems.Base.{
  ℕ, ◌+◌, ◌<◌, ◌≡◌, refl, List, Option, none, some, length, All, Bool-cases, Option-cases, inl, inr,
  get_elem?-below, leb,
}
use semantic_systems.Kernel.Row.{Text}
use semantic_systems.Kernel.Machine.{is_live}
use semantic_systems.Bytecode.Instruction.{
  ObservableValueType, InstructionGraph, KernelBytecodeBounds,
}
use semantic_systems.Bytecode.Graph.{WellFormed, IsClosed-first}
use semantic_systems.Bytecode.Vm.State.{
  FrameClause, RuntimeValue, RuntimeResult, RuntimeBinding, Locals, Operands, ReturnFrame,
  HandlerFrame, Frame, Frames, InternalResumption, Machine, Store, set_local, operand_depth,
  continuation_depth, handler_clauses, handler_locals, Split, find_handler, runtime_value_has_type,
}
use semantic_systems.Bytecode.Vm.Step.{
  failure, push_operand, push_continuation, continue_here, entered, load_slot, bind_slot, make_pair,
  make_closure, force, call, enter_handler, leave_handler, enter_clause, perform, request,
  use_token, resume_slot,
}
use semantic_systems.Bytecode.Vm.Run.{instruction_at}
use semantic_systems.Bytecode.Vm.Resolved.State.{
  IsPoint, FrameClauseResolves, ValueResolves, ResultResolves, BindingResolves, LocalsResolve,
  OperandsResolve, HandlerResolves, FrameResolves, FramesResolve, TokenResolves, MachineResolves,
  StepBlameless, append_frames-FramesResolve, find_handler-Resolves, find-FrameClauseResolves,
}

handler_locals-LocalsResolve :
    (graph : InstructionGraph) (k : HandlerFrame)
    → HandlerResolves graph k
    → LocalsResolve graph (handler_locals k)
handler_locals-LocalsResolve graph (HandlerFrame.handler_frame l b s cs ls os) (lt, c, h, o) = h

handler_clauses-Resolve :
    (graph : InstructionGraph) (k : HandlerFrame)
    → HandlerResolves graph k
    → All (FrameClauseResolves graph) (handler_clauses k)
handler_clauses-Resolve graph (HandlerFrame.handler_frame l b s cs ls os) (lt, c, h, o) = c

-- The first instruction of a block.
pub entry-IsPoint :
    (graph : InstructionGraph)
    → WellFormed graph
    → (block : ℕ) → block < length graph.blocks
    → IsPoint graph block 0
unfolding instruction_at
entry-IsPoint graph well_formed block lt =
    let (is, e) = get_elem?-below graph.blocks block lt in
    let (i, first) = IsClosed-first is (well_formed.blocks block is e).1 in
    (i, rw (instruction_at, e) first)

module _ (graph : InstructionGraph) (well_formed : WellFormed graph) (bounds : KernelBytecodeBounds)
    (machine : Machine) (store : Store) (h : MachineResolves graph machine) where
  pub push_operand-Blameless :
      (r : RuntimeResult) (operands : Operands)
      → ResultResolves graph r
      → OperandsResolve graph operands
      → StepBlameless graph (push_operand bounds machine store r operands)
  unfolding push_operand failure
  push_operand-Blameless r operands k ks =
      elim (Bool-cases (leb bounds.maximum_operand_stack_depth (operand_depth operands))) [
        | inl full ↦ rw full refl
        | inr room ↦
            rw room
              (record { point = h.point; locals = h.locals; operands = (k, ks); frames = h.frames })
      ]

  pub push_continuation-Blameless :
      (f : Frame) (then_goes_on : Frames → Machine)
      → FrameResolves graph f
      → ((frames : Frames)
          → FramesResolve graph frames
          → MachineResolves graph (then_goes_on frames))
      → StepBlameless graph (push_continuation bounds machine store f then_goes_on)
  unfolding push_continuation failure
  push_continuation-Blameless f then_goes_on k go =
      elim (Bool-cases
        (leb bounds.maximum_continuation_depth (continuation_depth machine.continuation_stack))) [
          | inl full ↦ rw full refl
          | inr room ↦ rw room (go _ (k, h.frames))
        ]

  entered-Resolves :
      (block : ℕ) (locals : Locals) (frames : Frames)
      → block < length graph.blocks
      → LocalsResolve graph locals
      → FramesResolve graph frames
      → MachineResolves graph (entered bounds machine store block locals frames)
  entered-Resolves block locals frames lt ls fs = record {
    point = entry-IsPoint graph well_formed block lt;
    locals = ls;
    operands = tt;
    frames = fs;
  }

  pub load_slot-Blameless :
      (b : Option RuntimeBinding)
      → ((c : RuntimeBinding) → b ≡ some c → BindingResolves graph c)
      → StepBlameless graph (load_slot bounds machine store b)
  unfolding load_slot failure
  load_slot-Blameless (some (RuntimeBinding.bound v)) k =
      push_operand-Blameless _ _ (k _ refl) h.operands
  load_slot-Blameless (some (RuntimeBinding.token t)) k = refl
  load_slot-Blameless none k = refl

  pub bind_slot-Blameless :
      (slot : ℕ) (operands : Operands)
      → OperandsResolve graph operands
      → StepBlameless graph (bind_slot bounds machine store slot operands)
  unfolding bind_slot failure
  bind_slot-Blameless slot (Operands.operand (RuntimeResult.value v) rest) (k, ks) = record {
    point = h.point;
    locals = (k, h.locals);
    operands = ks;
    frames = h.frames;
  }
  bind_slot-Blameless slot (Operands.operand (RuntimeResult.function b p l) rest) k = refl
  bind_slot-Blameless slot Operands.operands_end k = refl

  pub make_pair-Blameless :
      (operands : Operands)
      → OperandsResolve graph operands
      → StepBlameless graph (make_pair bounds machine store operands)
  unfolding make_pair failure
  make_pair-Blameless
        (Operands.operand (RuntimeResult.value v) (Operands.operand (RuntimeResult.value w) rest))
        (k, (l, ks)) =
      push_operand-Blameless _ _ (l, k) ks
  make_pair-Blameless
        (Operands.operand
          (RuntimeResult.value v)
          (Operands.operand (RuntimeResult.function b p l) rest))
        k =
      refl
  make_pair-Blameless (Operands.operand (RuntimeResult.value v) Operands.operands_end) k = refl
  make_pair-Blameless (Operands.operand (RuntimeResult.function b p l) rest) k = refl
  make_pair-Blameless Operands.operands_end k = refl

  pub make_closure-Blameless :
      (close : Locals → RuntimeResult) (o : Option Locals)
      → ((l : Locals) → o ≡ some l → ResultResolves graph (close l))
      → StepBlameless graph (make_closure bounds machine store close o)
  unfolding make_closure failure
  make_closure-Blameless close none k = refl
  make_closure-Blameless close (some captured) k =
      push_operand-Blameless _ _ (k captured refl) h.operands

  pub force-Blameless :
      (operands : Operands)
      → OperandsResolve graph operands
      → StepBlameless graph (force bounds machine store operands)
  unfolding force failure
  force-Blameless (Operands.operand (RuntimeResult.value (RuntimeValue.thunk b l)) rest)
        ((lt, ls), ks) =
      push_continuation-Blameless (continue_here bounds machine store rest)
        (entered bounds machine store b l) (h.point, h.locals, ks)
        (λ frames fs. entered-Resolves b l frames lt ls fs)
  force-Blameless (Operands.operand (RuntimeResult.value RuntimeValue.unit) rest) k = refl
  force-Blameless (Operands.operand (RuntimeResult.value (RuntimeValue.bool b)) rest) k = refl
  force-Blameless (Operands.operand (RuntimeResult.value (RuntimeValue.int b)) rest) k = refl
  force-Blameless (Operands.operand (RuntimeResult.value (RuntimeValue.pair v w)) rest) k = refl
  force-Blameless (Operands.operand (RuntimeResult.function b p l) rest) k = refl
  force-Blameless Operands.operands_end k = refl

  pub call-Blameless :
      (operands : Operands)
      → OperandsResolve graph operands
      → StepBlameless graph (call bounds machine store operands)
  unfolding call failure
  call-Blameless
        (Operands.operand
          (RuntimeResult.value v)
          (Operands.operand (RuntimeResult.function b p l) rest))
        (k, ((lt, ls), ks)) =
      push_continuation-Blameless (continue_here bounds machine store rest)
        (entered bounds machine store b (set_local p (RuntimeBinding.bound v) l))
        (h.point, h.locals, ks) (λ frames fs. entered-Resolves b _ frames lt (k, ls) fs)
  call-Blameless
        (Operands.operand (RuntimeResult.value v) (Operands.operand (RuntimeResult.value w) rest))
        k =
      refl
  call-Blameless (Operands.operand (RuntimeResult.value v) Operands.operands_end) k = refl
  call-Blameless (Operands.operand (RuntimeResult.function b p l) rest) k = refl
  call-Blameless Operands.operands_end k = refl

  pub enter_handler-Blameless :
      (label : Text) (block slot : ℕ) (clauses : List FrameClause)
      → block < length graph.blocks
      → All (FrameClauseResolves graph) clauses
      → StepBlameless graph
          (enter_handler bounds machine store (some label) block slot (some clauses))
  unfolding enter_handler failure
  enter_handler-Blameless label block slot clauses lt cs =
      push_continuation-Blameless
        (Frame.handler (
          HandlerFrame.handler_frame label block slot clauses machine.locals machine.operand_stack))
        (λ frames. record machine { continuation_stack = frames }) (lt, cs, h.locals, h.operands)
        (λ frames fs. record {
          point = h.point;
          locals = h.locals;
          operands = h.operands;
          frames = fs;
        })

  pub leave_handler-Blameless :
      (operands : Operands) (frames : Frames)
      → OperandsResolve graph operands
      → FramesResolve graph frames
      → StepBlameless graph (leave_handler bounds machine store operands frames)
  unfolding leave_handler failure
  leave_handler-Blameless (Operands.operand (RuntimeResult.value v) rest)
        (Frames.frame (Frame.handler (HandlerFrame.handler_frame l b s cs ls os)) outer) (k, ks)
        ((lt, cls, lls, oos), fs) =
      entered-Resolves b _ _ lt (k, lls) ((h.point, lls, oos), fs)
  leave_handler-Blameless (Operands.operand (RuntimeResult.value v) rest)
        (Frames.frame (Frame.return r) outer) k f =
      refl
  leave_handler-Blameless (Operands.operand (RuntimeResult.value v) rest) Frames.frames_end k f =
      refl
  leave_handler-Blameless (Operands.operand (RuntimeResult.function b p l) rest) frames k f = refl
  leave_handler-Blameless Operands.operands_end frames k f = refl

  pub enter_clause-Blameless :
      (o : Option FrameClause) (s : Split) (v : RuntimeValue) (rest : Operands)
      (type : ObservableValueType)
      → ((c : FrameClause) → o ≡ some c → FrameClauseResolves graph c)
      → FramesResolve graph s.captured
      → HandlerResolves graph s.handler
      → FramesResolve graph s.outer
      → ValueResolves graph v
      → OperandsResolve graph rest
      → StepBlameless graph (enter_clause bounds machine store o s v rest type)
  unfolding enter_clause failure
  enter_clause-Blameless none s v rest type cl c k o hv ks = refl
  enter_clause-Blameless (some clause) s v rest type cl c k o hv ks =
      entered-Resolves clause.entry_block _ s.outer (cl clause refl)
        (((h.point, h.locals, ks), k, c), (hv, handler_locals-LocalsResolve graph s.handler k)) o

  pub request-Blameless :
      (owner : ℕ) (l o : Option Text) (t : Option ObservableValueType) (operands : Operands)
      → OperandsResolve graph operands
      → StepBlameless graph (request bounds machine store graph owner l o t operands)
  unfolding request perform failure
  request-Blameless owner (some l) (some o) (some t) (Operands.operand (RuntimeResult.value v) rest)
        (k, ks) =
      elim (Option-cases (find_handler l machine.continuation_stack)) [
        | inl out ↦
            rw out (
              refl,
              record { point = h.point; locals = h.locals; operands = ks; frames = h.frames },
            )
        | inr (s, inside) ↦
            let (c, hd, outer) =
              find_handler-Resolves graph l machine.continuation_stack s h.frames inside in
            rw inside (
              enter_clause-Blameless _ s v rest t
                (λ cl found.
                  find-FrameClauseResolves graph _ _ cl (handler_clauses-Resolve graph s.handler hd)
                    found)
                c hd outer k ks)
      ]
  request-Blameless owner (some l) (some o) (some t)
        (Operands.operand (RuntimeResult.function b p ls) rest) k =
      refl
  request-Blameless owner (some l) (some o) (some t) Operands.operands_end k = refl
  request-Blameless owner (some l) (some o) none operands k = refl
  request-Blameless owner (some l) none t operands k = refl
  request-Blameless owner none o t operands k = refl

  pub use_token-Blameless :
      (t : InternalResumption) (v : RuntimeValue) (rest : Operands)
      → TokenResolves graph t
      → ValueResolves graph v
      → OperandsResolve graph rest
      → StepBlameless graph (use_token bounds machine store t v rest)
  unfolding use_token failure
  use_token-Blameless
        (InternalResumption.resumption id a (ReturnFrame.return_frame b c l os) k captured) v rest
        ((point, ls, oks), hk, cs) hv ks =
      elim (Bool-cases (runtime_value_has_type v a)) [
        | inr misfit ↦ rw misfit refl
        | inl fits ↦ elim (Bool-cases (is_live id store.live_resumptions)) [
          | inr used ↦ rw (fits, used) refl
          | inl live ↦
              elim (Bool-cases (
                leb
                  (continuation_depth machine.continuation_stack + 2 + continuation_depth captured)
                  bounds.maximum_continuation_depth)) [
                    | inr deep ↦ rw (fits, live, deep) refl
                    | inl room ↦
                        elim (Bool-cases
                          (leb bounds.maximum_operand_stack_depth (operand_depth os))) [
                            | inl full ↦ rw (fits, live, room, full) refl
                            | inr free ↦
                                rw (fits, live, room, free)
                                  (record {
                                    point = point;
                                    locals = ls;
                                    operands = (hv, oks);
                                    frames =
                                        append_frames-FramesResolve graph captured _ cs
                                          (hk, ((h.point, h.locals, ks), h.frames));
                                  })
                          ]
                  ]
        ]
      ]

  pub resume_slot-Blameless :
      (b : Option RuntimeBinding) (operands : Operands)
      → ((c : RuntimeBinding) → b ≡ some c → BindingResolves graph c)
      → OperandsResolve graph operands
      → StepBlameless graph (resume_slot bounds machine store b operands)
  unfolding resume_slot failure
  resume_slot-Blameless (some (RuntimeBinding.token t))
        (Operands.operand (RuntimeResult.value v) rest) k (kv, ks) =
      use_token-Blameless t v rest (k _ refl) kv ks
  resume_slot-Blameless (some (RuntimeBinding.token t))
        (Operands.operand (RuntimeResult.function b p l) rest) k ks =
      refl
  resume_slot-Blameless (some (RuntimeBinding.token t)) Operands.operands_end k ks = refl
  resume_slot-Blameless (some (RuntimeBinding.bound v)) operands k ks = refl
  resume_slot-Blameless none operands k ks = refl

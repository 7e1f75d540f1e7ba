-- ===== src/Bytecode/Vm/Bounds/Parts.antt =====
-- src/kernel-bytecode/vm.ts: the instructions keep a machine within its bounds.
use semantic_systems.Base.{
  ℕ, ◌+◌, ◌≤◌, ◌≡◌, sym, Option, none, some, arith, leb, Bool-cases, Option-cases, some-injective,
  inl, inr, List,
}
use semantic_systems.Kernel.Row.{Text, text_eq}
use semantic_systems.Kernel.Machine.{is_live}
use semantic_systems.Bytecode.Instruction.{
  ObservableValueType, Constant, InstructionGraph, KernelBytecodeBounds,
}
use semantic_systems.Bytecode.Vm.State.{
  FrameClause, RuntimeValue, RuntimeResult, RuntimeBinding, Locals, Operands, ReturnFrame,
  HandlerFrame, Frame, Frames, InternalResumption, Machine, Store, operand_depth,
  continuation_depth, append_frames, set_local, runtime_value_has_type, handler_label, Split,
  push_captured, find_handler,
}
use semantic_systems.Bytecode.Vm.Step.{
  failure, push_operand, push_continuation, continue_here, entered, push_bool, push_int, load_slot,
  bind_slot, make_pair, make_closure, force, call, enter_handler, leave_handler, enter_clause,
  perform, request, use_token, resume_slot,
}
use semantic_systems.Bytecode.Vm.Reach.{Leaves}

-- The stacks are no deeper than their bounds, and the number of trace entries has the property.
abbrev pub Within : (ℕ → Type 0) → KernelBytecodeBounds → Machine → Type 0
Within T bounds machine =
    (operand_depth machine.operand_stack ≤ bounds.maximum_operand_stack_depth)
    × (continuation_depth machine.continuation_stack ≤ bounds.maximum_continuation_depth)
    × T machine.trace_entries

-- The stacks are no deeper than their bounds and the trace has no more entries than its bound.
abbrev pub IsWithin : KernelBytecodeBounds → Machine → Type 0
IsWithin bounds = Within (λ n. n ≤ bounds.maximum_trace_entries) bounds

none-some {ℓ} : {A : Type ℓ} {a : A} → none ≡ some a → ⊥
none-some e = cc

split-depth :
    (label : Text) (frames : Frames) (s : Split)
    → find_handler label frames ≡ some s
    → continuation_depth s.captured + 1 + continuation_depth s.outer ≡ continuation_depth frames
unfolding find_handler push_captured continuation_depth
split-depth label Frames.frames_end s e = cc
split-depth label (Frames.frame (Frame.return r) outer) s e =
    elim (Option-cases (find_handler label outer)) [
      | inl e' ↦ cc
      | inr (below, e') ↦
          let same : some (record below { captured = Frames.frame (Frame.return r) below.captured })
              ≡ some s =
            rw e' at e in
          rw (sym (some-injective same)) (omega (arith, split-depth label outer below e'))
    ]
split-depth label (Frames.frame (Frame.handler h) outer) s e =
    elim (Bool-cases (text_eq (handler_label h) label)) [
      | inl here ↦ rw (sym (some-injective (rw here at e))) (omega arith)
      | inr there ↦ elim (Option-cases (find_handler label outer)) [
        | inl e' ↦ absurd (none-some (rw (there, e') at e))
        | inr (below, e') ↦
            rw (sym (some-injective (rw (there, e') at e)))
              (omega (arith, split-depth label outer below e'))
      ]
    ]

append_frames-depth :
    (upper lower : Frames)
    → continuation_depth (append_frames upper lower)
      ≡ continuation_depth upper + continuation_depth lower
unfolding append_frames continuation_depth
append_frames-depth Frames.frames_end lower = omega arith
append_frames-depth (Frames.frame f upper) lower = omega (arith, append_frames-depth upper lower)

module _ (T : ℕ → Type 0) (bounds : KernelBytecodeBounds) (machine : Machine) (store : Store)
    (h : Within T bounds machine) where
  pub push_operand-Within :
      (r : RuntimeResult) (operands : Operands)
      → Leaves (Within T bounds) (push_operand bounds machine store r operands)
  unfolding push_operand failure operand_depth
  push_operand-Within r operands =
      elim (Bool-cases (leb bounds.maximum_operand_stack_depth (operand_depth operands))) [
        | inl full ↦ rw full tt
        | inr room ↦ rw room (ground arith, h.1, h.2)
      ]

  pub push_continuation-Within :
      (f : Frame) (then_goes_on : Frames → Machine)
      → ((frames : Frames)
          → continuation_depth frames ≤ bounds.maximum_continuation_depth
          → Within T bounds (then_goes_on frames))
      → Leaves (Within T bounds) (push_continuation bounds machine store f then_goes_on)
  unfolding push_continuation failure continuation_depth
  push_continuation-Within f then_goes_on k =
      elim (Bool-cases
        (leb bounds.maximum_continuation_depth (continuation_depth machine.continuation_stack))) [
          | inl full ↦ rw full tt
          | inr room ↦ rw room (k _ (ground arith))
        ]

  pub push_bool-Within :
      (c : Option Constant) → Leaves (Within T bounds) (push_bool bounds machine store c)
  unfolding push_bool failure
  push_bool-Within (some (Constant.bool_constant b)) = push_operand-Within _ _
  push_bool-Within (some (Constant.int_constant n)) = tt
  push_bool-Within (some (Constant.text_constant t)) = tt
  push_bool-Within (some (Constant.value_type_constant t)) = tt
  push_bool-Within (some (Constant.computation_type_constant t)) = tt
  push_bool-Within none = tt

  pub push_int-Within :
      (c : Option Constant) → Leaves (Within T bounds) (push_int bounds machine store c)
  unfolding push_int failure
  push_int-Within (some (Constant.int_constant n)) = push_operand-Within _ _
  push_int-Within (some (Constant.bool_constant b)) = tt
  push_int-Within (some (Constant.text_constant t)) = tt
  push_int-Within (some (Constant.value_type_constant t)) = tt
  push_int-Within (some (Constant.computation_type_constant t)) = tt
  push_int-Within none = tt

  pub load_slot-Within :
      (b : Option RuntimeBinding) → Leaves (Within T bounds) (load_slot bounds machine store b)
  unfolding load_slot failure
  load_slot-Within (some (RuntimeBinding.bound v)) = push_operand-Within _ _
  load_slot-Within (some (RuntimeBinding.token t)) = tt
  load_slot-Within none = tt

  pub bind_slot-Within :
      (slot : ℕ) (operands : Operands)
      → operand_depth operands ≤ bounds.maximum_operand_stack_depth
      → Leaves (Within T bounds) (bind_slot bounds machine store slot operands)
  unfolding bind_slot failure operand_depth
  bind_slot-Within slot (Operands.operand (RuntimeResult.value v) rest) le = (omega arith, h.1, h.2)
  bind_slot-Within slot (Operands.operand (RuntimeResult.function b p l) rest) le = tt
  bind_slot-Within slot Operands.operands_end le = tt

  pub make_pair-Within :
      (operands : Operands) → Leaves (Within T bounds) (make_pair bounds machine store operands)
  unfolding make_pair failure
  make_pair-Within
        (Operands.operand (RuntimeResult.value v) (Operands.operand (RuntimeResult.value w) rest)) =
      push_operand-Within _ _
  make_pair-Within
        (Operands.operand
          (RuntimeResult.value v)
          (Operands.operand (RuntimeResult.function b p l) rest)) =
      tt
  make_pair-Within (Operands.operand (RuntimeResult.value v) Operands.operands_end) = tt
  make_pair-Within (Operands.operand (RuntimeResult.function b p l) rest) = tt
  make_pair-Within Operands.operands_end = tt

  pub make_closure-Within :
      (close : Locals → RuntimeResult) (o : Option Locals)
      → Leaves (Within T bounds) (make_closure bounds machine store close o)
  unfolding make_closure failure
  make_closure-Within close none = tt
  make_closure-Within close (some captured) = push_operand-Within _ _

  pub force-Within :
      (operands : Operands) → Leaves (Within T bounds) (force bounds machine store operands)
  unfolding force failure operand_depth
  force-Within (Operands.operand (RuntimeResult.value (RuntimeValue.thunk b l)) rest) =
      push_continuation-Within (continue_here bounds machine store rest)
        (entered bounds machine store b l) (λ frames le. (omega arith, le, h.2))
  force-Within (Operands.operand (RuntimeResult.value RuntimeValue.unit) rest) = tt
  force-Within (Operands.operand (RuntimeResult.value (RuntimeValue.bool b)) rest) = tt
  force-Within (Operands.operand (RuntimeResult.value (RuntimeValue.int b)) rest) = tt
  force-Within (Operands.operand (RuntimeResult.value (RuntimeValue.pair v w)) rest) = tt
  force-Within (Operands.operand (RuntimeResult.function b p l) rest) = tt
  force-Within Operands.operands_end = tt

  pub call-Within :
      (operands : Operands) → Leaves (Within T bounds) (call bounds machine store operands)
  unfolding call failure operand_depth
  call-Within
        (Operands.operand
          (RuntimeResult.value v)
          (Operands.operand (RuntimeResult.function b p l) rest)) =
      push_continuation-Within (continue_here bounds machine store rest)
        (entered bounds machine store b (set_local p (RuntimeBinding.bound v) l))
        (λ frames le. (omega arith, le, h.2))
  call-Within
        (Operands.operand (RuntimeResult.value v) (Operands.operand (RuntimeResult.value w) rest)) =
      tt
  call-Within (Operands.operand (RuntimeResult.value v) Operands.operands_end) = tt
  call-Within (Operands.operand (RuntimeResult.function b p l) rest) = tt
  call-Within Operands.operands_end = tt

  pub enter_handler-Within :
      (label : Option Text) (block slot : ℕ) (clauses : Option (List FrameClause))
      → Leaves (Within T bounds) (enter_handler bounds machine store label block slot clauses)
  unfolding enter_handler failure
  enter_handler-Within (some label) block slot (some clauses) =
      push_continuation-Within
        (Frame.handler (
          HandlerFrame.handler_frame label block slot clauses machine.locals machine.operand_stack))
        (λ frames. record machine { continuation_stack = frames }) (λ frames le. (h.0, le, h.2))
  enter_handler-Within (some label) block slot none = tt
  enter_handler-Within none block slot clauses = tt

  pub leave_handler-Within :
      (operands : Operands) (frames : Frames)
      → continuation_depth frames ≤ bounds.maximum_continuation_depth
      → Leaves (Within T bounds) (leave_handler bounds machine store operands frames)
  unfolding leave_handler failure operand_depth continuation_depth
  leave_handler-Within (Operands.operand (RuntimeResult.value v) rest)
        (Frames.frame (Frame.handler (HandlerFrame.handler_frame l b s cs ls os)) outer) le =
      (omega arith, omega arith, h.2)
  leave_handler-Within (Operands.operand (RuntimeResult.value v) rest)
        (Frames.frame (Frame.return r) outer) le =
      tt
  leave_handler-Within (Operands.operand (RuntimeResult.value v) rest) Frames.frames_end le = tt
  leave_handler-Within (Operands.operand (RuntimeResult.function b p l) rest) frames le = tt
  leave_handler-Within Operands.operands_end frames le = tt

  pub enter_clause-Within :
      (o : Option FrameClause) (s : Split) (v : RuntimeValue) (rest : Operands)
      (type : ObservableValueType)
      → continuation_depth s.outer ≤ bounds.maximum_continuation_depth
      → Leaves (Within T bounds) (enter_clause bounds machine store o s v rest type)
  unfolding enter_clause failure operand_depth
  enter_clause-Within none s v rest type le = tt
  enter_clause-Within (some c) s v rest type le = (omega arith, le, h.2)

  pub request-Within :
      (graph : InstructionGraph) (owner : ℕ) (l o : Option Text) (t : Option ObservableValueType)
      (operands : Operands)
      → operand_depth operands ≤ bounds.maximum_operand_stack_depth
      → Leaves (Within T bounds) (request bounds machine store graph owner l o t operands)
  unfolding request perform failure operand_depth
  request-Within graph owner (some l) (some o) (some t)
        (Operands.operand (RuntimeResult.value v) rest) le =
      elim (Option-cases (find_handler l machine.continuation_stack)) [
        | inl out ↦ rw out (omega arith, h.1, h.2)
        | inr (s, inside) ↦ rw inside (
            enter_clause-Within _ s v rest t
              (omega (arith, h.1, split-depth l machine.continuation_stack s inside)))
      ]
  request-Within graph owner (some l) (some o) (some t)
        (Operands.operand (RuntimeResult.function b p ls) rest) le =
      tt
  request-Within graph owner (some l) (some o) (some t) Operands.operands_end le = tt
  request-Within graph owner (some l) (some o) none operands le = tt
  request-Within graph owner (some l) none t operands le = tt
  request-Within graph owner none o t operands le = tt

  pub use_token-Within :
      (t : InternalResumption) (v : RuntimeValue) (rest : Operands)
      → Leaves (Within T bounds) (use_token bounds machine store t v rest)
  unfolding use_token failure operand_depth continuation_depth append_frames
  use_token-Within
        (InternalResumption.resumption id a (ReturnFrame.return_frame b c l os) k captured) v rest =
      elim (Bool-cases (runtime_value_has_type v a)) [
        | inr misfit ↦ rw misfit tt
        | inl fits ↦ rw fits (elim (Bool-cases (is_live id store.live_resumptions)) [
          | inr used ↦ rw used tt
          | inl live ↦
              rw live
                (elim (Bool-cases (
                  leb
                    (continuation_depth machine.continuation_stack
                      + 2
                      + continuation_depth captured)
                    bounds.maximum_continuation_depth)) [
                      | inr deep ↦ rw deep tt
                      | inl room ↦
                          rw room
                            (elim (Bool-cases
                              (leb bounds.maximum_operand_stack_depth (operand_depth os))) [
                                | inl full ↦ rw full tt
                                | inr free ↦ rw free (
                                  ground arith,
                                  ground (
                                    arith,
                                    append_frames-depth captured (
                                        Frames.frame (Frame.handler k) (
                                          Frames.frame (continue_here bounds machine store rest)
                                            machine.continuation_stack)),
                                  ),
                                  h.2,
                                )
                              ])
                    ])
        ])
      ]

  pub resume_slot-Within :
      (b : Option RuntimeBinding) (operands : Operands)
      → Leaves (Within T bounds) (resume_slot bounds machine store b operands)
  unfolding resume_slot failure
  resume_slot-Within (some (RuntimeBinding.token t))
        (Operands.operand (RuntimeResult.value v) rest) =
      use_token-Within t v rest
  resume_slot-Within (some (RuntimeBinding.token t))
        (Operands.operand (RuntimeResult.function b p l) rest) =
      tt
  resume_slot-Within (some (RuntimeBinding.token t)) Operands.operands_end = tt
  resume_slot-Within (some (RuntimeBinding.bound v)) operands = tt
  resume_slot-Within none operands = tt

-- ===== src/Bytecode/Vm/Bounds.antt =====
-- src/kernel-bytecode/vm.ts: the stacks and the trace of a machine that runs stay within bounds.
mod Parts
use mathlib.Core.Path.{subst}
use semantic_systems.Base.{
  ℕ, zero, suc, ◌+◌, ◌≤◌, ◌<◌, ◌≡◌, refl, sym, Bool, true, false, Option, none, some, arith, leb,
  ltb, ◌⊎◌, Bool-cases, Option-cases, some-injective, inl, inr, List, ◌∷◌, [], if◌then◌else◌, find,
  get_elem?, ◌==◌,
}
use semantic_systems.Kernel.Row.{Text, text_eq}
use semantic_systems.Kernel.Machine.{is_live}
use semantic_systems.Bytecode.Instruction.{
  ObservableValueType, Instruction, Constant, InstructionGraph, KernelBytecodeBounds,
}
use semantic_systems.Bytecode.Vm.State.{
  FrameClause, RuntimeValue, RuntimeResult, RuntimeBinding, Locals, Operands, ReturnFrame,
  HandlerFrame, Frame, Frames, InternalResumption, Machine, Store, operand_depth,
  continuation_depth, append_frames, get_local, set_local, captured_locals, constant_at,
  text_constant_at, value_type_constant_at, runtime_value_has_type, text_clauses, handler_clauses,
  handler_label, Split, push_captured, find_handler,
}
use semantic_systems.Bytecode.Vm.Step.{
  BytecodeExternalSuspension, InternalResult, StepResult, failure, push_operand, push_continuation,
  continue_here, entered, push_bool, push_int, load_slot, bind_slot, make_pair, make_closure, force,
  call, enter_handler, leave_handler, enter_clause, perform, request, frame_operands, use_token,
  resume_slot, return_to, return_result, execute,
}
use semantic_systems.Bytecode.Vm.Run.{
  instruction_at, inconclusive, advanced, execute_at, step, run_machine, initial_machine, run,
  ExternalObservationValue, runtime_observation_value, resumed_machine, resume, Resumed,
}
use semantic_systems.Bytecode.Vm.Reach.{Leaves, StepResult-cases, Suspends, stop-Suspends, Reaches}
unfoldable pub use Parts.{IsWithin, Within}
use semantic_systems.Bytecode.Vm.Bounds.Parts.{
  Within, IsWithin, push_operand-Within, push_continuation-Within, push_bool-Within,
  push_int-Within, load_slot-Within, bind_slot-Within, make_pair-Within, make_closure-Within,
  force-Within, call-Within, enter_handler-Within, leave_handler-Within, enter_clause-Within,
  request-Within, use_token-Within, resume_slot-Within,
}

return_to-Within :
    (T : ℕ → Type 0) (bounds : KernelBytecodeBounds) (machine : Machine) (store : Store)
    (r : RuntimeResult) (frames : Frames)
    → Within T bounds machine
    → continuation_depth frames ≤ bounds.maximum_continuation_depth
    → Leaves (Within T bounds) (return_to bounds machine store r frames)
unfolding return_to push_operand failure operand_depth continuation_depth
return_to-Within T bounds machine store r Frames.frames_end h le = tt
return_to-Within T bounds machine store r (Frames.frame (Frame.handler k) outer) h le = tt
return_to-Within T bounds machine store r
      (Frames.frame (Frame.return (ReturnFrame.return_frame b c l os)) outer) h le =
    elim (Bool-cases (leb bounds.maximum_operand_stack_depth (operand_depth os))) [
      | inl full ↦ rw full tt
      | inr room ↦ rw room (ground arith, omega arith, h.2)
    ]

return_result-Within :
    (T : ℕ → Type 0) (bounds : KernelBytecodeBounds) (machine : Machine) (store : Store)
    (operands : Operands)
    → Within T bounds machine
    → Leaves (Within T bounds) (return_result bounds machine store operands)
unfolding return_result failure
return_result-Within T bounds machine store Operands.operands_end h = tt
return_result-Within T bounds machine store (Operands.operand r rest) h =
    return_to-Within T bounds machine store r machine.continuation_stack h h.1

pub execute-Within :
    (T : ℕ → Type 0) (graph : InstructionGraph) (bounds : KernelBytecodeBounds) (owner : ℕ)
    (machine : Machine) (store : Store) (i : Instruction)
    → Within T bounds machine
    → Leaves (Within T bounds) (execute graph bounds owner machine store i)
unfolding execute
execute-Within T graph bounds owner machine store Instruction.push_unit h =
    push_operand-Within T bounds machine store h _ _
execute-Within T graph bounds owner machine store (Instruction.push_bool slot) h =
    push_bool-Within T bounds machine store h _
execute-Within T graph bounds owner machine store (Instruction.push_int slot) h =
    push_int-Within T bounds machine store h _
execute-Within T graph bounds owner machine store (Instruction.load_slot slot) h =
    load_slot-Within T bounds machine store h _
execute-Within T graph bounds owner machine store (Instruction.bind_slot slot) h =
    bind_slot-Within T bounds machine store h slot _ h.0
execute-Within T graph bounds owner machine store Instruction.make_pair h =
    make_pair-Within T bounds machine store h _
execute-Within T graph bounds owner machine store (Instruction.make_thunk b slots) h =
    make_closure-Within T bounds machine store h _ _
execute-Within T graph bounds owner machine store Instruction.force h =
    force-Within T bounds machine store h _
execute-Within T graph bounds owner machine store (Instruction.make_function b p slots) h =
    make_closure-Within T bounds machine store h _ _
execute-Within T graph bounds owner machine store Instruction.call h =
    call-Within T bounds machine store h _
execute-Within T graph bounds owner machine store (Instruction.jump b) h = h
execute-Within T graph bounds owner machine store (Instruction.enter_handler l b s cs) h =
    enter_handler-Within T bounds machine store h _ b s _
execute-Within T graph bounds owner machine store Instruction.leave_handler h =
    leave_handler-Within T bounds machine store h _ _ h.1
execute-Within T graph bounds owner machine store (Instruction.request l o t) h =
    request-Within T bounds machine store h graph owner _ _ _ _ h.0
execute-Within T graph bounds owner machine store (Instruction.resume_slot slot) h =
    resume_slot-Within T bounds machine store h (get_local machine.locals slot)
      machine.operand_stack
execute-Within T graph bounds owner machine store Instruction.return h =
    return_result-Within T bounds machine store machine.operand_stack h

-- One round of the loop keeps a machine within its bounds.
pub step-IsWithin :
    (graph : InstructionGraph) (bounds : KernelBytecodeBounds) (owner : ℕ) (machine : Machine)
    (store : Store)
    → IsWithin bounds machine
    → Leaves (IsWithin bounds) (step graph bounds owner machine store)
unfolding step inconclusive execute_at failure
step-IsWithin graph bounds owner machine store h =
    elim (Bool-cases (leb bounds.maximum_trace_entries machine.trace_entries)) [
      | inl full ↦ rw full tt
      | inr room ↦
          rw room
            (elim (Option-cases (instruction_at graph machine.block machine.program_counter)) [
              | inl out ↦ rw out tt
              | inr (i, at_i) ↦ rw at_i (
                  execute-Within (λ n. n ≤ bounds.maximum_trace_entries) graph bounds owner
                    (advanced machine) store i (h.0, h.1, ground arith))
            ])
    ]

run_machine-IsWithin :
    (graph : InstructionGraph) (bounds : KernelBytecodeBounds) (owner fuel : ℕ) (machine : Machine)
    (store : Store)
    → IsWithin bounds machine
    → Suspends (IsWithin bounds) (run_machine graph bounds owner fuel machine store).0
unfolding run_machine
run_machine-IsWithin graph bounds owner zero machine store h = tt
run_machine-IsWithin graph bounds owner (suc fuel) machine store h =
    elim (StepResult-cases (step graph bounds owner machine store)) [
      | inl (r, (s, e)) ↦
          rw (Suspends, e)
            (stop-Suspends (IsWithin bounds) r s (
              subst (Leaves (IsWithin bounds)) e
                (step-IsWithin graph bounds owner machine store h)))
      | inr (m, (s, e)) ↦
          rw (Suspends, e)
            (run_machine-IsWithin graph bounds owner fuel m s (
              subst (Leaves (IsWithin bounds)) e
                (step-IsWithin graph bounds owner machine store h)))
    ]

Reaches-IsWithin :
    (graph : InstructionGraph) (bounds : KernelBytecodeBounds) (owner : ℕ) (machine m : Machine)
    (store s : Store)
    → IsWithin bounds machine
    → Reaches graph bounds owner machine store m s
    → IsWithin bounds m
Reaches-IsWithin graph bounds owner machine m store s h Reaches.here = h
Reaches-IsWithin graph bounds owner machine m store s h (Reaches.round e rest) =
    Reaches-IsWithin graph bounds owner _ m _ s
      (subst (Leaves (IsWithin bounds)) e (step-IsWithin graph bounds owner machine store h)) rest

pub initial-IsWithin :
    (graph : InstructionGraph) (bounds : KernelBytecodeBounds)
    → IsWithin bounds (initial_machine graph)
unfolding operand_depth continuation_depth
initial-IsWithin graph bounds = (omega arith, omega arith, omega arith)

-- Every machine that a run comes to has an operand stack, a continuation stack and a trace that
-- are within their bounds.
pub run-Reaches-IsWithin :
    (graph : InstructionGraph) (bounds : KernelBytecodeBounds) (owner : ℕ) (store : Store)
    (machine : Machine) (later : Store)
    → Reaches graph bounds owner (initial_machine graph) store machine later
    → IsWithin bounds machine
run-Reaches-IsWithin graph bounds owner store machine later reached =
    Reaches-IsWithin graph bounds owner (initial_machine graph) machine store later
      (initial-IsWithin graph bounds) reached

resume-IsWithin :
    (token : BytecodeExternalSuspension) (observation : ExternalObservationValue)
    (bounds : KernelBytecodeBounds) (owner : ℕ) (store : Store)
    → IsWithin bounds token.machine
    → Suspends (IsWithin bounds) (resume token observation bounds owner store).result
unfolding resume operand_depth
resume-IsWithin token observation bounds owner store h =
    let v = runtime_observation_value observation in
    elim (Bool-cases (token.owner == owner)) [
      | inr other ↦ rw (Suspends, other) tt
      | inl mine ↦ elim (Bool-cases (runtime_value_has_type v token.result_type)) [
        | inr misfit ↦ rw (Suspends, mine, misfit) tt
        | inl fits ↦ elim (Bool-cases (is_live token.identity store.live_suspensions)) [
          | inr used ↦ rw (Suspends, mine, fits, used) tt
          | inl live ↦
              elim (Bool-cases (
                leb bounds.maximum_operand_stack_depth
                  (operand_depth token.machine.operand_stack))) [
                    | inl full ↦ rw (Suspends, mine, fits, live, full) tt
                    | inr room ↦
                        rw (Suspends, mine, fits, live, room)
                          (run_machine-IsWithin token.graph bounds owner bounds.vm_fuel
                            (resumed_machine token v) _ (ground arith, h.1, h.2))
                  ]
        ]
      ]
    ]

-- The machine of a suspension that a run ends in is within the bounds, and so is
-- one that comes of resuming, with any observation, a suspension whose machine is within them.
pub run-resume-IsWithin :
    (graph : InstructionGraph) (bounds : KernelBytecodeBounds) (owner : ℕ) (store : Store)
    (token : BytecodeExternalSuspension) (observation : ExternalObservationValue)
    → IsWithin bounds token.machine
    → Suspends (IsWithin bounds) (run graph bounds owner store).0
      × Suspends (IsWithin bounds) (resume token observation bounds owner store).result
unfolding run
run-resume-IsWithin graph bounds owner store token observation h = (
  run_machine-IsWithin graph bounds owner bounds.vm_fuel (initial_machine graph) store
      (initial-IsWithin graph bounds),
  resume-IsWithin token observation bounds owner store h,
)

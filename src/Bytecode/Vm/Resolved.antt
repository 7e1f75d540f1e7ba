-- ===== src/Bytecode/Vm/Resolved.antt =====
-- src/kernel-bytecode/vm.ts: a machine on a well-formed graph finds its instructions and constants.
pub mod State
mod Parts
use mathlib.Core.Path.{subst}
use semantic_systems.Base.{
  ℕ, zero, suc, ◌+◌, ◌≤◌, ◌<◌, ◌≡◌, refl, sym, ◌∙◌, Bool, true, false, List, [], ◌∷◌, Option, none,
  some, arith, length, get_elem?, find, All, Bool-cases, Option-cases, inl, inr, some-injective,
  get_elem?-below, leb, ◌^◌, String,
}
use semantic_systems.Kernel.Row.{Text, text_eq}
use semantic_systems.Kernel.Machine.{is_live}
use semantic_systems.Bytecode.Instruction.{
  ObservableValueType, HandlerClause, Instruction, Constant, InstructionGraph, KernelBytecodeBounds,
}
use semantic_systems.Bytecode.Graph.{IsClosed, Resolves, WellFormed, IsClosed-next, IsClosed-first}
use semantic_systems.Bytecode.Vm.State.{
  FrameClause, RuntimeValue, RuntimeResult, RuntimeBinding, Locals, Operands, ReturnFrame,
  HandlerFrame, Frame, Frames, InternalResumption, Machine, Store, append_frames, get_local,
  set_local, captured_locals, constant_at, text_constant_at, operand_depth, continuation_depth,
  value_type_constant_at, text_clauses, handler_clauses, handler_locals, Split, find_handler,
  runtime_value_has_type,
}
use semantic_systems.Bytecode.Vm.Step.{
  StepResult, failure, push_operand, push_continuation, continue_here, entered, push_bool, push_int,
  load_slot, bind_slot, make_pair, make_closure, force, call, enter_handler, leave_handler,
  enter_clause, perform, request, frame_operands, use_token, resume_slot,
}
use semantic_systems.Bytecode.Vm.Run.{instruction_at}
use semantic_systems.Bytecode.Vm.Resolved.State.{
  constant_at_lem, text_constant_at_lem, text_clauses-FrameClauseResolves, ResultBlameless,
  blames_graph, IsPoint, FrameClauseResolves, ValueResolves, ResultResolves, BindingResolves,
  LocalsResolve, OperandsResolve, HandlerResolves, FrameResolves, FramesResolve, TokenResolves,
  MachineResolves, StepBlameless, get_local-BindingResolves, captured_locals-LocalsResolve,
  append_frames-FramesResolve, find_handler-Resolves, find-FrameClauseResolves,
}
use semantic_systems.Bytecode.Vm.Resolved.Parts.{
  entry-IsPoint, push_operand-Blameless, push_continuation-Blameless, load_slot-Blameless,
  bind_slot-Blameless, make_pair-Blameless, make_closure-Blameless, force-Blameless, call-Blameless,
  enter_handler-Blameless, leave_handler-Blameless, enter_clause-Blameless, request-Blameless,
  use_token-Blameless, resume_slot-Blameless,
}
use semantic_systems.Kernel.Types.{ValueType}
use semantic_systems.Kernel.Term.{ComputationTerm, OperationSignature}
use semantic_systems.Bytecode.Compiler.{compile_graph}
use semantic_systems.Bytecode.Compiler.WellFormed.{Fits, compile_graph-Fits}
use semantic_systems.Bytecode.Vm.Step.{
  InternalResult, BytecodeExternalSuspension, return_to, return_result, execute,
}
use semantic_systems.Bytecode.Vm.Run.{
  inconclusive, advanced, execute_at, step, run_machine, initial_machine, run,
  ExternalObservationValue, runtime_observation_value, resumed_machine, Resumed, resume,
}
use semantic_systems.Bytecode.Vm.State.{value_type_of_constant}
use semantic_systems.Bytecode.Vm.Reach.{StepResult-cases}
use semantic_systems.Base.{◌==◌, ◌≢◌, ap, none-some, All-at}

true-false : true ≡ false → ⊥
true-false e = cc

return_to-Blameless :
    (graph : InstructionGraph) (bounds : KernelBytecodeBounds) (machine : Machine) (store : Store)
    (r : RuntimeResult) (frames : Frames)
    → ResultResolves graph r
    → FramesResolve graph frames
    → StepBlameless graph (return_to bounds machine store r frames)
unfolding return_to push_operand failure
return_to-Blameless graph bounds machine store r Frames.frames_end k ks = tt
return_to-Blameless graph bounds machine store r (Frames.frame (Frame.handler h) outer) k ks = refl
return_to-Blameless graph bounds machine store r
      (Frames.frame (Frame.return (ReturnFrame.return_frame b c l os)) outer) k
      ((point, ls, oks), fs) =
    elim (Bool-cases (leb bounds.maximum_operand_stack_depth (operand_depth os))) [
      | inl full ↦ rw full refl
      | inr room ↦ rw room (record { point = point; locals = ls; operands = (k, oks); frames = fs })
    ]

return_result-Blameless :
    (graph : InstructionGraph) (bounds : KernelBytecodeBounds) (machine : Machine) (store : Store)
    (operands : Operands)
    → OperandsResolve graph operands
    → FramesResolve graph machine.continuation_stack
    → StepBlameless graph (return_result bounds machine store operands)
unfolding return_result failure
return_result-Blameless graph bounds machine store Operands.operands_end ks fs = refl
return_result-Blameless graph bounds machine store (Operands.operand r rest) (k, ks) fs =
    return_to-Blameless graph bounds machine store r machine.continuation_stack k fs

module _ (graph : InstructionGraph) (well_formed : WellFormed graph)
    (small : length graph.constants ≤ 2 ^ 53) (bounds : KernelBytecodeBounds) (owner : ℕ) where
  -- An instruction of the graph that is not a `Return`, with an instruction after it.
  module _ (machine : Machine) (store : Store) (h : MachineResolves graph machine) where
    going-Blameless :
        (i : Instruction)
        → Resolves (length graph.blocks) graph.constants i
        → i ≢ Instruction.return
        → StepBlameless graph (execute graph bounds owner machine store i)
    unfolding execute push_bool push_int
    going-Blameless Instruction.push_unit r other =
        push_operand-Blameless graph well_formed bounds machine store h _ _ tt h.operands
    going-Blameless (Instruction.push_bool slot) (b, e) other =
        rw (constant_at_lem graph small slot _ e)
          (push_operand-Blameless graph well_formed bounds machine store h _ _ tt h.operands)
    going-Blameless (Instruction.push_int slot) (n, e) other =
        rw (constant_at_lem graph small slot _ e)
          (push_operand-Blameless graph well_formed bounds machine store h _ _ tt h.operands)
    going-Blameless (Instruction.load_slot slot) r other =
        load_slot-Blameless graph well_formed bounds machine store h _
          (λ c e. get_local-BindingResolves graph machine.locals slot c h.locals e)
    going-Blameless (Instruction.bind_slot slot) r other =
        bind_slot-Blameless graph well_formed bounds machine store h slot _ h.operands
    going-Blameless Instruction.make_pair r other =
        make_pair-Blameless graph well_formed bounds machine store h _ h.operands
    going-Blameless (Instruction.make_thunk b slots) lt other =
        make_closure-Blameless graph well_formed bounds machine store h _ _
          (λ l e. (lt, captured_locals-LocalsResolve graph slots machine.locals l h.locals e))
    going-Blameless Instruction.force r other =
        force-Blameless graph well_formed bounds machine store h _ h.operands
    going-Blameless (Instruction.make_function b p slots) lt other =
        make_closure-Blameless graph well_formed bounds machine store h _ _
          (λ l e. (lt, captured_locals-LocalsResolve graph slots machine.locals l h.locals e))
    going-Blameless Instruction.call r other =
        call-Blameless graph well_formed bounds machine store h _ h.operands
    going-Blameless (Instruction.jump b) lt other = record {
      point = entry-IsPoint graph well_formed b lt;
      locals = h.locals;
      operands = h.operands;
      frames = h.frames;
    }
    going-Blameless (Instruction.enter_handler l b s cs) (text, lt, r) other =
        let (t, e) = text_constant_at_lem graph small l text in
        let (found, (e', k)) = text_clauses-FrameClauseResolves graph small cs r in
        rw (e, e')
          (enter_handler-Blameless graph well_formed bounds machine store h t b s found lt k)
    going-Blameless Instruction.leave_handler r other =
        leave_handler-Blameless graph well_formed bounds machine store h machine.operand_stack
          machine.continuation_stack h.operands h.frames
    going-Blameless (Instruction.request l o t) r other =
        request-Blameless graph well_formed bounds machine store h owner _ _ _ _ h.operands
    going-Blameless (Instruction.resume_slot slot) r other =
        resume_slot-Blameless graph well_formed bounds machine store h
          (get_local machine.locals slot) machine.operand_stack
          (λ c e. get_local-BindingResolves graph machine.locals slot c h.locals e) h.operands
    going-Blameless Instruction.return r other = absurd (other refl)

abbrev is_return : Instruction → Bool
is_return Instruction.return = true
is_return _ = false

is_return-false : (i : Instruction) → is_return i ≡ false → i ≢ Instruction.return
is_return-false i h e = true-false (sym (ap is_return e) ∙ h)

is_return-true : (i : Instruction) → is_return i ≡ true → i ≡ Instruction.return
is_return-true i h = ground arith

-- The instruction at a place is one of a block of the graph.
instruction_at_lem :
    (graph : InstructionGraph) (block counter : ℕ) (i : Instruction)
    → instruction_at graph block counter ≡ some i
    → (is : List Instruction) × ((get_elem? graph.blocks block ≡ some is)
        × (get_elem? is counter ≡ some i))
unfolding instruction_at
instruction_at_lem graph block counter i e = elim (Option-cases (get_elem? graph.blocks block)) [
  | inl out ↦ absurd (none-some (rw (instruction_at, out) at e))
  | inr (is, here) ↦ (is, (here, rw (instruction_at, here) at e))
]

module _ (graph : InstructionGraph) (well_formed : WellFormed graph)
    (small : length graph.constants ≤ 2 ^ 53) (bounds : KernelBytecodeBounds) (owner : ℕ) where
  after-IsPoint :
      (block counter : ℕ) (i : Instruction)
      → instruction_at graph block counter ≡ some i
      → i ≢ Instruction.return
      → IsPoint graph block (counter + 1)
  unfolding instruction_at
  after-IsPoint block counter i e other =
      let (is, (here, at_i)) = instruction_at_lem graph block counter i e in
      let (j, next) = IsClosed-next is counter i (well_formed.blocks block is here).1 at_i other in
      let one : counter + 1 ≡ suc counter = omega arith in (j, rw (instruction_at, here, one) next)

  step-Blameless :
      (machine : Machine) (store : Store)
      → MachineResolves graph machine
      → StepBlameless graph (step graph bounds owner machine store)
  unfolding step inconclusive execute_at execute
  step-Blameless machine store h =
      elim (Bool-cases (leb bounds.maximum_trace_entries machine.trace_entries)) [
        | inl full ↦ rw full tt
        | inr room ↦
            let (i, at_i) = h.point in
            elim (Bool-cases (is_return i)) [
              | inl returns ↦
                  let here = at_i ∙ ap some (is_return-true i returns) in
                  rw (room, here)
                    (return_result-Blameless graph bounds (advanced machine) store
                      machine.operand_stack h.operands h.frames)
              | inr goes ↦
                  let (is, (here, at_is)) =
                    instruction_at_lem graph machine.block machine.program_counter i at_i in
                  rw (room, at_i)
                    (going-Blameless graph well_formed small bounds owner (advanced machine) store
                      (record {
                        point =
                            after-IsPoint machine.block machine.program_counter i at_i
                              (is_return-false i goes);
                        locals = h.locals;
                        operands = h.operands;
                        frames = h.frames;
                      })
                      i
                      (All-at (Resolves (length graph.blocks) graph.constants) is _ i
                        (well_formed.blocks machine.block is here).0 at_is)
                      (is_return-false i goes))
            ]
      ]

  run_machine-Blameless :
      (fuel : ℕ) (machine : Machine) (store : Store)
      → MachineResolves graph machine
      → ResultBlameless graph (run_machine graph bounds owner fuel machine store).0
  unfolding run_machine
  run_machine-Blameless zero machine store h = tt
  run_machine-Blameless (suc fuel) machine store h =
      let one = step-Blameless machine store h in
      elim (StepResult-cases (step graph bounds owner machine store)) [
        | inl (r, (s, e)) ↦ rw (ResultBlameless, run_machine, e) (subst (StepBlameless graph) e one)
        | inr (m, (s, e)) ↦
            rw (ResultBlameless, run_machine, e)
              (run_machine-Blameless fuel m s (subst (StepBlameless graph) e one))
      ]

observation-ValueResolves :
    (graph : InstructionGraph) (o : ExternalObservationValue)
    → ValueResolves graph (runtime_observation_value o)
unfolding runtime_observation_value
observation-ValueResolves graph ExternalObservationValue.unit = tt
observation-ValueResolves graph (ExternalObservationValue.bool b) = tt
observation-ValueResolves graph (ExternalObservationValue.int n) = tt
observation-ValueResolves graph (ExternalObservationValue.pair o p) =
    (observation-ValueResolves graph o, observation-ValueResolves graph p)

-- The graph of a compiled term, when the bound on its constants is at most 2 ^ 53, runs without
-- `invalid-program-counter` and `invalid-constant`, under any bounds; where the run suspends, the
-- suspension has the same graph and its machine is in order.
pub run-compile_graph-Blameless :
    (bounds : KernelBytecodeBounds) (signature : OperationSignature)
    (term : ComputationTerm ValueType) (graph : InstructionGraph) (vm_bounds : KernelBytecodeBounds)
    (owner : ℕ) (store : Store)
    → bounds.maximum_constants ≤ 2 ^ 53
    → compile_graph bounds signature term ≡ inr graph
    → ResultBlameless graph (run graph vm_bounds owner store).0
unfolding run
run-compile_graph-Blameless bounds signature term graph vm_bounds owner store small e =
    let fits = compile_graph-Fits bounds signature term graph e in
    run_machine-Blameless graph fits.well_formed (omega (arith, fits.constants, small)) vm_bounds
      owner vm_bounds.vm_fuel (initial_machine graph) store
      (record {
        point = entry-IsPoint graph fits.well_formed graph.entry_block fits.well_formed.entry;
        locals = tt;
        operands = tt;
        frames = tt;
      })

-- A suspension of a compiled term's graph, whose machine is in order, is resumed without these
-- failures, into results that are in order again.
pub resume-compile_graph-Blameless :
    (bounds : KernelBytecodeBounds) (signature : OperationSignature)
    (term : ComputationTerm ValueType) (token : BytecodeExternalSuspension)
    (observation : ExternalObservationValue) (vm_bounds : KernelBytecodeBounds) (owner : ℕ)
    (store : Store)
    → bounds.maximum_constants ≤ 2 ^ 53
    → compile_graph bounds signature term ≡ inr token.graph
    → MachineResolves token.graph token.machine
    → ResultBlameless token.graph (resume token observation vm_bounds owner store).result
unfolding resume
resume-compile_graph-Blameless bounds signature term token observation vm_bounds owner store small e
      h =
    let fits = compile_graph-Fits bounds signature term token.graph e in
    let v = runtime_observation_value observation in
    elim (Bool-cases (token.owner == owner)) [
      | inr other ↦ rw (ResultBlameless, other) refl
      | inl mine ↦ elim (Bool-cases (runtime_value_has_type v token.result_type)) [
        | inr misfit ↦ rw (ResultBlameless, mine, misfit) refl
        | inl fit ↦ elim (Bool-cases (is_live token.identity store.live_suspensions)) [
          | inr used ↦ rw (ResultBlameless, mine, fit, used) refl
          | inl live ↦
              elim (Bool-cases (
                leb vm_bounds.maximum_operand_stack_depth
                  (operand_depth token.machine.operand_stack))) [
                    | inl full ↦ rw (ResultBlameless, mine, fit, live, full) refl
                    | inr room ↦
                        rw (ResultBlameless, mine, fit, live, room)
                          (run_machine-Blameless token.graph fits.well_formed
                            (omega (arith, fits.constants, small)) vm_bounds owner vm_bounds.vm_fuel
                            (resumed_machine token v) _
                            (record {
                              point = h.point;
                              locals = h.locals;
                              operands =
                                  (observation-ValueResolves token.graph observation, h.operands);
                              frames = h.frames;
                            }))
                  ]
        ]
      ]
    ]

-- ===== src/Bytecode/Tests.antt =====
-- Terms that src/kernel-bytecode compiles and runs, and the theorems at them.
use semantic_systems.Base.{
  ◌≡◌, refl, true, false, [], ◌∷◌, ◌⊎◌, inl, inr, find, String, arith, some,
}
use semantic_systems.Kernel.Grade.{Grade}
use semantic_systems.Kernel.Row.{text_eq}
use semantic_systems.Kernel.Term.{Number, ValueTerm, ComputationTerm, is_safe_integer}
use semantic_systems.Kernel.Types.{ValueType}
use semantic_systems.Kernel.Signature.{declares, operation_declaration}
use semantic_systems.Kernel.Machine.{RuntimeValue, is_live, consume, evaluate}
use semantic_systems.Kernel.Diagnostic.{ok}
use semantic_systems.Kernel.Checker.{check}
use semantic_systems.Bytecode.{
  InstructionGraph, ObservableRuntimeValue, ObservableRuntimeResult, ObservableValueType,
}
use semantic_systems.Bytecode.Compiler.{
  observable_value_type, observable_computation_type, ◌>>=◌, push_at, new_slot, invalid_custody,
  resolve, new_constant, new_block, emit, closed_block, compile_value, compile_computation,
  compile_clauses, compile_graph,
}
use semantic_systems.Bytecode.Compiler.WellFormed.{Fits, compile_graph-Fits}
use semantic_systems.Bytecode.Vm
use semantic_systems.Bytecode.Vm.{
  Store, InternalResult, BytecodeVmError, BytecodeExternalSuspension, StepResult, Machine, Locals,
  Operands, Frames, ReturnFrame, HandlerFrame, InternalResumption, ExternalObservationValue,
  operand_depth, continuation_depth, append_frames, get_local, observable_value, observable_result,
  capture_onto, captured_locals, constant_at, text_of_constant, text_constant_at,
  value_type_of_constant, value_type_constant_at, runtime_value_has_type, text_clauses,
  push_captured, find_handler, failure, push_operand, push_continuation, push_bool, push_int,
  load_slot, bind_slot, make_pair, make_closure, force, call, enter_handler, leave_handler,
  enter_clause, perform, request, use_token, resume_slot, return_to, return_result, execute,
  instruction_at, inconclusive, execute_at, step, run_machine, initial_machine, run,
  runtime_observation_value, resume,
}
use semantic_systems.Bytecode.Vm.Reach.{Suspends, Reaches}
use semantic_systems.Bytecode.Vm.Bounds.{IsWithin, run-Reaches-IsWithin, run-resume-IsWithin}
use semantic_systems.Bytecode.Instruction.{KernelBytecodeBounds}
use semantic_systems.Bytecode.Vm.Fuel.{Ends, run-Ends}
use semantic_systems.Bytecode.Vm.OneShot.{Calls, resume-refuses, goes_on, use_token-stops}
use semantic_systems.Bytecode.Vm.OneShot.Parts.{store_of}
use semantic_systems.Bytecode.Vm.Resolved.State.{ResultBlameless, MachineResolves}
use semantic_systems.Bytecode.Vm.Resolved.{
  run-compile_graph-Blameless, resume-compile_graph-Blameless,
}
use semantic_systems.Bytecode.HandlerReturn.Program.{
  signature, label, get, bound_handler, bound_handler_program,
}
use semantic_systems.Bytecode.HandlerReturn.Checked.{value_of, machine_bounds}
use semantic_systems.Bytecode.HandlerReturn.Compiled.{bounds, empty_store, run_compiled}
use semantic_systems.Bytecode.HandlerReturn.{check-evaluate-run}

check-evaluate-run_example :
    (check signature (bound_handler (Number.pos 5)) ≡ ok (bound_handler_program (Number.pos 5)))
    × (value_of (evaluate (bound_handler_program (Number.pos 5)) machine_bounds)
        ≡ some (RuntimeValue.pair (RuntimeValue.int (Number.pos 5)) RuntimeValue.unit))
    × (run_compiled (compile_graph bounds signature (bound_handler (Number.pos 5)))
        ≡ inr (
            InternalResult.returned
              (ObservableRuntimeResult.value (ObservableRuntimeValue.int (Number.pos 5)))))
unfolding is_safe_integer
check-evaluate-run_example = check-evaluate-run (Number.pos 5) refl

abbrev no_graph : InstructionGraph
no_graph = record { entry_block = 0; blocks = []; constants = [] }

abbrev graph_or_none : String ⊎ InstructionGraph → InstructionGraph
graph_or_none (inl code) = no_graph
graph_or_none (inr graph) = graph

abbrev handled_graph : InstructionGraph
handled_graph = graph_or_none (compile_graph bounds signature (bound_handler (Number.pos 5)))

handled_compiles : compile_graph bounds signature (bound_handler (Number.pos 5)) ≡ inr handled_graph
unfolding observable_value_type observable_computation_type ◌>>=◌ push_at new_slot invalid_custody
    resolve new_constant new_block emit closed_block compile_value compile_computation
    compile_clauses compile_graph text_eq declares operation_declaration find
handled_compiles = refl

-- let x <- s.g () in return x
abbrev ask : ComputationTerm ValueType
ask =
    ComputationTerm.let_in (ComputationTerm.operation Grade.once label get ValueTerm.unit)
      (ComputationTerm.return Grade.once (ValueTerm.variable 0))

abbrev ask_graph : InstructionGraph
ask_graph = graph_or_none (compile_graph bounds signature ask)

ask_compiles : compile_graph bounds signature ask ≡ inr ask_graph
unfolding observable_value_type observable_computation_type ◌>>=◌ push_at new_slot invalid_custody
    resolve new_constant new_block emit closed_block compile_value compile_computation
    compile_clauses compile_graph text_eq declares operation_declaration find
ask_compiles = refl

-- The suspension in which a run of the graph ends.
abbrev suspended_machine : Machine
suspended_machine = record {
  block = 0;
  program_counter = 2;
  locals = Locals.locals_end;
  operand_stack = Operands.operands_end;
  continuation_stack = Frames.frames_end;
  trace_entries = 2;
}

abbrev suspension : BytecodeExternalSuspension
suspension = record {
  identity = 0;
  result_type = ObservableValueType.int;
  owner = 0;
  graph = ask_graph;
  machine = suspended_machine;
}

abbrev asking_store : Store
asking_store = record { live_resumptions = []; live_suspensions = 0 ∷ []; next_identity = 1 }

abbrev token_or : BytecodeExternalSuspension → InternalResult → BytecodeExternalSuspension
token_or other (InternalResult.suspended q token) = token
token_or other (InternalResult.returned v) = other
token_or other (InternalResult.failed e) = other

ask_suspends :
    (token_or (record suspension { identity = 1 }) (run ask_graph bounds 0 empty_store).0
      ≡ suspension)
    × ((run ask_graph bounds 0 empty_store).1 ≡ asking_store)
unfolding observable_value_type observable_computation_type ◌>>=◌ push_at new_slot invalid_custody
    resolve new_constant new_block emit closed_block compile_value compile_computation
    compile_clauses compile_graph text_eq declares operation_declaration find operand_depth
    continuation_depth append_frames get_local observable_value observable_result capture_onto
    captured_locals constant_at text_of_constant text_constant_at value_type_of_constant
    value_type_constant_at runtime_value_has_type text_clauses push_captured find_handler failure
    push_operand push_continuation push_bool push_int load_slot bind_slot make_pair make_closure
    force call enter_handler leave_handler enter_clause perform request use_token resume_slot
    return_to return_result execute instruction_at inconclusive execute_at step run_machine run
    runtime_observation_value resume is_live consume
ask_suspends = (refl, refl)

abbrev five : ExternalObservationValue
five = ExternalObservationValue.int (Number.pos 5)

resumes_applied : (resume suspension five bounds 0 asking_store).applied ≡ true
unfolding observable_value_type observable_computation_type ◌>>=◌ push_at new_slot invalid_custody
    resolve new_constant new_block emit closed_block compile_value compile_computation
    compile_clauses compile_graph text_eq declares operation_declaration find operand_depth
    continuation_depth append_frames get_local observable_value observable_result capture_onto
    captured_locals constant_at text_of_constant text_constant_at value_type_of_constant
    value_type_constant_at runtime_value_has_type text_clauses push_captured find_handler failure
    push_operand push_continuation push_bool push_int load_slot bind_slot make_pair make_closure
    force call enter_handler leave_handler enter_clause perform request use_token resume_slot
    return_to return_result execute instruction_at inconclusive execute_at step run_machine run
    runtime_observation_value resume is_live consume
resumes_applied = refl

compile_graph-Fits_example : Fits bounds handled_graph
compile_graph-Fits_example =
    compile_graph-Fits bounds signature (bound_handler (Number.pos 5)) handled_graph
      handled_compiles

run-compile_graph-Blameless_example :
    ResultBlameless handled_graph (run handled_graph bounds 0 empty_store).0
run-compile_graph-Blameless_example =
    run-compile_graph-Blameless bounds signature (bound_handler (Number.pos 5)) handled_graph bounds
      0 empty_store (omega arith) handled_compiles

suspended_point : MachineResolves ask_graph suspended_machine
unfolding observable_value_type observable_computation_type ◌>>=◌ push_at new_slot invalid_custody
    resolve new_constant new_block emit closed_block compile_value compile_computation
    compile_clauses compile_graph text_eq declares operation_declaration find operand_depth
    continuation_depth append_frames get_local observable_value observable_result capture_onto
    captured_locals constant_at text_of_constant text_constant_at value_type_of_constant
    value_type_constant_at runtime_value_has_type text_clauses push_captured find_handler failure
    push_operand push_continuation push_bool push_int load_slot bind_slot make_pair make_closure
    force call enter_handler leave_handler enter_clause perform request use_token resume_slot
    return_to return_result execute instruction_at inconclusive execute_at step run_machine run
    runtime_observation_value resume is_live consume
suspended_point = record { point = (_, refl); locals = tt; operands = tt; frames = tt }

resume-compile_graph-Blameless_example :
    ResultBlameless ask_graph (resume suspension five bounds 0 asking_store).result
resume-compile_graph-Blameless_example =
    resume-compile_graph-Blameless bounds signature ask suspension five bounds 0 asking_store
      (omega arith) ask_compiles suspended_point

abbrev next_of : StepResult → Machine × Store
next_of (StepResult.next machine store) = (machine, store)
next_of (StepResult.stop result store) = (initial_machine ask_graph, store)

-- The first round of a run.
abbrev first_round : Machine × Store
first_round = next_of (step ask_graph bounds 0 (initial_machine ask_graph) empty_store)

first_round-next :
    step ask_graph bounds 0 (initial_machine ask_graph) empty_store
    ≡ StepResult.next first_round.0 first_round.1
unfolding observable_value_type observable_computation_type ◌>>=◌ push_at new_slot invalid_custody
    resolve new_constant new_block emit closed_block compile_value compile_computation
    compile_clauses compile_graph text_eq declares operation_declaration find operand_depth
    continuation_depth append_frames get_local observable_value observable_result capture_onto
    captured_locals constant_at text_of_constant text_constant_at value_type_of_constant
    value_type_constant_at runtime_value_has_type text_clauses push_captured find_handler failure
    push_operand push_continuation push_bool push_int load_slot bind_slot make_pair make_closure
    force call enter_handler leave_handler enter_clause perform request use_token resume_slot
    return_to return_result execute instruction_at inconclusive execute_at step run_machine run
    runtime_observation_value resume is_live consume
first_round-next = refl

run-Reaches-IsWithin_example : IsWithin bounds first_round.0
run-Reaches-IsWithin_example =
    run-Reaches-IsWithin ask_graph bounds 0 empty_store first_round.0 first_round.1
      (Reaches.round first_round-next Reaches.here)

suspended-IsWithin : IsWithin bounds suspended_machine
unfolding operand_depth continuation_depth
suspended-IsWithin = (omega arith, omega arith, omega arith)

run-resume-IsWithin_example :
    Suspends (IsWithin bounds) (run ask_graph bounds 0 asking_store).0
    × Suspends (IsWithin bounds) (resume suspension five bounds 0 asking_store).result
run-resume-IsWithin_example =
    run-resume-IsWithin ask_graph bounds 0 asking_store suspension five suspended-IsWithin

-- The tokens after the suspension was resumed, and after another run that suspends again, whose
-- suspension is resumed too.
abbrev resumed_store : Store
resumed_store = (resume suspension five bounds 0 asking_store).store

abbrev rerun_store : Store
rerun_store = (run ask_graph bounds 0 resumed_store).1

abbrev second_suspension : BytecodeExternalSuspension
second_suspension = record suspension { identity = 1 }

second_applied : (resume second_suspension five bounds 0 rerun_store).applied ≡ true
unfolding observable_value_type observable_computation_type ◌>>=◌ push_at new_slot invalid_custody
    resolve new_constant new_block emit closed_block compile_value compile_computation
    compile_clauses compile_graph text_eq declares operation_declaration find operand_depth
    continuation_depth append_frames get_local observable_value observable_result capture_onto
    captured_locals constant_at text_of_constant text_constant_at value_type_of_constant
    value_type_constant_at runtime_value_has_type text_clauses push_captured find_handler failure
    push_operand push_continuation push_bool push_int load_slot bind_slot make_pair make_closure
    force call enter_handler leave_handler enter_clause perform request use_token resume_slot
    return_to return_result execute instruction_at inconclusive execute_at step run_machine run
    runtime_observation_value resume is_live consume
second_applied = refl

abbrev later_store : Store
later_store = (resume second_suspension five bounds 0 rerun_store).store

resume-refuses_example :
    ((resume suspension five bounds 0 later_store).applied ≡ false)
    × ((resume suspension five bounds 0 later_store).store ≡ later_store)
resume-refuses_example =
    resume-refuses suspension five five bounds bounds 0 0 asking_store later_store (omega arith)
      resumes_applied
      (Calls.runs ask_graph bounds 0 (Calls.resumes second_suspension five bounds 0 Calls.done))

abbrev resumption : InternalResumption
resumption =
    InternalResumption.resumption 0 ObservableValueType.int
      (ReturnFrame.return_frame 0 2 Locals.locals_end Operands.operands_end)
      (HandlerFrame.handler_frame label 0 0 [] Locals.locals_end Operands.operands_end)
      Frames.frames_end

abbrev handling_store : Store
handling_store = record { live_resumptions = 0 ∷ []; live_suspensions = []; next_identity = 1 }

abbrev answer : Vm.RuntimeValue
answer = Vm.RuntimeValue.int (Number.pos 5)

token_is_used :
    goes_on
      (use_token bounds suspended_machine handling_store resumption answer Operands.operands_end)
    ≡ true
unfolding operand_depth continuation_depth append_frames get_local observable_value
    observable_result capture_onto captured_locals constant_at text_of_constant text_constant_at
    value_type_of_constant value_type_constant_at runtime_value_has_type text_clauses push_captured
    find_handler failure push_operand push_continuation push_bool push_int load_slot bind_slot
    make_pair make_closure force call enter_handler leave_handler enter_clause perform request
    use_token resume_slot return_to return_result execute instruction_at inconclusive execute_at
    step run_machine run runtime_observation_value resume is_live consume
token_is_used = refl

-- The tokens after the use and a run that suspends.
abbrev used_store : Store
used_store =
    store_of
      (use_token bounds suspended_machine handling_store resumption answer Operands.operands_end)

abbrev after_used_store : Store
after_used_store = (run ask_graph bounds 0 used_store).1

use_token-stops_example :
    (goes_on (
        use_token bounds suspended_machine after_used_store resumption answer Operands.operands_end)
      ≡ false)
    × (store_of (
          use_token bounds suspended_machine after_used_store resumption answer
            Operands.operands_end)
        ≡ after_used_store)
use_token-stops_example =
    use_token-stops bounds bounds suspended_machine suspended_machine handling_store
      after_used_store resumption answer answer Operands.operands_end Operands.operands_end
      (omega arith) token_is_used (Calls.runs ask_graph bounds 0 Calls.done)

-- The same bounds with fuel for one round more than the trace has room for.
abbrev fueled_bounds : KernelBytecodeBounds
fueled_bounds = record bounds { vm_fuel = 101 }

run-Ends_example :
    Ends ask_graph fueled_bounds 0
      (initial_machine ask_graph)
      empty_store
      (run ask_graph fueled_bounds 0 empty_store)
run-Ends_example = run-Ends ask_graph fueled_bounds 0 empty_store (omega arith)

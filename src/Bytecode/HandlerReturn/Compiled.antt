-- ===== src/Bytecode/HandlerReturn/Compiled.antt =====
-- The term compiled by src/kernel-bytecode/compiler.ts and run by vm.ts.
use semantic_systems.Base.{◌≡◌, refl, [], ◌⊎◌, inl, inr, find, String}
use semantic_systems.Kernel.Row.{text_eq}
use semantic_systems.Kernel.Term.{Number}
use semantic_systems.Kernel.Signature.{declares, operation_declaration}
use semantic_systems.Kernel.Machine.{is_live, consume}
use semantic_systems.Bytecode.{
  KernelBytecodeBounds, InstructionGraph, ObservableRuntimeValue, ObservableRuntimeResult,
}
use semantic_systems.Bytecode.Compiler.{
  observable_value_type, observable_computation_type, ◌>>=◌, push_at, new_slot, invalid_custody,
  resolve, new_constant, new_block, emit, closed_block, compile_value, compile_computation,
  compile_clauses, compile_graph,
}
use semantic_systems.Bytecode.Vm.{
  Store, InternalResult, operand_depth, continuation_depth, append_frames, get_local,
  observable_value, observable_result, capture_onto, captured_locals, constant_at, text_of_constant,
  text_constant_at, value_type_of_constant, value_type_constant_at, runtime_value_has_type,
  text_clauses, push_captured, find_handler, failure, push_operand, push_continuation, push_bool,
  push_int, load_slot, bind_slot, make_pair, make_closure, force, call, enter_handler,
  leave_handler, enter_clause, perform, request, use_token, resume_slot, return_to, return_result,
  execute, instruction_at, inconclusive, execute_at, step, run_machine, run,
}
use semantic_systems.Bytecode.HandlerReturn.Program.{signature, bound_handler}

abbrev pub bounds : KernelBytecodeBounds
bounds = record {
  maximum_instructions = 100;
  maximum_blocks = 100;
  maximum_constants = 100;
  maximum_operand_stack_depth = 100;
  maximum_continuation_depth = 100;
  vm_fuel = 100;
  maximum_trace_entries = 100;
}

abbrev pub empty_store : Store
empty_store = record { live_resumptions = []; live_suspensions = []; next_identity = 0 }

abbrev pub run_compiled : String ⊎ InstructionGraph → String ⊎ InternalResult
run_compiled (inl code) = inl code
run_compiled (inr graph) = inr (run graph bounds 0 empty_store).0

pub run-bound_handler :
    (n : Number)
    → run_compiled (compile_graph bounds signature (bound_handler n))
      ≡ inr (InternalResult.returned (ObservableRuntimeResult.value (ObservableRuntimeValue.int n)))
unfolding observable_value_type observable_computation_type ◌>>=◌ push_at new_slot invalid_custody
    resolve new_constant new_block emit closed_block compile_value compile_computation
    compile_clauses compile_graph operand_depth continuation_depth append_frames get_local
    observable_value observable_result capture_onto captured_locals constant_at text_of_constant
    text_constant_at value_type_of_constant value_type_constant_at runtime_value_has_type
    text_clauses push_captured find_handler failure push_operand push_continuation push_bool
    push_int load_slot bind_slot make_pair make_closure force call enter_handler leave_handler
    enter_clause perform request use_token resume_slot return_to return_result execute
    instruction_at inconclusive execute_at step run_machine run text_eq declares
    operation_declaration find is_live consume
run-bound_handler n = refl

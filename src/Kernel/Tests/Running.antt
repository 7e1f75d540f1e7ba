-- ===== src/Kernel/Tests/Running.antt =====
-- Runs of the machine of src/kernel-calculus/machine.ts, and the theorems on its safety at them.
use semantic_systems.Base.{◌≡◌, refl, false, String, [], ◌∷◌, Option, none, some, find, get_elem?}
use semantic_systems.Kernel.Row.{text_eq}
use semantic_systems.Kernel.Types.{value_types_equal}
use semantic_systems.Kernel.Term.{Number, is_safe_integer}
use semantic_systems.Kernel.Term.Clone.{operation_signature}
use semantic_systems.Kernel.Diagnostic.{Segment}
use semantic_systems.Kernel.Signature.{declares, operation_declaration}
use semantic_systems.Kernel.Typing.{find_clause}
use semantic_systems.Kernel.Machine.{
  RuntimeValue, RuntimeResult, EvaluationBounds, EvaluationResult, MachineTraceEntry, append_frames,
  get_value, get_token, pair_values, make_thunk, evaluate_value, runtime_value_has_type,
  push_captured, find_handler, is_live, consume, enter_function, return_to, result_step,
  return_step, force_step, suspend, enter_clause, perform, operation_step, use_token, resume_step,
  term_step, step_control, transition, entry_of, run_loop, bound_of, bounds_diagnostic, run_within,
  run_machine, initial_machine, evaluate,
}
use semantic_systems.Kernel.Machine.Typing.{IsSafe}
use semantic_systems.Base.{arith}
use semantic_systems.Kernel.Machine.Bounds.{
  trace_of, is_out_of_fuel, IsWithin, evaluate-IsWithin, evaluate-more_fuel,
}
use semantic_systems.Kernel.Machine.OneShot.{Consumes}
use semantic_systems.Kernel.Machine.OneShot.Run.{evaluate-IsOneShot}
use semantic_systems.Kernel.Grade.{Grade}
use semantic_systems.Kernel.Types.{ValueType}
use semantic_systems.Kernel.Term.{ValueTerm, ComputationTerm, Clauses}
use semantic_systems.Kernel.Tests.Programs.{state_label}
use semantic_systems.Kernel.Machine.{
  Environment, Values, Tokens, InternalResumption, HandlerFrame, Frame, Frames, Control, Machine,
  Split,
}
use semantic_systems.Kernel.Machine.Handlers.{
  FindsNearest, find_handler_lem, frames_of, use_token-find_handler,
}
use semantic_systems.Kernel.Machine.Safety.{transition-IsSafe}
use semantic_systems.Kernel.Machine.Safety.Run.{
  IsSafeResult, initial_machine-MachineTyping, evaluate-IsSafeResult,
}
use semantic_systems.Kernel.Tests.Programs.{
  get_operation, state_signature, ask, answered, ask_program, answered_program, bounds, int_result,
  twice_program,
}
use semantic_systems.Kernel.Tests.Checking.{check-ask, check-answered}

-- The outcome of a run, without its trace.
abbrev pub value_of : EvaluationResult → Option RuntimeValue
value_of (EvaluationResult.returned (RuntimeResult.value v) trace) = some v
value_of _ = none

abbrev pub code_of : EvaluationResult → Option String
code_of (EvaluationResult.runtime_rejected diagnostic trace) = some diagnostic.code
code_of _ = none

answered_returns :
    value_of (evaluate answered_program bounds) ≡ some (RuntimeValue.int (Number.pos 7))
unfolding append_frames get_value get_token pair_values make_thunk evaluate_value
    runtime_value_has_type push_captured find_handler is_live consume enter_function return_to
    result_step return_step force_step suspend enter_clause perform operation_step use_token
    resume_step term_step step_control transition entry_of run_loop bound_of bounds_diagnostic
    run_within run_machine initial_machine evaluate text_eq find_clause operation_declaration
    declares find is_safe_integer value_types_equal
answered_returns = refl

-- The accepted program whose handler forces a thunk twice is rejected when it runs.
twice_is_rejected : code_of (evaluate twice_program bounds) ≡ some "resumption.already-used"
unfolding append_frames get_value get_token pair_values make_thunk evaluate_value
    runtime_value_has_type push_captured find_handler is_live consume enter_function return_to
    result_step return_step force_step suspend enter_clause perform operation_step use_token
    resume_step term_step step_control transition entry_of run_loop bound_of bounds_diagnostic
    run_within run_machine initial_machine evaluate text_eq find_clause operation_declaration
    declares find is_safe_integer value_types_equal
twice_is_rejected = refl

evaluate-IsSafeResult_example :
    IsSafeResult
      (operation_signature state_signature)
      answered_program.type
      (evaluate answered_program bounds)
unfolding bound_of is_safe_integer
evaluate-IsSafeResult_example =
    evaluate-IsSafeResult state_signature answered answered_program bounds 20 19 check-answered refl
      refl

transition-IsSafe_example :
    IsSafe
      (operation_signature state_signature)
      int_result
      (transition (initial_machine ask_program)).outcome
transition-IsSafe_example =
    transition-IsSafe (initial_machine ask_program)
      (initial_machine-MachineTyping state_signature ask ask_program check-ask)

evaluate-IsWithin_example : IsWithin 20 20 (trace_of (evaluate answered_program bounds))
unfolding bound_of is_safe_integer
evaluate-IsWithin_example = evaluate-IsWithin answered_program bounds 20 19 refl refl

abbrev larger : EvaluationBounds
larger = record { fuel = Number.pos 30; maximum_trace_entries = Number.pos 20 }

answered_in_fuel : is_out_of_fuel (evaluate answered_program bounds) ≡ false
unfolding append_frames get_value get_token pair_values make_thunk evaluate_value
    runtime_value_has_type push_captured find_handler is_live consume enter_function return_to
    result_step return_step force_step suspend enter_clause perform operation_step use_token
    resume_step term_step step_control transition entry_of run_loop bound_of bounds_diagnostic
    run_within run_machine initial_machine evaluate text_eq find_clause operation_declaration
    declares find is_safe_integer value_types_equal
answered_in_fuel = refl

evaluate-more_fuel_example : evaluate answered_program larger ≡ evaluate answered_program bounds
unfolding bound_of is_safe_integer
evaluate-more_fuel_example =
    evaluate-more_fuel answered_program bounds larger 20 30 19 refl refl refl refl (omega arith)
      answered_in_fuel

-- The entry that consumes the token of the handled operation, and the one after it.
abbrev consume_entry : MachineTraceEntry
consume_entry = record {
  step = 3;
  rule = "resumption.consume";
  path = Segment.operation_clause get_operation ∷ [];
  operation = none;
  resumption = some 1;
}

abbrev bind_entry : MachineTraceEntry
bind_entry = record {
  step = 4;
  rule = "machine.let-bind";
  path = Segment.computation ∷ [];
  operation = none;
  resumption = none;
}

consume_entry-at : get_elem? (trace_of (evaluate answered_program bounds)) 3 ≡ some consume_entry
unfolding append_frames get_value get_token pair_values make_thunk evaluate_value
    runtime_value_has_type push_captured find_handler is_live consume enter_function return_to
    result_step return_step force_step suspend enter_clause perform operation_step use_token
    resume_step term_step step_control transition entry_of run_loop bound_of bounds_diagnostic
    run_within run_machine initial_machine evaluate text_eq find_clause operation_declaration
    declares find is_safe_integer value_types_equal
consume_entry-at = refl

bind_entry-at : get_elem? (trace_of (evaluate answered_program bounds)) 4 ≡ some bind_entry
unfolding append_frames get_value get_token pair_values make_thunk evaluate_value
    runtime_value_has_type push_captured find_handler is_live consume enter_function return_to
    result_step return_step force_step suspend enter_clause perform operation_step use_token
    resume_step term_step step_control transition entry_of run_loop bound_of bounds_diagnostic
    run_within run_machine initial_machine evaluate text_eq find_clause operation_declaration
    declares find is_safe_integer value_types_equal
bind_entry-at = refl

evaluate-IsOneShot_example : ¬ Consumes 1 bind_entry
evaluate-IsOneShot_example =
    evaluate-IsOneShot answered_program bounds 3 4 1 consume_entry bind_entry (omega arith)
      consume_entry-at bind_entry-at (refl, refl)

-- A handler under a frame, and the stack of both.
abbrev empty : Environment
empty = Environment.environment Values.values_end Tokens.tokens_end

abbrev let_top : Frame
let_top = Frame.let_frame (ComputationTerm.return Grade.once (ValueTerm.variable 0)) empty []

abbrev state_handler : HandlerFrame
state_handler =
    HandlerFrame.handler state_label (ComputationTerm.return Grade.once (ValueTerm.variable 0))
      Clauses.clauses_end empty []

abbrev stack : Frames
stack = Frames.frame let_top (Frames.frame (Frame.handler_frame state_handler) Frames.frames_end)

abbrev stack_split : Split
stack_split = record {
  captured = Frames.frame let_top Frames.frames_end;
  handler = state_handler;
  outer = Frames.frames_end;
}

find_handler_lem_example : FindsNearest state_label stack (find_handler state_label stack)
find_handler_lem_example = find_handler_lem state_label stack

abbrev below_handler : Machine
below_handler = record {
  control = Control.result (RuntimeResult.value RuntimeValue.unit) [];
  frames = Frames.frames_end;
  signature = state_signature;
  live = 1 ∷ [];
  next_identity = 2;
}

use_token-find_handler_example :
    frames_of
      (use_token
        (InternalResumption.resumption 1 ValueType.int state_handler stack_split.captured)
        (RuntimeValue.int (Number.pos 7))
        []
        below_handler).outcome
    ≡ some stack
unfolding find_handler push_captured text_eq runtime_value_has_type is_safe_integer is_live
use_token-find_handler_example =
    use_token-find_handler state_label stack stack_split 1 ValueType.int
      (RuntimeValue.int (Number.pos 7)) [] below_handler refl refl refl refl

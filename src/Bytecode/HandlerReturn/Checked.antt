-- ===== src/Bytecode/HandlerReturn/Checked.antt =====
-- The term under the checker and the abstract machine of src/kernel-calculus.
use semantic_systems.Base.{◌≡◌, refl, true, none}
use semantic_systems.Kernel.Grade.{
  grade_le, multiply_grades, at_least_once, grade_eq, basis_usage, add_usage, scale_usage,
}
use semantic_systems.Kernel.Row.{
  text_eq, effect_row, union_effect_rows, remove_effect_label, effect_rows_equal,
}
use semantic_systems.Kernel.Types.{
  value_types_equal, computation_types_equal, clone_value_type, clone_computation_type,
}
use semantic_systems.Kernel.Term.{is_safe_integer, clause_operations}
use semantic_systems.Kernel.Term.Clone.{
  clone_value_term, clone_computation_term, clone_clauses, clone_declaration, operation_signature,
}
use semantic_systems.Kernel.Diagnostic.{ok, ◌>>=◌, fail}
use semantic_systems.Kernel.Signature.{
  operation_declaration, operations_get, validate_signature, sort_texts, expected_operations,
}
use semantic_systems.Kernel.Checker.{
  added, within_grade, expect_return, expect_thunk, expect_function, require, present, settle,
  add_clauses, handler_result, require_clauses, value, computation, check_clauses, unless_invalid,
  check_copies, check,
}
use semantic_systems.Base.{some, find}
use semantic_systems.Kernel.Signature.{declares}
use semantic_systems.Kernel.Typing.{find_clause}
use semantic_systems.Kernel.Term.{Number}
use semantic_systems.Kernel.Machine.{
  RuntimeValue, RuntimeResult, EvaluationBounds, EvaluationResult, append_frames, get_value,
  get_token, pair_values, make_thunk, evaluate_value, runtime_value_has_type, push_captured,
  find_handler, is_live, consume, enter_function, return_to, result_step, return_step, force_step,
  suspend, enter_clause, perform, operation_step, use_token, resume_step, term_step, step_control,
  transition, entry_of, run_loop, bound_of, bounds_diagnostic, run_within, run_machine,
  initial_machine, evaluate,
}
use semantic_systems.Base.{Option}
use semantic_systems.Bytecode.HandlerReturn.Program.{
  signature, bound_handler, bound_handler_program,
}

pub check-bound_handler :
    (n : Number)
    → is_safe_integer n ≡ true
    → check signature (bound_handler n) ≡ ok (bound_handler_program n)
unfolding check check_copies unless_invalid value computation check_clauses clone_value_term
    clone_computation_term clone_clauses clone_declaration operation_signature clone_value_type
    clone_computation_type validate_signature present require within_grade expect_return
    expect_thunk expect_function added settle add_clauses handler_result require_clauses
    expected_operations operations_get ◌>>=◌ fail grade_le at_least_once multiply_grades basis_usage
    add_usage scale_usage grade_eq union_effect_rows effect_row remove_effect_label
    effect_rows_equal value_types_equal computation_types_equal clause_operations sort_texts
check-bound_handler n safe = rw safe refl

abbrev pub value_of : EvaluationResult → Option RuntimeValue
value_of (EvaluationResult.returned (RuntimeResult.value v) trace) = some v
value_of _ = none

abbrev pub machine_bounds : EvaluationBounds
machine_bounds = record { fuel = Number.pos 20; maximum_trace_entries = Number.pos 20 }

pub evaluate-bound_handler :
    (n : Number)
    → value_of (evaluate (bound_handler_program n) machine_bounds)
      ≡ some (RuntimeValue.pair (RuntimeValue.int n) RuntimeValue.unit)
unfolding append_frames get_value get_token pair_values make_thunk evaluate_value
    runtime_value_has_type push_captured find_handler is_live consume enter_function return_to
    result_step return_step force_step suspend enter_clause perform operation_step use_token
    resume_step term_step step_control transition entry_of run_loop bound_of bounds_diagnostic
    run_within run_machine initial_machine evaluate text_eq find_clause operation_declaration
    declares find is_safe_integer value_types_equal
evaluate-bound_handler n = refl

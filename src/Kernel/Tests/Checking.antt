-- ===== src/Kernel/Tests/Checking.antt =====
-- Programs that src/kernel-calculus/checker.ts accepts, and the theorems on types and effects at them.
use semantic_systems.Base.{◌≡◌, refl, true, [], ◌∷◌, none}
use semantic_systems.Kernel.Grade.{
  Grade, grade_le, multiply_grades, at_least_once, grade_eq, basis_usage, add_usage, scale_usage,
}
use semantic_systems.Kernel.Row.{
  text_eq, includes, effect_row, union_effect_rows, remove_effect_label, effect_row_is_subset,
  effect_rows_equal,
}
use semantic_systems.Kernel.Types.{
  ValueType, value_types_equal, computation_types_equal, clone_value_type, clone_computation_type,
}
use semantic_systems.Kernel.Term.{is_safe_integer, clause_operations}
use semantic_systems.Kernel.Term.Clone.{
  clone_value_term, clone_computation_term, clone_clauses, clone_declaration, operation_signature,
}
use semantic_systems.Kernel.Diagnostic.{ok, err, ◌>>=◌, fail}
use semantic_systems.Kernel.Signature.{
  operation_declaration, operations_get, validate_signature, sort_texts, expected_operations,
}
use semantic_systems.Kernel.Checker.{
  added, within_grade, expect_return, expect_thunk, expect_function, require, present, settle,
  add_clauses, handler_result, require_clauses, value, computation, check_clauses, unless_invalid,
  check_copies, check, check_effect_assertion,
}
use semantic_systems.Base.{◌↔◌, not, ◌&&◌}
use semantic_systems.Base.{◌+◌, length}
use semantic_systems.Kernel.Checker.{CheckedClauses, effects_of}
use semantic_systems.Kernel.Checker.Monotone.{settle-check_clauses}
use semantic_systems.Kernel.Checker.Normal.Types.{IsNormal}
use semantic_systems.Kernel.Checker.Normal.{check-IsNormal}
use semantic_systems.Kernel.Term.{Number, ValueTerm, ComputationTerm, Clauses}
use semantic_systems.Kernel.Checker.Copies.{check-copies}
use semantic_systems.Kernel.Checker.Internal.{check-External}
use semantic_systems.Kernel.Diagnostic.External.{External}
use semantic_systems.Kernel.Checker.Sound.{check-ComputationTyping}
use semantic_systems.Kernel.Checker.Effects.{row_diagnostic, check_effect_assertion_lem}
use semantic_systems.Kernel.Grade.Laws.{
  IsOrderedSemiring, grade-IsOrderedSemiring, IsModule, usage-IsModule,
}
use semantic_systems.Kernel.Row.Order.{IsIncreasing, HasSameLabels}
use semantic_systems.Kernel.Row.Laws.{
  IsSubset, some_row_includes, effect_row-canonical, effect_row_is_subset_iff, row_operations_lem,
}
use semantic_systems.Kernel.Signature.Laws.{operations_get-operation_declaration}
use semantic_systems.Kernel.Types.Equality.{types_equal_iff}
use semantic_systems.Kernel.Typing.{ComputationTyping}
use semantic_systems.Kernel.Tests.Programs.{
  state_label, get_operation, state_signature, ask, answered, ask_program, answered_program,
  put_operation, twice_signature, twice, twice_program, int_result,
}

pub check-ask : check state_signature ask ≡ ok ask_program
unfolding check check_copies unless_invalid value computation check_clauses clone_value_term
    clone_computation_term clone_clauses clone_declaration operation_signature clone_value_type
    clone_computation_type validate_signature present require within_grade expect_return
    expect_thunk expect_function added settle add_clauses handler_result require_clauses
    expected_operations operations_get ◌>>=◌ fail grade_le at_least_once multiply_grades basis_usage
    add_usage scale_usage grade_eq union_effect_rows effect_row remove_effect_label
    effect_rows_equal value_types_equal computation_types_equal clause_operations sort_texts
    is_safe_integer
check-ask = refl

pub check-answered : check state_signature answered ≡ ok answered_program
unfolding check check_copies unless_invalid value computation check_clauses clone_value_term
    clone_computation_term clone_clauses clone_declaration operation_signature clone_value_type
    clone_computation_type validate_signature present require within_grade expect_return
    expect_thunk expect_function added settle add_clauses handler_result require_clauses
    expected_operations operations_get ◌>>=◌ fail grade_le at_least_once multiply_grades basis_usage
    add_usage scale_usage grade_eq union_effect_rows effect_row remove_effect_label
    effect_rows_equal value_types_equal computation_types_equal clause_operations sort_texts
    is_safe_integer
check-answered = refl

-- A term in which one thunk holds the only use of a resumption is accepted, though a handler
-- forces the thunk twice.
pub check-twice : check twice_signature (twice tt) ≡ ok twice_program
unfolding check check_copies unless_invalid value computation check_clauses clone_value_term
    clone_computation_term clone_clauses clone_declaration operation_signature clone_value_type
    clone_computation_type validate_signature present require within_grade expect_return
    expect_thunk expect_function added settle add_clauses handler_result require_clauses
    expected_operations operations_get ◌>>=◌ fail grade_le at_least_once multiply_grades basis_usage
    add_usage scale_usage grade_eq union_effect_rows effect_row remove_effect_label
    effect_rows_equal value_types_equal computation_types_equal clause_operations sort_texts
    is_safe_integer
check-twice = refl

check-ComputationTyping_example :
    (answered_program.signature ≡ operation_signature state_signature)
    × (validate_signature (operation_signature state_signature) ≡ none)
    × ComputationTyping
        (operation_signature state_signature)
        []
        []
        answered_program.term
        answered_program.type
check-ComputationTyping_example =
    check-ComputationTyping state_signature answered answered_program check-answered

check_effect_assertion_lem_example :
    ((check_effect_assertion ask_program (state_label ∷ state_label ∷ []) ≡ ok ask_program.effects)
      ↔ HasSameLabels ask_program.effects (state_label ∷ state_label ∷ []))
    × ((check_effect_assertion ask_program (state_label ∷ state_label ∷ [])
          ≡ err (row_diagnostic "effect.row-mismatch" "checker.effect-assertion"))
        ↔ (IsSubset ask_program.effects (state_label ∷ state_label ∷ [])
            × ¬ HasSameLabels ask_program.effects (state_label ∷ state_label ∷ [])))
    × ((check_effect_assertion ask_program (state_label ∷ state_label ∷ [])
          ≡ err (row_diagnostic "effect.foreign-tunneling" "handler.output-row"))
        ↔ ¬ IsSubset ask_program.effects (state_label ∷ state_label ∷ []))
check_effect_assertion_lem_example =
    check_effect_assertion_lem state_signature ask ask_program (state_label ∷ state_label ∷ [])
      check-ask

operations_get-operation_declaration_example :
    operations_get twice_signature state_label get_operation
    ≡ operation_declaration twice_signature state_label get_operation
unfolding validate_signature
operations_get-operation_declaration_example =
    operations_get-operation_declaration twice_signature state_label get_operation refl

types_equal_iff_example :
    ((value_types_equal ValueType.int ValueType.bool ≡ true) ↔ (ValueType.int ≡ ValueType.bool))
    × ((computation_types_equal int_result int_result ≡ true) ↔ (int_result ≡ int_result))
types_equal_iff_example = types_equal_iff ValueType.int ValueType.bool int_result int_result

effect_row-canonical_example :
    (effect_row (state_label ∷ put_operation ∷ [])
      ≡ effect_row (put_operation ∷ state_label ∷ put_operation ∷ []))
    ↔ HasSameLabels
        (state_label ∷ put_operation ∷ [])
        (put_operation ∷ state_label ∷ put_operation ∷ [])
effect_row-canonical_example =
    effect_row-canonical (state_label ∷ put_operation ∷ [])
      (put_operation ∷ state_label ∷ put_operation ∷ [])

effect_row_is_subset_iff_example :
    (effect_row_is_subset (state_label ∷ []) (put_operation ∷ state_label ∷ []) ≡ true)
    ↔ IsSubset (state_label ∷ []) (put_operation ∷ state_label ∷ [])
effect_row_is_subset_iff_example =
    effect_row_is_subset_iff (state_label ∷ []) (put_operation ∷ state_label ∷ [])

row_operations_lem_example :
    IsIncreasing (union_effect_rows ((state_label ∷ []) ∷ (put_operation ∷ []) ∷ []))
    × (includes (union_effect_rows ((state_label ∷ []) ∷ (put_operation ∷ []) ∷ [])) put_operation
        ≡ some_row_includes ((state_label ∷ []) ∷ (put_operation ∷ []) ∷ []) put_operation)
    × (includes (remove_effect_label (put_operation ∷ state_label ∷ []) state_label) put_operation
        ≡ (includes (put_operation ∷ state_label ∷ []) put_operation
            && not (text_eq put_operation state_label)))
row_operations_lem_example =
    row_operations_lem ((state_label ∷ []) ∷ (put_operation ∷ []) ∷ [])
      (put_operation ∷ state_label ∷ []) state_label put_operation

grade-IsOrderedSemiring_example : IsOrderedSemiring Grade.never Grade.once Grade.omega Grade.once
grade-IsOrderedSemiring_example =
    grade-IsOrderedSemiring Grade.never Grade.once Grade.omega Grade.once

usage-IsModule_example :
    IsModule Grade.omega Grade.once (Grade.once ∷ []) (Grade.never ∷ Grade.once ∷ [])
usage-IsModule_example =
    usage-IsModule Grade.omega Grade.once (Grade.once ∷ []) (Grade.never ∷ Grade.once ∷ [])

check-External_example : External (λ program. program.usage ≡ []) (check twice_signature (twice tt))
check-External_example = check-External twice_signature (twice tt)

check-IsNormal_example : IsNormal ask_program.type × IsIncreasing ask_program.effects
check-IsNormal_example = check-IsNormal state_signature ask ask_program check-ask

-- The clauses of the handler that answers 7, and what checking them gives.
abbrev answer : Clauses (Unit {0})
answer =
    Clauses.clause get_operation (ComputationTerm.resume 0 (ValueTerm.int (Number.pos 7)))
      Clauses.clauses_end

abbrev no_clauses : CheckedClauses
no_clauses = record { terms = Clauses.clauses_end; clauses = [] }

abbrev answer_checked : CheckedClauses
answer_checked = record {
  terms =
      Clauses.clause get_operation (ComputationTerm.resume 0 (ValueTerm.int (Number.pos 7)))
        Clauses.clauses_end;
  clauses =
      record {
        term = ComputationTerm.resume 0 (ValueTerm.int (Number.pos 7));
        type = int_result;
        effects = [];
        usage = Grade.never ∷ [];
        resumption_usage = Grade.once ∷ [];
      }
      ∷ [];
}

settle-answer :
    settle
      (length state_signature + 1)
      (λ e. check_clauses state_signature answer state_label int_result e [] [] [] 0)
      []
      []
      (union_effect_rows ([] ∷ [] ∷ []))
      no_clauses
    ≡ ok ([], answer_checked)
unfolding check check_copies unless_invalid value computation check_clauses clone_value_term
    clone_computation_term clone_clauses clone_declaration operation_signature clone_value_type
    clone_computation_type validate_signature present require within_grade expect_return
    expect_thunk expect_function added settle add_clauses handler_result require_clauses
    expected_operations operations_get ◌>>=◌ fail grade_le at_least_once multiply_grades basis_usage
    add_usage scale_usage grade_eq union_effect_rows effect_row remove_effect_label
    effect_rows_equal value_types_equal computation_types_equal clause_operations sort_texts
    is_safe_integer
settle-answer = refl

settle-check_clauses_example :
    (check_clauses state_signature answer state_label int_result [] [] [] [] 0 ≡ ok answer_checked)
    × (union_effect_rows ([] ∷ [] ∷ effects_of answer_checked.clauses) ≡ [])
settle-check_clauses_example =
    settle-check_clauses state_signature answer state_label int_result [] [] [] [] [] [] no_clauses
      answer_checked 0 refl settle-answer

check-copies_example :
    check (operation_signature twice_signature) (clone_computation_term (twice tt))
    ≡ check twice_signature (twice tt)
check-copies_example = check-copies twice_signature (twice tt)

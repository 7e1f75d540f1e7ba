-- ===== src/Kernel/Checker/Rules.antt =====
-- src/kernel-calculus/checker.ts: the methods of the class `AlgorithmicChecker`.
use semantic_systems.Base.{ℕ, ◌+◌, ltb, List, [], ◌∷◌, length, get_elem?, tail}
use semantic_systems.Kernel.Grade.{
  Grade, grade_eq, multiply_grades, at_least_once, zero_usage, basis_usage, scale_usage,
}
use semantic_systems.Kernel.Row.{
  Text, EffectRow, effect_row, union_effect_rows, remove_effect_label, effect_rows_equal,
}
use semantic_systems.Kernel.Types.{
  ValueType, ComputationType, value_types_equal, computation_types_equal,
}
use semantic_systems.Kernel.Term.{
  is_safe_integer, ValueTerm, ComputationTerm, Clauses, clause_operations, OperationSignature,
}
use semantic_systems.Kernel.Diagnostic.{Segment, TermPath, Result, ok, ◌>>=◌, ◌>>◌, fail}
use semantic_systems.Kernel.Signature.{operations_get, sort_texts, expected_operations}
use semantic_systems.Kernel.Checker.Parts.{
  Context, Resumptions, CheckedValue, CheckedComputation, CheckedClauses, added, binder_use,
  within_grade, expect_return, expect_thunk, expect_function, require, present, settle, add_clauses,
}

-- `handler` after its computation, its return clause and its clauses: the usage of all.
unfoldable pub handler_result :
    CheckedComputation
    → CheckedComputation
    → Text
    → EffectRow × CheckedClauses
    → Result CheckedComputation
handler_result handled returned label (effects, checked) = do
  usage ← added handled.usage (tail returned.usage)
  resumption_usage ← added handled.resumption_usage returned.resumption_usage
  (usage', resumption_usage') ← add_clauses usage resumption_usage checked.clauses
  ok (record {
    term = ComputationTerm.handle label handled.term returned.term checked.terms;
    type = returned.type;
    effects = effects;
    usage = usage';
    resumption_usage = resumption_usage';
  })

-- The checks of `handler` between its computation and its return clause.
unfoldable pub require_clauses :
    OperationSignature → Text → List Text → TermPath → Result (Unit {0})
require_clauses signature label operations path = do
  let expected = expected_operations signature label
  require (ltb 0 (length expected)) "handler.label-unknown" "handler.signature" path
  require (effect_rows_equal (sort_texts operations) expected) "handler.clauses-inexact"
      "handler.signature" (Segment.operation_clauses ∷ path)

module _ (signature : OperationSignature) where
  unfoldable mutual
    pub value : ValueTerm (Unit {0}) → Context → Resumptions → TermPath → Result CheckedValue
    value (ValueTerm.variable index) context resumptions path = do
      type ← present (get_elem? context index) "scope.variable-out-of-range" "value.variable" path
      ok (record {
        term = ValueTerm.variable index;
        type = type;
        usage = basis_usage (length context) index;
        resumption_usage = zero_usage (length resumptions);
      })
    value ValueTerm.unit context resumptions path = ok (record {
      term = ValueTerm.unit;
      type = ValueType.unit;
      usage = zero_usage (length context);
      resumption_usage = zero_usage (length resumptions);
    })
    value (ValueTerm.bool b) context resumptions path = ok (record {
      term = ValueTerm.bool b;
      type = ValueType.bool;
      usage = zero_usage (length context);
      resumption_usage = zero_usage (length resumptions);
    })
    value (ValueTerm.int n) context resumptions path = do
      require (is_safe_integer n) "value.integer-out-of-range" "value.int" path
      ok (record {
        term = ValueTerm.int n;
        type = ValueType.int;
        usage = zero_usage (length context);
        resumption_usage = zero_usage (length resumptions);
      })
    value (ValueTerm.pair a b) context resumptions path = do
      first ← value a context resumptions (Segment.first ∷ path)
      second ← value b context resumptions (Segment.second ∷ path)
      usage ← added first.usage second.usage
      resumption_usage ← added first.resumption_usage second.resumption_usage
      ok (record {
        term = ValueTerm.pair first.term second.term;
        type = ValueType.pair first.type second.type;
        usage = usage;
        resumption_usage = resumption_usage;
      })
    value (ValueTerm.thunk _ c) context resumptions path = do
      body ← computation c context resumptions (Segment.body ∷ path)
      let type = ValueType.thunk body.effects body.type
      ok (record {
        term = ValueTerm.thunk type body.term;
        type = type;
        usage = body.usage;
        resumption_usage = body.resumption_usage;
      })
    value (ValueTerm.resumption index) context resumptions path =
        fail "resumption.escape" "value.resumption-forbidden" path

    pub computation :
        ComputationTerm (Unit {0}) → Context → Resumptions → TermPath → Result CheckedComputation
    computation (ComputationTerm.return grade v) context resumptions path = do
      checked ← value v context resumptions (Segment.value ∷ path)
      ok (record {
        term = ComputationTerm.return grade checked.term;
        type = ComputationType.return grade checked.type;
        effects = effect_row [];
        usage = scale_usage grade checked.usage;
        resumption_usage = scale_usage grade checked.resumption_usage;
      })
    computation (ComputationTerm.let_in c d) context resumptions path = do
      bound ← computation c context resumptions (Segment.bound ∷ path)
      (bound_grade, bound_type) ← expect_return bound.type "computation.let" (Segment.bound ∷ path)
      body ← computation d (bound_type ∷ context) resumptions (Segment.body ∷ path)
      (body_grade, _) ← expect_return body.type "computation.let" (Segment.body ∷ path)
      let limit = multiply_grades bound_grade (at_least_once body_grade)
      within_grade (binder_use body.usage) limit "computation.let" (Segment.body ∷ path)
      usage ← added (scale_usage (at_least_once body_grade) bound.usage) (tail body.usage)
      resumption_usage ←
          added (scale_usage (at_least_once body_grade) bound.resumption_usage)
            body.resumption_usage
      ok (record {
        term = ComputationTerm.let_in bound.term body.term;
        type = body.type;
        effects = union_effect_rows (bound.effects ∷ body.effects ∷ []);
        usage = usage;
        resumption_usage = resumption_usage;
      })
    computation (ComputationTerm.force v) context resumptions path = do
      checked ← value v context resumptions (Segment.value ∷ path)
      (effects, type) ← expect_thunk checked.type (Segment.value ∷ path)
      ok (record {
        term = ComputationTerm.force checked.term;
        type = type;
        effects = effects;
        usage = checked.usage;
        resumption_usage = checked.resumption_usage;
      })
    computation (ComputationTerm.lambda parameter_type grade c) context resumptions path = do
      body ← computation c (parameter_type ∷ context) resumptions (Segment.body ∷ path)
      within_grade (binder_use body.usage) grade "computation.lambda" (Segment.body ∷ path)
      ok (record {
        term = ComputationTerm.lambda parameter_type grade body.term;
        type = ComputationType.function parameter_type grade body.effects body.type;
        effects = effect_row [];
        usage = tail body.usage;
        resumption_usage = body.resumption_usage;
      })
    computation (ComputationTerm.apply c v) context resumptions path = do
      callee ← computation c context resumptions (Segment.computation ∷ path)
      parts ← expect_function callee.type (Segment.computation ∷ path)
      argument ← value v context resumptions (Segment.argument ∷ path)
      require (value_types_equal argument.type parts.parameter) "type.argument-mismatch"
          "computation.apply" (Segment.argument ∷ path)
      usage ← added callee.usage (scale_usage parts.grade argument.usage)
      resumption_usage ←
          added callee.resumption_usage (scale_usage parts.grade argument.resumption_usage)
      ok (record {
        term = ComputationTerm.apply callee.term argument.term;
        type = parts.result;
        effects = union_effect_rows (callee.effects ∷ parts.effects ∷ []);
        usage = usage;
        resumption_usage = resumption_usage;
      })
    computation (ComputationTerm.operation grade label name v) context resumptions path = do
      declaration ←
          present (operations_get signature label name) "signature.operation-unknown"
            "computation.operation" path
      argument ← value v context resumptions (Segment.argument ∷ path)
      require (value_types_equal argument.type declaration.argument_type)
          "type.operation-argument-mismatch" "computation.operation" (Segment.argument ∷ path)
      ok (record {
        term = ComputationTerm.operation grade label name argument.term;
        type = ComputationType.return grade declaration.result_type;
        effects = effect_row (label ∷ []);
        usage = argument.usage;
        resumption_usage = argument.resumption_usage;
      })
    computation (ComputationTerm.handle label c r clauses) context resumptions path = do
      handled ← computation c context resumptions (Segment.computation ∷ path)
      (grade, type) ← expect_return handled.type "handler.input" (Segment.computation ∷ path)
      require_clauses signature label (clause_operations clauses) path
      returned ← computation r (type ∷ context) resumptions (Segment.return_clause_body ∷ path)
      (returned_grade, _) ←
          expect_return returned.type "handler.return" (Segment.return_clause_body ∷ path)
      require (grade_eq returned_grade grade) "type.handler-grade-mismatch" "handler.return"
          (Segment.return_clause_body ∷ path)
      within_grade (binder_use returned.usage) grade "handler.return"
          (Segment.return_clause_body ∷ path)
      let residual = remove_effect_label handled.effects label
      settled ←
          settle (length signature + 1)
            (λ assumed.
              check_clauses clauses label returned.type assumed context resumptions path 0)
            residual returned.effects (union_effect_rows (residual ∷ returned.effects ∷ []))
            (record { terms = Clauses.clauses_end; clauses = [] })
      handler_result handled returned label settled
    computation (ComputationTerm.resume index v) context resumptions path = do
      expectation ←
          present (get_elem? resumptions index) "scope.resumption-out-of-range" "computation.resume"
            path
      checked ← value v context resumptions (Segment.value ∷ path)
      require (value_types_equal checked.type expectation.input) "type.resumption-argument-mismatch"
          "computation.resume" (Segment.value ∷ path)
      resumption_usage ← added checked.resumption_usage (basis_usage (length resumptions) index)
      ok (record {
        term = ComputationTerm.resume index checked.term;
        type = expectation.output;
        effects = expectation.effects;
        usage = checked.usage;
        resumption_usage = resumption_usage;
      })

    -- One round of the loop over the clauses from the index `i` on.
    pub check_clauses :
        Clauses (Unit {0})
        → Text
        → ComputationType
        → EffectRow
        → Context
        → Resumptions
        → TermPath
        → ℕ
        → Result CheckedClauses
    check_clauses Clauses.clauses_end label output assumed context resumptions path i =
        ok (record { terms = Clauses.clauses_end; clauses = [] })
    check_clauses (Clauses.clause name c rest) label output assumed context resumptions path i = do
      let at = Segment.operation_clause_body i ∷ path
      declaration ←
          present (operations_get signature label name) "checker.invalid-input" "checker.boundary"
            []
      checked ←
          computation c (declaration.argument_type ∷ context)
            (record { input = declaration.result_type; output = output; effects = assumed }
              ∷ resumptions)
            at
      require (computation_types_equal checked.type output) "type.handler-clause-mismatch"
          "handler.operation" at
      within_grade (binder_use checked.resumption_usage) Grade.once "handler.operation" at
      others ← check_clauses rest label output assumed context resumptions path (i + 1)
      ok (record {
        terms = Clauses.clause name checked.term others.terms;
        clauses = checked ∷ others.clauses;
      })

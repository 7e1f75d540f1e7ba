-- ===== src/Kernel/Tests/Programs.antt =====
-- Small programs of the kernel calculus for the tests.
use semantic_systems.Base.{[], ◌∷◌}
use semantic_systems.Kernel.Grade.{Grade}
use semantic_systems.Kernel.Row.{Text}
use semantic_systems.Kernel.Types.{ValueType, ComputationType}
use semantic_systems.Kernel.Term.{Number, ValueTerm, ComputationTerm, Clauses, OperationSignature}
use semantic_systems.Kernel.Checker.{Accepted}
use semantic_systems.Kernel.Machine.{EvaluationBounds}

-- "s" and "g".
abbrev pub state_label : Text
state_label = 115 ∷ []

abbrev pub get_operation : Text
get_operation = 103 ∷ []

abbrev pub state_signature : OperationSignature
state_signature =
    record {
      label = state_label;
      operation = get_operation;
      argument_type = ValueType.unit;
      result_type = ValueType.int;
    }
    ∷ []

-- let x <- s.g () in return x
abbrev pub ask : {A : Type 0} → ComputationTerm A
ask =
    ComputationTerm.let_in
      (ComputationTerm.operation Grade.once state_label get_operation ValueTerm.unit)
      (ComputationTerm.return Grade.once (ValueTerm.variable 0))

-- The same under a handler that answers 7.
abbrev pub answered : {A : Type 0} → ComputationTerm A
answered =
    ComputationTerm.handle state_label ask
      (ComputationTerm.return Grade.once (ValueTerm.variable 0))
      (Clauses.clause get_operation (ComputationTerm.resume 0 (ValueTerm.int (Number.pos 7)))
        Clauses.clauses_end)

abbrev pub int_result : ComputationType
int_result = ComputationType.return Grade.once ValueType.int

abbrev pub ask_program : Accepted
ask_program = record {
  type = int_result;
  effects = state_label ∷ [];
  usage = [];
  signature = state_signature;
  term = ask;
}

abbrev pub answered_program : Accepted
answered_program = record {
  type = int_result;
  effects = [];
  usage = [];
  signature = state_signature;
  term = answered;
}

abbrev pub bounds : EvaluationBounds
bounds = record { fuel = Number.pos 20; maximum_trace_entries = Number.pos 20 }

-- A thunk that resumes goes with a request to a handler, which forces it twice.
abbrev pub put_operation : Text
put_operation = 112 ∷ []

abbrev pub twice_signature : OperationSignature
twice_signature =
    record {
      label = put_operation;
      operation = put_operation;
      argument_type = ValueType.thunk [] int_result;
      result_type = ValueType.unit;
    }
    ∷ state_signature

abbrev pub put_twice : {A : Type 0} → A → ComputationTerm A
put_twice at =
    ComputationTerm.handle put_operation
      (ComputationTerm.let_in
        (ComputationTerm.operation Grade.once put_operation put_operation
          (ValueTerm.thunk at (ComputationTerm.resume 0 (ValueTerm.int (Number.pos 7)))))
        (ComputationTerm.return Grade.once (ValueTerm.int (Number.pos 1))))
      (ComputationTerm.return Grade.once (ValueTerm.variable 0))
      (Clauses.clause put_operation
        (ComputationTerm.let_in (ComputationTerm.force (ValueTerm.variable 0)) (
          ComputationTerm.let_in (ComputationTerm.force (ValueTerm.variable 1))
            (ComputationTerm.return Grade.once (ValueTerm.variable 0))))
        Clauses.clauses_end)

abbrev pub twice : {A : Type 0} → A → ComputationTerm A
twice at =
    ComputationTerm.handle state_label ask
      (ComputationTerm.return Grade.once (ValueTerm.variable 0))
      (Clauses.clause get_operation (put_twice at) Clauses.clauses_end)

abbrev pub twice_program : Accepted
twice_program = record {
  type = int_result;
  effects = [];
  usage = [];
  signature = twice_signature;
  term = twice (ValueType.thunk [] int_result);
}

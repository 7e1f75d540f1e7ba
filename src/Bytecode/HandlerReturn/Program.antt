-- ===== src/Bytecode/HandlerReturn/Program.antt =====
-- A term of src/kernel-calculus whose handler stands in the bound of a let.
use semantic_systems.Base.{[], ◌∷◌}
use semantic_systems.Kernel.Grade.{Grade}
use semantic_systems.Kernel.Row.{Text}
use semantic_systems.Kernel.Types.{ValueType, ComputationType}
use semantic_systems.Kernel.Term.{Number, ValueTerm, ComputationTerm, Clauses, OperationSignature}
use semantic_systems.Kernel.Checker.{Accepted}

-- "s" and "g".
abbrev pub label : Text
label = 115 ∷ []

abbrev pub get : Text
get = 103 ∷ []

abbrev pub signature : OperationSignature
signature =
    record {
      label = label;
      operation = get;
      argument_type = ValueType.unit;
      result_type = ValueType.int;
    }
    ∷ []

-- handle s.g () with { return x -> return x; g x k -> return n }
abbrev pub aborting : {A : Type 0} → Number → ComputationTerm A
aborting n =
    ComputationTerm.handle label (ComputationTerm.operation Grade.once label get ValueTerm.unit)
      (ComputationTerm.return Grade.once (ValueTerm.variable 0))
      (Clauses.clause get (ComputationTerm.return Grade.once (ValueTerm.int n)) Clauses.clauses_end)

-- let x <- (the above) in return (x, ())
abbrev pub bound_handler : {A : Type 0} → Number → ComputationTerm A
bound_handler n =
    ComputationTerm.let_in (aborting n)
      (ComputationTerm.return Grade.once (ValueTerm.pair (ValueTerm.variable 0) ValueTerm.unit))

-- What the checker makes of it.
abbrev pub bound_handler_program : Number → Accepted
bound_handler_program n = record {
  type = ComputationType.return Grade.once (ValueType.pair ValueType.int ValueType.unit);
  effects = [];
  usage = [];
  signature = signature;
  term = bound_handler n;
}

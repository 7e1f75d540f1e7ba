-- ===== src/Kernel/Term/Clone.antt =====
-- src/kernel-calculus/ast.ts: `cloneValueTerm`, `cloneComputationTerm` and `operationSignature`,
-- which copy a term or a signature with the rows of its types normalized.
use semantic_systems.Base.{List, map}
use semantic_systems.Kernel.Types.{clone_value_type}
use semantic_systems.Kernel.Term.{
  ValueTerm, ComputationTerm, Clauses, OperationDeclaration, OperationSignature,
}

module _ {A : Type 0} where
  unfoldable mutual
    pub clone_value_term : ValueTerm A → ValueTerm A
    clone_value_term (ValueTerm.variable i) = ValueTerm.variable i
    clone_value_term ValueTerm.unit = ValueTerm.unit
    clone_value_term (ValueTerm.bool b) = ValueTerm.bool b
    clone_value_term (ValueTerm.int n) = ValueTerm.int n
    clone_value_term (ValueTerm.pair v w) = ValueTerm.pair (clone_value_term v) (clone_value_term w)
    clone_value_term (ValueTerm.thunk a m) = ValueTerm.thunk a (clone_computation_term m)
    clone_value_term (ValueTerm.resumption i) = ValueTerm.resumption i

    pub clone_computation_term : ComputationTerm A → ComputationTerm A
    clone_computation_term (ComputationTerm.return g v) =
        ComputationTerm.return g (clone_value_term v)
    clone_computation_term (ComputationTerm.let_in m n) =
        ComputationTerm.let_in (clone_computation_term m) (clone_computation_term n)
    clone_computation_term (ComputationTerm.force v) = ComputationTerm.force (clone_value_term v)
    clone_computation_term (ComputationTerm.lambda a g m) =
        ComputationTerm.lambda (clone_value_type a) g (clone_computation_term m)
    clone_computation_term (ComputationTerm.apply m v) =
        ComputationTerm.apply (clone_computation_term m) (clone_value_term v)
    clone_computation_term (ComputationTerm.operation g label name v) =
        ComputationTerm.operation g label name (clone_value_term v)
    clone_computation_term (ComputationTerm.handle label m r clauses) =
        ComputationTerm.handle label (clone_computation_term m) (clone_computation_term r)
          (clone_clauses clauses)
    clone_computation_term (ComputationTerm.resume i v) =
        ComputationTerm.resume i (clone_value_term v)

    pub clone_clauses : Clauses A → Clauses A
    clone_clauses Clauses.clauses_end = Clauses.clauses_end
    clone_clauses (Clauses.clause name m rest) =
        Clauses.clause name (clone_computation_term m) (clone_clauses rest)

unfoldable pub clone_declaration : OperationDeclaration → OperationDeclaration
clone_declaration d = record d {
  argument_type = clone_value_type d.argument_type;
  result_type = clone_value_type d.result_type;
}

unfoldable pub operation_signature : List OperationDeclaration → OperationSignature
unfolding clone_declaration
operation_signature declarations = map clone_declaration declarations

-- ===== src/Kernel/Checker/Copies.antt =====
-- src/kernel-calculus/ast.ts: a copy of a copy is the copy, so that `check` does not depend on how
-- the rows in its input are written.
use mathlib.Core.Path.{ap₂}
use semantic_systems.Base.{◌≡◌, refl, List, [], ◌∷◌}
use semantic_systems.Kernel.Row.{Text, effect_row}
use semantic_systems.Kernel.Row.Laws.{includes-effect_row, effect_row-canonical}
use semantic_systems.Kernel.Types.{
  ValueType, ComputationType, clone_value_type, clone_computation_type,
}
use semantic_systems.Kernel.Term.{ValueTerm, ComputationTerm, Clauses, OperationSignature}
use semantic_systems.Kernel.Term.Clone.{
  clone_value_term, clone_computation_term, clone_clauses, clone_declaration, operation_signature,
}
use semantic_systems.Kernel.Checker.{check, check_copies}

effect_row_idem : (e : List Text) → effect_row (effect_row e) ≡ effect_row e
effect_row_idem e = (effect_row-canonical (effect_row e) e).1 (includes-effect_row e)

mutual
  unfolding clone_value_type clone_computation_type

  clone_value_type_idem :
      (a : ValueType) → clone_value_type (clone_value_type a) ≡ clone_value_type a
  clone_value_type_idem ValueType.unit = refl
  clone_value_type_idem ValueType.bool = refl
  clone_value_type_idem ValueType.int = refl
  clone_value_type_idem (ValueType.pair a b) = cc (clone_value_type_idem a, clone_value_type_idem b)
  clone_value_type_idem (ValueType.thunk e c) =
      cc (effect_row_idem e, clone_computation_type_idem c)

  clone_computation_type_idem :
      (c : ComputationType)
      → clone_computation_type (clone_computation_type c) ≡ clone_computation_type c
  clone_computation_type_idem (ComputationType.return g a) = cc (clone_value_type_idem a)
  clone_computation_type_idem (ComputationType.function a g e c) =
      cc (clone_value_type_idem a, effect_row_idem e, clone_computation_type_idem c)

mutual
  unfolding clone_value_term clone_computation_term clone_clauses

  clone_value_term_idem :
      (v : ValueTerm (Unit {0})) → clone_value_term (clone_value_term v) ≡ clone_value_term v
  clone_value_term_idem (ValueTerm.variable i) = refl
  clone_value_term_idem ValueTerm.unit = refl
  clone_value_term_idem (ValueTerm.bool b) = refl
  clone_value_term_idem (ValueTerm.int n) = refl
  clone_value_term_idem (ValueTerm.pair a b) = cc (clone_value_term_idem a, clone_value_term_idem b)
  clone_value_term_idem (ValueTerm.thunk u c) = cc (clone_computation_term_idem c)
  clone_value_term_idem (ValueTerm.resumption i) = refl

  clone_computation_term_idem :
      (c : ComputationTerm (Unit {0}))
      → clone_computation_term (clone_computation_term c) ≡ clone_computation_term c
  clone_computation_term_idem (ComputationTerm.return g v) = cc (clone_value_term_idem v)
  clone_computation_term_idem (ComputationTerm.let_in c d) =
      cc (clone_computation_term_idem c, clone_computation_term_idem d)
  clone_computation_term_idem (ComputationTerm.force v) = cc (clone_value_term_idem v)
  clone_computation_term_idem (ComputationTerm.lambda a g c) =
      cc (clone_value_type_idem a, clone_computation_term_idem c)
  clone_computation_term_idem (ComputationTerm.apply c v) =
      cc (clone_computation_term_idem c, clone_value_term_idem v)
  clone_computation_term_idem (ComputationTerm.operation g label name v) =
      cc (clone_value_term_idem v)
  clone_computation_term_idem (ComputationTerm.handle label c r clauses) =
      cc (clone_computation_term_idem c, clone_computation_term_idem r, clone_clauses_idem clauses)
  clone_computation_term_idem (ComputationTerm.resume i v) = cc (clone_value_term_idem v)

  clone_clauses_idem :
      (clauses : Clauses (Unit {0})) → clone_clauses (clone_clauses clauses) ≡ clone_clauses clauses
  clone_clauses_idem Clauses.clauses_end = refl
  clone_clauses_idem (Clauses.clause name c rest) =
      cc (clone_computation_term_idem c, clone_clauses_idem rest)

operation_signature_idem :
    (sig : OperationSignature)
    → operation_signature (operation_signature sig) ≡ operation_signature sig
unfolding operation_signature clone_declaration
operation_signature_idem [] = refl
operation_signature_idem (d ∷ sig) = cc (
  clone_value_type_idem d.argument_type,
  clone_value_type_idem d.result_type,
  operation_signature_idem sig,
)

-- `check` gives the same result, error or acceptance, on the copies of a signature and a term, in
-- which all rows are sorted and without repetitions, as on the signature and the term.
pub check-copies :
    (signature : OperationSignature) (term : ComputationTerm (Unit {0}))
    → check (operation_signature signature) (clone_computation_term term) ≡ check signature term
unfolding check
check-copies signature term =
    ap₂ check_copies (operation_signature_idem signature) (clone_computation_term_idem term)

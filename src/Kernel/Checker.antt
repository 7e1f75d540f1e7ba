-- ===== src/Kernel/Checker.antt =====
-- src/kernel-calculus/checker.ts: the class `AlgorithmicChecker` and `check`.
-- A result carries the checked term, in which each thunk has the type that the source's table
-- `valueTypes` holds for it. Derivations and the table of judgments are not modelled.
mod Parts
mod Rules
pub mod Sound
pub mod Effects
pub mod Copies
pub mod Internal
pub mod Below
pub mod Converge
pub mod Monotone
pub mod Normal
unfoldable pub use Parts.*
unfoldable pub use Rules.*
use semantic_systems.Base.{
  ℕ, zero, suc, ◌+◌, Bool, true, false, ◌&&◌, not, ltb, List, [], ◌∷◌, map, Option, none, some,
  String, length, get_elem?, tail, if◌then◌else◌,
}
use semantic_systems.Kernel.Grade.{
  Grade, Usage, grade_le, grade_eq, multiply_grades, at_least_once, zero_usage, basis_usage,
  add_usage, scale_usage,
}
use semantic_systems.Kernel.Row.{
  Text, EffectRow, effect_row, union_effect_rows, remove_effect_label, effect_row_is_subset,
  effect_rows_equal,
}
use semantic_systems.Kernel.Types.{
  ValueType, ComputationType, value_types_equal, computation_types_equal,
}
use semantic_systems.Kernel.Term.{
  is_safe_integer, ValueTerm, ComputationTerm, Clauses, clause_operations, OperationDeclaration,
  OperationSignature,
}
use semantic_systems.Kernel.Term.Clone.{clone_computation_term, operation_signature}
use semantic_systems.Kernel.Diagnostic.{
  Segment, TermPath, Diagnostic, Result, ok, err, ◌>>=◌, ◌>>◌, fail,
}
use semantic_systems.Kernel.Signature.{
  operations_get, validate_signature, sort_texts, expected_operations,
}

-- A program in the checker's custody, and the rest of an accepted result.
pub record Accepted : Type 0 where
  pub type : ComputationType
  pub effects : EffectRow
  pub usage : Usage
  pub signature : OperationSignature
  pub term : ComputationTerm ValueType

-- The rejection of an invalid signature, before the rest of `check`.
unfoldable pub unless_invalid : Option Diagnostic → Result Accepted → Result Accepted
unless_invalid (some diagnostic) rest = err diagnostic
unless_invalid none rest = rest

-- `check` on the copies of the signature and the term.
unfoldable pub check_copies : OperationSignature → ComputationTerm (Unit {0}) → Result Accepted
unfolding unless_invalid
check_copies signature term = unless_invalid (validate_signature signature) do
  checked ← computation signature term [] [] []
  ok (record {
    type = checked.type;
    effects = checked.effects;
    usage = checked.usage;
    signature = signature;
    term = checked.term;
  })

unfoldable pub check : OperationSignature → ComputationTerm (Unit {0}) → Result Accepted
unfolding check_copies
check signature_input term_input =
    check_copies (operation_signature signature_input) (clone_computation_term term_input)

-- `checkEffectAssertion` on a program in custody.
unfoldable pub check_effect_assertion : Accepted → List Text → Result EffectRow
check_effect_assertion program claimed_effects = do
  let claimed = effect_row claimed_effects
  require (effect_row_is_subset program.effects claimed) "effect.foreign-tunneling"
      "handler.output-row" (Segment.claimed_effects ∷ [])
  require (effect_rows_equal program.effects claimed) "effect.row-mismatch"
      "checker.effect-assertion" (Segment.claimed_effects ∷ [])
  ok program.effects

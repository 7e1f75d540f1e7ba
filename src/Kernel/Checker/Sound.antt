-- ===== src/Kernel/Checker/Sound.antt =====
-- What the checker accepts is typed by the declarative rules.
pub mod Parts
use mathlib.Core.Path.{subst}
use native.Mathlib.Numerals.{add-one}
use semantic_systems.Base.{
  ℕ, zero, suc, ◌+◌, ◌≡◌, refl, sym, ◌∙◌, ap, Bool, true, false, List, [], ◌∷◌, Option, none, some,
  String, length, Bool-cases, Option-cases, inl, inr,
}
use semantic_systems.Kernel.Grade.{Grade}
use semantic_systems.Kernel.Row.{
  Text, EffectRow, text_eq, includes, effect_rows_equal, union_effect_rows,
}
use semantic_systems.Kernel.Row.Equality.{effect_rows_equal→eq, includes-sort_by}
use semantic_systems.Kernel.Types.{ValueType, ComputationType}
use semantic_systems.Kernel.Types.Equality.{value_types_equal→eq, computation_types_equal→eq}
use semantic_systems.Kernel.Term.{
  ValueTerm, ComputationTerm, Clauses, clause_operations, OperationSignature,
}
use semantic_systems.Kernel.Term.Clone.{clone_computation_term, operation_signature}
use semantic_systems.Kernel.Diagnostic.{TermPath, ok, fail}
use semantic_systems.Kernel.Diagnostic.Ensures.{
  Ensures, returns, fails, ◌⟫◌, of_ok, weaken, trivially,
}
use semantic_systems.Kernel.Signature.{
  operations_get, operation_declaration, validate_signature, sort_texts, expected_operations,
  code_unit_le,
}
use semantic_systems.Kernel.Signature.Laws.{
  operations_get-operation_declaration, includes-expected_operations,
}
use semantic_systems.Kernel.Checker.{
  Context, Resumptions, CheckedComputation, CheckedClauses, expect_return, expect_thunk,
  expect_function, require, present, Round, settle, handler_result, require_clauses, value,
  computation, check_clauses, check, check_copies, Accepted, effects_of,
}
use semantic_systems.Kernel.Typing.{
  find_clause, Covers, ValueTyping, ComputationTyping, ClausesTyping,
}
use semantic_systems.Kernel.Checker.Sound.Parts.{
  require_sound, present_sound, expect_return_sound, expect_thunk_sound, expect_function_sound,
  settle_sound, settle-suc_sound, find_clause-includes, require_clauses_sound, clauses_cover,
  ClausesSound, handler_result_sound,
}

module _ (sig : OperationSignature) (valid : validate_signature sig ≡ none) where
  declared_sound :
      (label name : Text) (code rule : String) (path : TermPath)
      → Ensures
          (λ d. operation_declaration sig label name ≡ some d)
          (present (operations_get sig label name) code rule path)
  declared_sound label name code rule path =
      weaken (λ d e. sym (operations_get-operation_declaration sig label name valid) ∙ e)
        (present_sound (operations_get sig label name) code rule path)

  mutual
    unfolding value computation check_clauses clause_operations fail

    value_sound :
        (t : ValueTerm (Unit {0})) (Γ : Context) (R : Resumptions) (path : TermPath)
        → Ensures (λ v. ValueTyping sig Γ R v.term v.type) (value sig t Γ R path)
    value_sound (ValueTerm.variable i) Γ R path =
        present_sound _ _ _ _ ⟫ λ _ e. returns (ValueTyping.variable e)
    value_sound ValueTerm.unit Γ R path = returns ValueTyping.unit
    value_sound (ValueTerm.bool b) Γ R path = returns ValueTyping.bool
    value_sound (ValueTerm.int n) Γ R path =
        require_sound _ _ _ _ ⟫ λ _ e. returns (ValueTyping.int e)
    value_sound (ValueTerm.pair a b) Γ R path = value_sound a Γ R _ ⟫ λ _ da.
        value_sound b Γ R _ ⟫ λ _ db.
        trivially _ ⟫ λ _ _. trivially _ ⟫ λ _ _. returns (ValueTyping.pair da db)
    value_sound (ValueTerm.thunk _ c) Γ R path =
        computation_sound c Γ R _ ⟫ λ _ d. returns (ValueTyping.thunk d)
    value_sound (ValueTerm.resumption i) Γ R path = fails

    computation_sound :
        (t : ComputationTerm (Unit {0})) (Γ : Context) (R : Resumptions) (path : TermPath)
        → Ensures (λ c. ComputationTyping sig Γ R c.term c.type) (computation sig t Γ R path)
    computation_sound (ComputationTerm.return g v) Γ R path =
        value_sound v Γ R _ ⟫ λ _ d. returns (ComputationTyping.return d)
    computation_sound (ComputationTerm.let_in c d) Γ R path =
        computation_sound c Γ R _ ⟫ λ bound dc. expect_return_sound bound.type _ _ ⟫ λ (g, a) e.
        computation_sound d (a ∷ Γ) R _ ⟫ λ _ dd. trivially _ ⟫ λ _ _. trivially _ ⟫ λ _ _.
        trivially _ ⟫ λ _ _. trivially _ ⟫ λ _ _.
        returns (ComputationTyping.let_in (subst (ComputationTyping sig Γ R bound.term) e dc) dd)
    computation_sound (ComputationTerm.force v) Γ R path = value_sound v Γ R _ ⟫ λ checked d.
        expect_thunk_sound checked.type _ ⟫ λ _ e.
        returns (ComputationTyping.force (subst (ValueTyping sig Γ R checked.term) e d))
    computation_sound (ComputationTerm.lambda a g c) Γ R path =
        computation_sound c (a ∷ Γ) R _ ⟫ λ _ d.
        trivially _ ⟫ λ _ _. returns (ComputationTyping.lambda d)
    computation_sound (ComputationTerm.apply c v) Γ R path =
        computation_sound c Γ R _ ⟫ λ callee dc. expect_function_sound callee.type _ ⟫ λ parts e.
        value_sound v Γ R _ ⟫ λ argument dv. require_sound _ _ _ _ ⟫ λ _ same. trivially _ ⟫ λ _ _.
        trivially _ ⟫ λ _ _. returns (
          ComputationTyping.apply (subst (ComputationTyping sig Γ R callee.term) e dc)
            (subst (ValueTyping sig Γ R argument.term) (value_types_equal→eq _ _ same) dv))
    computation_sound (ComputationTerm.operation g label name v) Γ R path =
        declared_sound label name _ _ _ ⟫ λ d found. value_sound v Γ R _ ⟫ λ argument dv.
        require_sound _ _ _ _ ⟫ λ _ same. returns (
          ComputationTyping.operation d found
            (subst (ValueTyping sig Γ R argument.term) (value_types_equal→eq _ _ same) dv) refl)
    computation_sound (ComputationTerm.handle label c r clauses) Γ R path =
        computation_sound c Γ R _ ⟫ λ handled dc. expect_return_sound handled.type _ _ ⟫ λ (g, a) e.
        require_clauses_sound sig label (clause_operations clauses) path ⟫ λ _ sorted.
        computation_sound r (a ∷ Γ) R _ ⟫ λ returned dr. trivially _ ⟫ λ _ _. trivially _ ⟫ λ _ _.
        trivially _ ⟫ λ _ _.
        rw add-one (
          settle-suc_sound (ClausesSound sig label returned.type Γ R (clause_operations clauses))
            (length sig) _ _ _ _ _
            (λ assumed. check_clauses_sound clauses label returned.type assumed Γ R path 0))
        ⟫ λ settled dcs.
            handler_result_sound sig Γ R label (clause_operations clauses) handled returned g a
              settled (subst (ComputationTyping sig Γ R handled.term) e dc) dr sorted dcs
    computation_sound (ComputationTerm.resume i v) Γ R path =
        present_sound _ _ _ _ ⟫ λ expectation found. value_sound v Γ R _ ⟫ λ checked d.
        require_sound _ _ _ _ ⟫ λ _ same. trivially _ ⟫ λ _ _. returns (
          ComputationTyping.resume {e = expectation.effects} found
            (subst (ValueTyping sig Γ R checked.term) (value_types_equal→eq _ _ same) d))

    check_clauses_sound :
        (clauses : Clauses (Unit {0})) (label : Text) (output : ComputationType)
        (assumed : EffectRow) (Γ : Context) (R : Resumptions) (path : TermPath) (i : ℕ)
        → Ensures
            (ClausesSound sig label output Γ R (clause_operations clauses))
            (check_clauses sig clauses label output assumed Γ R path i)
    check_clauses_sound Clauses.clauses_end label output assumed Γ R path i =
        returns (ClausesTyping.clauses_end, refl)
    check_clauses_sound (Clauses.clause name c rest) label output assumed Γ R path i =
        declared_sound label name _ _ _ ⟫ λ d found. computation_sound c _ _ _ ⟫ λ checked dc.
        require_sound _ _ _ _ ⟫ λ _ same. trivially _ ⟫ λ _ _.
        check_clauses_sound rest label output assumed Γ R path (i + 1) ⟫ λ others (dr, names).
        returns (
          ClausesTyping.clause d assumed found
              (subst (ComputationTyping sig _ _ checked.term) (computation_types_equal→eq _ _ same)
                dc)
              dr,
          rw names,
        )

check_copies_sound :
    (signature : OperationSignature) (term : ComputationTerm (Unit {0}))
    → Ensures
        (λ p.
          (p.signature ≡ signature)
          × (validate_signature signature ≡ none)
          × ComputationTyping signature [] [] p.term p.type)
        (check_copies signature term)
unfolding check_copies
check_copies_sound signature term = elim (Option-cases (validate_signature signature)) [
  | inl valid ↦
      rw valid (computation_sound signature valid term [] [] [] ⟫ λ _ d. returns (refl, refl, d))
  | inr (e, invalid) ↦ rw invalid fails
]

-- A program that `check` accepts holds the copy of the signature, which is valid, and its term is
-- typed by the declarative rules at its type, in the empty context.
pub check-ComputationTyping :
    (signature : OperationSignature) (term : ComputationTerm (Unit {0})) (program : Accepted)
    → check signature term ≡ ok program
    → (program.signature ≡ operation_signature signature)
      × (validate_signature (operation_signature signature) ≡ none)
      × ComputationTyping (operation_signature signature) [] [] program.term program.type
unfolding check
check-ComputationTyping signature term program accepted = of_ok (
    rw accepted at
      (check_copies_sound (operation_signature signature) (clone_computation_term term)))

-- ===== src/Kernel/Checker/Internal.antt =====
-- The checker's own assertions hold: usage vectors have the lengths of their contexts, and each
-- clause of a handler that is checked has a declaration.
mod Parts
use mathlib.Core.Path.{subst}
use native.Mathlib.Numerals.{add-one}
use semantic_systems.Base.{
  ℕ, zero, suc, ◌+◌, ◌≡◌, refl, sym, ◌∙◌, ap, Bool, true, false, List, [], ◌∷◌, Option, none, some,
  some-injective, String, length, tail, Bool-cases, Option-cases, inl, inr, arith, if◌then◌else◌,
  get_elem?, All, ◌&&◌, ◌||◌, map, filter,
}
use semantic_systems.Kernel.Grade.{
  Grade, Usage, grade_le, grade_eq, add_usage, scale_usage, zero_usage, basis_usage, at_least_once,
}
use semantic_systems.Kernel.Grade.Laws.{
  length-zero_usage, length-basis_usage, length-scale_usage, sum_usage, add_usage-sum_usage,
  length-sum_usage,
}
use semantic_systems.Kernel.Row.{
  Text, EffectRow, text_eq, includes, effect_rows_equal, union_effect_rows,
}
use semantic_systems.Kernel.Row.Equality.{effect_rows_equal→eq, includes-sort_by, text_eq_refl}
use semantic_systems.Kernel.Types.{ValueType, ComputationType}
use semantic_systems.Kernel.Term.{
  ValueTerm, ComputationTerm, Clauses, clause_operations, OperationSignature, OperationDeclaration,
}
use semantic_systems.Kernel.Term.Clone.{clone_computation_term, operation_signature}
use semantic_systems.Kernel.Diagnostic.{TermPath, Diagnostic, Result, ok, err, fail}
use semantic_systems.Kernel.Diagnostic.External.{
  is_internal, External, returns_with, fails_outside, ◌⊳◌, of_err, fail-External,
}
use semantic_systems.Kernel.Signature.{
  operations_get, validate_signature, validate_from, signature_diagnostic, sort_texts,
  expected_operations, code_unit_le, declares, is_blank, seen_before,
}
use semantic_systems.Kernel.Checker.{
  Context, Resumptions, CheckedValue, CheckedComputation, CheckedClauses, added, binder_use,
  within_grade, expect_return, expect_thunk, expect_function, require, present, Round, settle,
  add_clauses, handler_result, require_clauses, value, computation, check_clauses, check,
  check_copies, unless_invalid, Accepted, effects_of,
}
use semantic_systems.Kernel.Checker.Internal.Parts.{
  or-right, weaken_to, require-External, present-External, expect_return-External,
  expect_thunk-External, expect_function-External, within_grade-External, added-External,
  length-tail, FitsValue, Fits, FitsClauses, add_clauses-External, handler_result-External,
  length-zero, settle-External, AreDeclared, scaled, found-External, includes-declared,
  names-AreDeclared, sorted-AreDeclared, require_clauses-External,
}

module _ (sig : OperationSignature) where
  mutual
    unfolding value computation check_clauses clause_operations

    value-External :
        (t : ValueTerm (Unit {0})) (Γ : Context) (R : Resumptions) (path : TermPath)
        → External (FitsValue (length Γ) (length R)) (value sig t Γ R path)
    value-External (ValueTerm.variable i) Γ R path =
        present-External (get_elem? Γ i) _ _ _ refl ⊳ λ _ _.
        returns_with (length-basis_usage (length Γ) i, length-zero_usage (length R))
    value-External ValueTerm.unit Γ R path =
        returns_with (length-zero_usage (length Γ), length-zero_usage (length R))
    value-External (ValueTerm.bool b) Γ R path =
        returns_with (length-zero_usage (length Γ), length-zero_usage (length R))
    value-External (ValueTerm.int m) Γ R path = require-External _ _ _ _ refl ⊳ λ _ _.
        returns_with (length-zero_usage (length Γ), length-zero_usage (length R))
    value-External (ValueTerm.pair a b) Γ R path = value-External a Γ R _ ⊳ λ v (p, q).
        value-External b Γ R _ ⊳ λ w (p', q').
        added-External v.usage w.usage (length Γ) p p' ⊳ λ _ pu.
        added-External v.resumption_usage w.resumption_usage (length R) q q' ⊳ λ _ qu.
        returns_with (pu, qu)
    value-External (ValueTerm.thunk _ c) Γ R path =
        computation-External c Γ R _ ⊳ λ _ (p, q). returns_with (p, q)
    value-External (ValueTerm.resumption i) Γ R path = fail-External _ _ _ refl

    computation-External :
        (t : ComputationTerm (Unit {0})) (Γ : Context) (R : Resumptions) (path : TermPath)
        → External (Fits (length Γ) (length R)) (computation sig t Γ R path)
    computation-External (ComputationTerm.return g v) Γ R path =
        value-External v Γ R _ ⊳ λ v (p, q). returns_with (scaled g _ _ p, scaled g _ _ q)
    computation-External (ComputationTerm.let_in c d) Γ R path =
        computation-External c Γ R _ ⊳ λ bound (p, q).
        expect_return-External bound.type _ _ ⊳ λ (g, a) _.
        computation-External d (a ∷ Γ) R _ ⊳ λ body (p', q').
        expect_return-External body.type _ _ ⊳ λ (h, b) _. within_grade-External _ _ _ _ ⊳ λ _ _.
        added-External _ _ (length Γ) (scaled (at_least_once h) _ _ p)
          (length-tail body.usage (length Γ) p')
        ⊳ λ _ pu. added-External _ _ (length R) (scaled (at_least_once h) _ _ q) q' ⊳ λ _ qu.
            returns_with (pu, qu)
    computation-External (ComputationTerm.force v) Γ R path = value-External v Γ R _ ⊳ λ v (p, q).
        expect_thunk-External v.type _ ⊳ λ _ _. returns_with (p, q)
    computation-External (ComputationTerm.lambda a g c) Γ R path =
        computation-External c (a ∷ Γ) R _ ⊳ λ body (p, q).
        within_grade-External _ _ _ _ ⊳ λ _ _. returns_with (length-tail body.usage (length Γ) p, q)
    computation-External (ComputationTerm.apply c v) Γ R path =
        computation-External c Γ R _ ⊳ λ callee (p, q).
        expect_function-External callee.type _ ⊳ λ parts _.
        value-External v Γ R _ ⊳ λ argument (p', q'). require-External _ _ _ _ refl ⊳ λ _ _.
        added-External _ _ (length Γ) p (scaled parts.grade _ _ p') ⊳ λ _ pu.
        added-External _ _ (length R) q (scaled parts.grade _ _ q') ⊳ λ _ qu. returns_with (pu, qu)
    computation-External (ComputationTerm.operation g label name v) Γ R path =
        present-External (operations_get sig label name) _ _ _ refl ⊳ λ _ _.
        value-External v Γ R _ ⊳ λ _ (p, q).
        require-External _ _ _ _ refl ⊳ λ _ _. returns_with (p, q)
    computation-External (ComputationTerm.handle label c r clauses) Γ R path =
        computation-External c Γ R _ ⊳ λ handled fits.
        expect_return-External handled.type _ _ ⊳ λ (g, a) _.
        require_clauses-External sig label (clause_operations clauses) path ⊳ λ _ declared.
        computation-External r (a ∷ Γ) R _ ⊳ λ returned fits'.
        expect_return-External returned.type _ _ ⊳ λ _ _. require-External _ _ _ _ refl ⊳ λ _ _.
        within_grade-External _ _ _ _ ⊳ λ _ _.
        settle-External (FitsClauses (length Γ) (length R)) (length sig + 1) _ _ _ _ _
          (λ assumed.
            check_clauses-External clauses label returned.type assumed Γ R path 0 declared)
          tt
        ⊳ λ settled h. handler_result-External _ _ handled returned label settled fits fits' h
    computation-External (ComputationTerm.resume i v) Γ R path =
        present-External (get_elem? R i) _ _ _ refl ⊳ λ _ _. value-External v Γ R _ ⊳ λ v (p, q).
        require-External _ _ _ _ refl ⊳ λ _ _.
        added-External v.resumption_usage _ (length R) q (length-basis_usage (length R) i) ⊳ λ _ qu.
        returns_with (p, qu)

    check_clauses-External :
        (clauses : Clauses (Unit {0})) (label : Text) (output : ComputationType)
        (assumed : EffectRow) (Γ : Context) (R : Resumptions) (path : TermPath) (i : ℕ)
        → AreDeclared sig label (clause_operations clauses)
        → External
            (FitsClauses (length Γ) (length R))
            (check_clauses sig clauses label output assumed Γ R path i)
    check_clauses-External Clauses.clauses_end label output assumed Γ R path i h = returns_with tt
    check_clauses-External (Clauses.clause name c rest) label output assumed Γ R path i
          ((d, found), h) =
        found-External (operations_get sig label name) d _ _ _ found ⊳ λ d _.
        computation-External c _ _ _ ⊳ λ checked fits. require-External _ _ _ _ refl ⊳ λ _ _.
        within_grade-External _ _ _ _ ⊳ λ _ _.
        check_clauses-External rest label output assumed Γ R path (i + 1) h ⊳ λ _ others.
        returns_with (fits, others)

signature_diagnostic-external :
    (i : ℕ) (seen : List OperationDeclaration) (e : OperationDeclaration) (d : Diagnostic)
    → signature_diagnostic i seen e ≡ some d
    → is_internal d.code ≡ false
unfolding signature_diagnostic
signature_diagnostic-external i seen e d h =
    elim (Bool-cases (is_blank e.label || is_blank e.operation)) [
      | inl blank ↦
          let found = rw blank at h in
          subst (λ x. is_internal x.code ≡ false) (some-injective found) refl
      | inr named ↦ elim (Bool-cases (seen_before seen e)) [
        | inl twice ↦
            let found = rw (named, twice) at h in
            subst (λ x. is_internal x.code ≡ false) (some-injective found) refl
        | inr fresh ↦ absurd (ground arith)
      ]
    ]

validate_from-external :
    (i : ℕ) (seen : List OperationDeclaration) (sig : OperationSignature) (d : Diagnostic)
    → validate_from i seen sig ≡ some d
    → is_internal d.code ≡ false
unfolding validate_from
validate_from-external i seen [] d h = absurd (cc)
validate_from-external i seen (e ∷ sig) d h = elim (Option-cases (signature_diagnostic i seen e)) [
  | inl fine ↦ validate_from-external (i + 1) (e ∷ seen) sig d (rw (validate_from, fine) at h)
  | inr (x, bad) ↦ signature_diagnostic-external i seen e d (bad ∙ (rw (validate_from, bad) at h))
]

check_copies-External :
    (signature : OperationSignature) (term : ComputationTerm (Unit {0}))
    → External (λ p. p.usage ≡ []) (check_copies signature term)
unfolding check_copies unless_invalid validate_signature
check_copies-External signature term = elim (Option-cases (validate_from 0 [] signature)) [
  | inr (d, invalid) ↦ rw invalid (fails_outside (validate_from-external 0 [] signature d invalid))
  | inl valid ↦ rw valid (
      computation-External signature term [] [] [] ⊳ λ c (p, _).
      returns_with (length-zero c.usage p))
]

-- `check` never gives the diagnostic `checker.invalid-input`, into which it would turn an exception
-- of its own, such as that of `addUsage` on vectors of different lengths or of a clause that has no
-- declaration; and the usage of an accepted program is the empty vector.
pub check-External :
    (signature : OperationSignature) (term : ComputationTerm (Unit {0}))
    → External (λ program. program.usage ≡ []) (check signature term)
unfolding check
check-External signature term =
    check_copies-External (operation_signature signature) (clone_computation_term term)

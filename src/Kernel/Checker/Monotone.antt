-- ===== src/Kernel/Checker/Monotone.antt =====
-- A term that is checked twice, the second time in contexts with larger rows, has a type and effects
-- that are larger by no more than the contexts are; so each loop of `handler` reaches a fixed point.
pub mod Parts
use mathlib.Core.Path.{subst}
use native.Mathlib.Numerals.{add-one}
use semantic_systems.Base.{
  ℕ, zero, suc, ◌+◌, ◌≡◌, refl, sym, ◌∙◌, ap, Bool, true, false, List, [], ◌∷◌, Option, none, some,
  String, arith, get_elem?, length, ltb, Bool-cases, inl, inr, if◌then◌else◌, filter, map, tail,
}
use semantic_systems.Kernel.Grade.{Grade}
use semantic_systems.Kernel.Row.{
  Text, EffectRow, effect_row, union_effect_rows, remove_effect_label,
}
use semantic_systems.Kernel.Types.{ValueType, ComputationType}
use semantic_systems.Kernel.Term.{
  ValueTerm, ComputationTerm, Clauses, clause_operations, OperationSignature, OperationDeclaration,
}
use semantic_systems.Kernel.Diagnostic.{TermPath, Diagnostic, Result, ok, err, ◌>>=◌, fail}
use semantic_systems.Kernel.Diagnostic.Ensures.{Ensures, returns, fails, weaken, of_ok}
use semantic_systems.Kernel.Signature.{operations_get, expected_operations, sort_texts}
use semantic_systems.Kernel.Checker.{
  Context, Resumptions, ResumptionExpectation, CheckedValue, CheckedComputation, CheckedClauses,
  FunctionParts, Round, added, add_clauses, binder_use, within_grade, expect_return, expect_thunk,
  expect_function, require, present, settle, effects_of, handler_result, require_clauses, value,
  computation, check_clauses,
}
use semantic_systems.Kernel.Checker.Below.{
  Within, Within-refl, ValueBelow, ComputationBelow, ValueBelow-refl, ComputationBelow-refl,
  ContextBelow, ResumptionsBelow, ContextBelow-refl, ResumptionsBelow-refl, ExpectationBelow,
  CheckedBelow, EffectsBelow, Both, both, fails_first, fails_second, ◌⊗◌, whatever, union-Within,
  remove-Within,
}
use semantic_systems.Kernel.Checker.Converge.{
  IsFixed, IsMonotone, settle-IsFixed, settle-suc-Within,
}
use semantic_systems.Kernel.Checker.Monotone.Parts.{
  Both-self, with_first, combine, whatever_fails, get-Below, get_resumption-Below,
  expect_return-Below, expect_thunk-Below, expect_function-Below, handler_result-Below,
  require_clauses-Below,
}

-- The loops of one handler, checked twice.
settle-Below :
    (extra : EffectRow) (n : ℕ) (round round' : Round)
    (residual returned residual' returned' : EffectRow) (last : CheckedClauses)
    → IsMonotone round
    → ((e f : EffectRow)
        → Within extra e f
        → Both (λ c d. EffectsBelow extra c.clauses d.clauses) (round e) (round' f))
    → Within extra residual residual'
    → Within extra returned returned'
    → Both
        (λ (e, c) (f, d). Within extra e f)
        (settle
          (suc (suc n))
          round
          residual
          returned
          (union_effect_rows (residual ∷ returned ∷ []))
          last)
        (settle
          (suc (suc n))
          round'
          residual'
          returned'
          (union_effect_rows (residual' ∷ returned' ∷ []))
          last)
settle-Below extra n round round' residual returned residual' returned' last monotone larger p q =
    combine (settle-IsFixed round residual returned monotone n last) (λ (fixed, checked) is_fixed.
      weaken (λ _ both_below. both_below.0)
        (settle-suc-Within extra round round' residual returned residual' returned' fixed checked
          is_fixed larger p q (suc n) last))

rounds-suc : (m n : ℕ) → m ≡ suc n → m + 1 ≡ suc (suc n)
rounds-suc m n e = omega arith

module _ (sig : OperationSignature) where
  mutual
    unfolding value computation check_clauses

    value-Below :
        (t : ValueTerm (Unit {0})) (extra : EffectRow) (Γ Δ : Context) (R S : Resumptions)
        (path : TermPath)
        → ContextBelow extra Γ Δ
        → ResumptionsBelow extra R S
        → Both (λ v w. ValueBelow extra v.type w.type) (value sig t Γ R path) (value sig t Δ S path)
    value-Below (ValueTerm.variable i) extra Γ Δ R S path h k =
        get-Below extra Γ Δ i _ _ _ h ⊗ λ _ _ p. both p
    value-Below ValueTerm.unit extra Γ Δ R S path h k = both tt
    value-Below (ValueTerm.bool b) extra Γ Δ R S path h k = both tt
    value-Below (ValueTerm.int n) extra Γ Δ R S path h k = whatever _ _ ⊗ λ _ _ _. both tt
    value-Below (ValueTerm.pair a b) extra Γ Δ R S path h k =
        value-Below a extra Γ Δ R S _ h k ⊗ λ _ _ p. value-Below b extra Γ Δ R S _ h k ⊗ λ _ _ q.
        whatever _ _ ⊗ λ _ _ _. whatever _ _ ⊗ λ _ _ _. both (p, q)
    value-Below (ValueTerm.thunk _ c) extra Γ Δ R S path h k =
        computation-Below c extra Γ Δ R S _ h k ⊗ λ _ _ (p, q). both (q, p)
    value-Below (ValueTerm.resumption i) extra Γ Δ R S path h k = whatever_fails _ _ _

    computation-Below :
        (t : ComputationTerm (Unit {0})) (extra : EffectRow) (Γ Δ : Context) (R S : Resumptions)
        (path : TermPath)
        → ContextBelow extra Γ Δ
        → ResumptionsBelow extra R S
        → Both (CheckedBelow extra) (computation sig t Γ R path) (computation sig t Δ S path)
    computation-Below (ComputationTerm.return g v) extra Γ Δ R S path h k =
        value-Below v extra Γ Δ R S _ h k ⊗ λ _ _ p. both (p, Within-refl extra (effect_row []))
    computation-Below (ComputationTerm.let_in c d) extra Γ Δ R S path h k =
        computation-Below c extra Γ Δ R S _ h k ⊗ λ bound bound' (t, w).
        expect_return-Below extra bound.type bound'.type _ _ t ⊗ λ (g, a) (g', a') b.
        computation-Below d extra (a ∷ Γ) (a' ∷ Δ) R S _ (b, h) k ⊗ λ body body' (t', w').
        whatever _ _ ⊗ λ _ _ _. whatever _ _ ⊗ λ _ _ _. whatever _ _ ⊗ λ _ _ _.
        whatever _ _ ⊗ λ _ _ _.
        both (t', union-Within extra bound.effects body.effects bound'.effects body'.effects w w')
    computation-Below (ComputationTerm.force v) extra Γ Δ R S path h k =
        value-Below v extra Γ Δ R S _ h k ⊗ λ v v' p.
        expect_thunk-Below extra v.type v'.type _ p ⊗ λ _ _ (w, t). both (t, w)
    computation-Below (ComputationTerm.lambda a g c) extra Γ Δ R S path h k =
        computation-Below c extra (a ∷ Γ) (a ∷ Δ) R S _ (ValueBelow-refl extra a, h) k
        ⊗ λ _ _ (t, w). whatever _ _ ⊗ λ _ _ _.
            both ((ValueBelow-refl extra a, w, t), Within-refl extra (effect_row []))
    computation-Below (ComputationTerm.apply c v) extra Γ Δ R S path h k =
        computation-Below c extra Γ Δ R S _ h k ⊗ λ callee callee' (t, w).
        expect_function-Below extra callee.type callee'.type _ t ⊗ λ p p' (w', t').
        value-Below v extra Γ Δ R S _ h k ⊗ λ _ _ _. whatever _ _ ⊗ λ _ _ _. whatever _ _ ⊗ λ _ _ _.
        whatever _ _ ⊗ λ _ _ _.
        both (t', union-Within extra callee.effects p.effects callee'.effects p'.effects w w')
    computation-Below (ComputationTerm.operation g label name v) extra Γ Δ R S path h k =
        Both-self (λ d d'. ValueBelow extra d.result_type d'.result_type) _
          (λ d. ValueBelow-refl extra d.result_type)
        ⊗ λ _ _ t. value-Below v extra Γ Δ R S _ h k ⊗ λ _ _ _.
            whatever _ _ ⊗ λ _ _ _. both (t, Within-refl extra (effect_row (label ∷ [])))
    computation-Below (ComputationTerm.handle label c r clauses) extra Γ Δ R S path h k =
        computation-Below c extra Γ Δ R S _ h k ⊗ λ handled handled' (t, w).
        expect_return-Below extra handled.type handled'.type _ _ t ⊗ λ (g, a) (g', a') b.
        require_clauses-Below sig label (clause_operations clauses) path ⊗ λ _ _ (n, operations).
        computation-Below r extra (a ∷ Γ) (a' ∷ Δ) R S _ (b, h) k ⊗ λ returned returned' (t', w').
        whatever _ _ ⊗ λ _ _ _. whatever _ _ ⊗ λ _ _ _. whatever _ _ ⊗ λ _ _ _.
        rw (rounds-suc (length sig) n operations) (
          settle-Below extra n _ _ (remove_effect_label handled.effects label) returned.effects
            (remove_effect_label handled'.effects label) returned'.effects _
            (λ more e f v.
              check_clauses-Below clauses label more returned.type returned.type e f Γ Γ R R path 0
                (ComputationBelow-refl more returned.type) v (ContextBelow-refl more Γ)
                (ResumptionsBelow-refl more R))
            (λ e f v.
              check_clauses-Below clauses label extra returned.type returned'.type e f Γ Δ R S path
                0 t' v h k)
            (remove-Within extra handled.effects handled'.effects label w) w')
        ⊗ λ settled settled' e.
            handler_result-Below extra handled handled' returned returned' label settled settled' t'
              e
    computation-Below (ComputationTerm.resume i v) extra Γ Δ R S path h k =
        get_resumption-Below extra R S i _ _ _ k ⊗ λ _ _ (_, t, w).
        value-Below v extra Γ Δ R S _ h k ⊗ λ _ _ _.
        whatever _ _ ⊗ λ _ _ _. whatever _ _ ⊗ λ _ _ _. both (t, w)

    check_clauses-Below :
        (clauses : Clauses (Unit {0})) (label : Text) (extra : EffectRow)
        (output output' : ComputationType) (assumed assumed' : EffectRow) (Γ Δ : Context)
        (R S : Resumptions) (path : TermPath) (i : ℕ)
        → ComputationBelow extra output output'
        → Within extra assumed assumed'
        → ContextBelow extra Γ Δ
        → ResumptionsBelow extra R S
        → Both
            (λ c d. EffectsBelow extra c.clauses d.clauses)
            (check_clauses sig clauses label output assumed Γ R path i)
            (check_clauses sig clauses label output' assumed' Δ S path i)
    check_clauses-Below Clauses.clauses_end label extra output output' assumed assumed' Γ Δ R S path
          i t w h k =
        both tt
    check_clauses-Below (Clauses.clause name c rest) label extra output output' assumed assumed' Γ Δ
          R S path i t w h k =
        Both-self
          (λ d d'.
            ValueBelow extra d.argument_type d'.argument_type
            × ValueBelow extra d.result_type d'.result_type)
          _ (λ d. (ValueBelow-refl extra d.argument_type, ValueBelow-refl extra d.result_type))
        ⊗ λ d d' (p, q).
            computation-Below c extra (d.argument_type ∷ Γ) (d'.argument_type ∷ Δ)
              (record { input = d.result_type; output = output; effects = assumed } ∷ R)
              (record { input = d'.result_type; output = output'; effects = assumed' } ∷ S) _ (p, h)
              ((q, t, w), k)
            ⊗ λ _ _ (_, w'). whatever _ _ ⊗ λ _ _ _. whatever _ _ ⊗ λ _ _ _.
                check_clauses-Below rest label extra output output' assumed assumed' Γ Δ R S path
                  (i + 1) t w h k
                ⊗ λ _ _ others. both (w', others)

-- The loop of a handler under a signature with some operation, within its bound of one round more
-- than there are operations, ends in a fixed point: if it gives a row and clauses, then checking the clauses at this row gives these
-- clauses, and the row is the union of the rows of the handled computation, of the return clause and
-- of these clauses.
pub settle-check_clauses :
    (sig : OperationSignature) (clauses : Clauses (Unit {0})) (label : Text)
    (output : ComputationType) (Γ : Context) (R : Resumptions) (path : TermPath)
    (residual returned assumed : EffectRow) (last checked : CheckedClauses) (n : ℕ)
    → length sig ≡ suc n
    → settle
        (length sig + 1)
        (λ e. check_clauses sig clauses label output e Γ R path 0)
        residual
        returned
        (union_effect_rows (residual ∷ returned ∷ []))
        last
      ≡ ok (assumed, checked)
    → (check_clauses sig clauses label output assumed Γ R path 0 ≡ ok checked)
      × (union_effect_rows (residual ∷ returned ∷ effects_of checked.clauses) ≡ assumed)
settle-check_clauses sig clauses label output Γ R path residual returned assumed last checked n
      some_op result =
    let monotone : IsMonotone (λ e. check_clauses sig clauses label output e Γ R path 0) =
      λ more e f v.
        check_clauses-Below sig clauses label more output output e f Γ Γ R R path 0
          (ComputationBelow-refl more output) v (ContextBelow-refl more Γ)
          (ResumptionsBelow-refl more R) in
    let result' = rw (rounds-suc (length sig) n some_op) at result in
    let fixed = of_ok (rw result' at (settle-IsFixed _ residual returned monotone n last)) in
    (fixed.settled, fixed.row)

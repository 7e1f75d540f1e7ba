-- ===== src/Kernel/Checker/Normal.antt =====
-- The rows of what src/kernel-calculus/checker.ts accepts are sorted and without repetitions.
pub mod Types
use mathlib.Core.Path.{subst}
use native.Mathlib.Numerals.{add-one}
use semantic_systems.Base.{
  ℕ, zero, suc, ◌+◌, ◌≡◌, refl, sym, ◌∙◌, ap, Bool, true, false, List, [], ◌∷◌, Option, none, some,
  some-injective, String, get_elem?, length, Bool-cases, Option-cases, inl, inr, if◌then◌else◌, All,
  map, tail,
}
use semantic_systems.Kernel.Grade.{Grade}
use semantic_systems.Kernel.Row.{
  Text, EffectRow, effect_row, append_rows, union_effect_rows, effect_rows_equal,
}
use semantic_systems.Kernel.Row.Order.{IsIncreasing, normalized_labels-IsIncreasing}
use semantic_systems.Kernel.Row.Laws.{effect_row-IsIncreasing, union_effect_rows-IsIncreasing}
use semantic_systems.Kernel.Types.{
  ValueType, ComputationType, clone_value_type, clone_computation_type,
}
use semantic_systems.Kernel.Term.{
  ValueTerm, ComputationTerm, Clauses, OperationSignature, OperationDeclaration,
}
use semantic_systems.Kernel.Term.Clone.{
  clone_value_term, clone_computation_term, clone_clauses, clone_declaration, operation_signature,
}
use semantic_systems.Kernel.Diagnostic.{TermPath, Diagnostic, Result, ok, err, fail}
use semantic_systems.Kernel.Diagnostic.Ensures.{
  Ensures, returns, fails, ◌⟫◌, of_ok, weaken, trivially,
}
use semantic_systems.Kernel.Signature.{operations_get, declares, validate_signature}
use semantic_systems.Kernel.Checker.{
  Context, Resumptions, ResumptionExpectation, CheckedComputation, CheckedClauses, Round, present,
  settle, effects_of, handler_result, value, computation, check_copies, check, unless_invalid,
  Accepted,
}
use semantic_systems.Kernel.Checker.Sound.Parts.{
  present_sound, expect_return_sound, expect_thunk_sound, expect_function_sound,
}
use semantic_systems.Kernel.Checker.Normal.Types.{
  clone_value_type-IsNormal, clone_computation_type-IsNormal, clone_value_term-HasNormal,
  clone_computation_term-HasNormal, IsNormalValue, IsNormal, HasNormalValue, HasNormal,
}

-- The operations that the table holds have normal types.
abbrev IsNormalTable : OperationSignature → Type 0
IsNormalTable sig =
    (label name : Text) (d : OperationDeclaration)
    → operations_get sig label name ≡ some d
    → IsNormalValue d.result_type

operations_get-clone :
    (declarations : List OperationDeclaration) → IsNormalTable (operation_signature declarations)
unfolding operations_get operation_signature clone_declaration
operations_get-clone [] label name d h = absurd (cc)
operations_get-clone (e ∷ es) label name d h =
    elim (Option-cases (operations_get (map clone_declaration es) label name)) [
      | inr (x, later) ↦
          operations_get-clone es label name d (later ∙ (rw (operations_get, later) at h))
      | inl no_later ↦ elim (Bool-cases (declares label name (clone_declaration e))) [
        | inl here ↦
            subst (λ y. IsNormalValue y.result_type)
              (some-injective (rw (operations_get, no_later, here) at h))
              (clone_value_type-IsNormal e.result_type)
        | inr other ↦ let nothing = rw (operations_get, no_later, other) at h in absurd (cc)
      ]
    ]

get-IsNormal :
    (Γ : Context) (i : ℕ) {a : ValueType}
    → All IsNormalValue Γ
    → get_elem? Γ i ≡ some a
    → IsNormalValue a
get-IsNormal [] i h e = absurd (cc)
get-IsNormal (b ∷ Γ) zero (h, hs) e = subst IsNormalValue (some-injective e) h
get-IsNormal (b ∷ Γ) (suc i) (h, hs) e = get-IsNormal Γ i hs e

abbrev IsNormalExpectation : ResumptionExpectation → Type 0
IsNormalExpectation x = IsNormal x.output × IsIncreasing x.effects

get_resumption-IsNormal :
    (R : Resumptions) (i : ℕ) {x : ResumptionExpectation}
    → All IsNormalExpectation R
    → get_elem? R i ≡ some x
    → IsNormalExpectation x
get_resumption-IsNormal [] i h e = absurd (cc)
get_resumption-IsNormal (y ∷ R) zero (h, hs) e = subst IsNormalExpectation (some-injective e) h
get_resumption-IsNormal (y ∷ R) (suc i) (h, hs) e = get_resumption-IsNormal R i hs e

settle-IsIncreasing :
    (n : ℕ) (round : Round) (residual returned assumed : EffectRow) (last : CheckedClauses)
    → IsIncreasing assumed
    → Ensures (λ (e, _). IsIncreasing e) (settle n round residual returned assumed last)
unfolding settle
settle-IsIncreasing zero round residual returned assumed last h = returns h
settle-IsIncreasing (suc n) round residual returned assumed last h = trivially _ ⟫ λ c _.
    let next = union_effect_rows (residual ∷ returned ∷ effects_of c.clauses) in
    elim (Bool-cases (effect_rows_equal next assumed)) [
      | inl e ↦ rw e (returns h)
      | inr e ↦ rw e (
          settle-IsIncreasing n round residual returned next c
            (union_effect_rows-IsIncreasing (residual ∷ returned ∷ effects_of c.clauses)))
    ]

abbrev IsNormalChecked : CheckedComputation → Type 0
IsNormalChecked c = IsNormal c.type × IsIncreasing c.effects

handler_result-IsNormal :
    (handled returned : CheckedComputation) (label : Text) (settled : EffectRow × CheckedClauses)
    → IsNormal returned.type
    → IsIncreasing settled.0
    → Ensures IsNormalChecked (handler_result handled returned label settled)
unfolding handler_result
handler_result-IsNormal handled returned label (e, c) t inc =
    trivially _ ⟫ λ _ _. trivially _ ⟫ λ _ _. trivially _ ⟫ λ _ _. returns (t, inc)

module _ (sig : OperationSignature) (table : IsNormalTable sig) where
  mutual
    unfolding value computation fail

    value-IsNormal :
        (t : ValueTerm (Unit {0})) (Γ : Context) (R : Resumptions) (path : TermPath)
        → HasNormalValue t
        → All IsNormalValue Γ
        → All IsNormalExpectation R
        → Ensures (λ v. IsNormalValue v.type) (value sig t Γ R path)
    value-IsNormal (ValueTerm.variable i) Γ R path n h k =
        present_sound (get_elem? Γ i) _ _ _ ⟫ λ _ e. returns (get-IsNormal Γ i h e)
    value-IsNormal ValueTerm.unit Γ R path n h k = returns tt
    value-IsNormal (ValueTerm.bool b) Γ R path n h k = returns tt
    value-IsNormal (ValueTerm.int m) Γ R path n h k = trivially _ ⟫ λ _ _. returns tt
    value-IsNormal (ValueTerm.pair a b) Γ R path (n, m) h k = value-IsNormal a Γ R _ n h k ⟫ λ _ p.
        value-IsNormal b Γ R _ m h k ⟫ λ _ q.
        trivially _ ⟫ λ _ _. trivially _ ⟫ λ _ _. returns (p, q)
    value-IsNormal (ValueTerm.thunk _ c) Γ R path n h k =
        computation-IsNormal c Γ R _ n h k ⟫ λ _ (t, e). returns (e, t)
    value-IsNormal (ValueTerm.resumption i) Γ R path n h k = fails

    computation-IsNormal :
        (t : ComputationTerm (Unit {0})) (Γ : Context) (R : Resumptions) (path : TermPath)
        → HasNormal t
        → All IsNormalValue Γ
        → All IsNormalExpectation R
        → Ensures IsNormalChecked (computation sig t Γ R path)
    computation-IsNormal (ComputationTerm.return g v) Γ R path n h k =
        value-IsNormal v Γ R _ n h k ⟫ λ _ p. returns (p, effect_row-IsIncreasing [])
    computation-IsNormal (ComputationTerm.let_in c d) Γ R path (n, m) h k =
        computation-IsNormal c Γ R _ n h k ⟫ λ bound (t, e).
        expect_return_sound bound.type _ _ ⟫ λ (g, a) is.
        computation-IsNormal d (a ∷ Γ) R _ m (subst IsNormal is t, h) k ⟫ λ body (t', e').
        trivially _ ⟫ λ _ _. trivially _ ⟫ λ _ _. trivially _ ⟫ λ _ _. trivially _ ⟫ λ _ _.
        returns (t', union_effect_rows-IsIncreasing (bound.effects ∷ body.effects ∷ []))
    computation-IsNormal (ComputationTerm.force v) Γ R path n h k =
        value-IsNormal v Γ R _ n h k ⟫ λ v p. expect_thunk_sound v.type _ ⟫ λ _ is.
        let (e, t) = subst IsNormalValue is p in returns (t, e)
    computation-IsNormal (ComputationTerm.lambda a g c) Γ R path (p, n) h k =
        computation-IsNormal c (a ∷ Γ) R _ n (p, h) k ⟫ λ _ (t, e).
        trivially _ ⟫ λ _ _. returns ((p, e, t), effect_row-IsIncreasing [])
    computation-IsNormal (ComputationTerm.apply c v) Γ R path (n, m) h k =
        computation-IsNormal c Γ R _ n h k ⟫ λ callee (t, e).
        expect_function_sound callee.type _ ⟫ λ p is. trivially _ ⟫ λ _ _. trivially _ ⟫ λ _ _.
        trivially _ ⟫ λ _ _. trivially _ ⟫ λ _ _.
        let (_, _, t') = subst IsNormal is t in
        returns (t', union_effect_rows-IsIncreasing (callee.effects ∷ p.effects ∷ []))
    computation-IsNormal (ComputationTerm.operation g label name v) Γ R path n h k =
        present_sound (operations_get sig label name) _ _ _ ⟫ λ d found. trivially _ ⟫ λ _ _.
        trivially _ ⟫ λ _ _.
        returns (table label name d found, effect_row-IsIncreasing (label ∷ []))
    computation-IsNormal (ComputationTerm.handle label c r clauses) Γ R path (n, m) h k =
        computation-IsNormal c Γ R _ n h k ⟫ λ handled (t, e).
        expect_return_sound handled.type _ _ ⟫ λ (g, a) is. trivially _ ⟫ λ _ _.
        computation-IsNormal r (a ∷ Γ) R _ m (subst IsNormal is t, h) k ⟫ λ returned (t', e').
        trivially _ ⟫ λ _ _. trivially _ ⟫ λ _ _. trivially _ ⟫ λ _ _.
        settle-IsIncreasing (length sig + 1) _ _ _ _ _ (union_effect_rows-IsIncreasing _)
        ⟫ λ settled inc. handler_result-IsNormal handled returned label settled t' inc
    computation-IsNormal (ComputationTerm.resume i v) Γ R path n h k =
        present_sound (get_elem? R i) _ _ _ ⟫ λ _ found. trivially _ ⟫ λ _ _.
        trivially _ ⟫ λ _ _. trivially _ ⟫ λ _ _. returns (get_resumption-IsNormal R i k found)

check_copies-IsNormal :
    (declarations : List OperationDeclaration) (term : ComputationTerm (Unit {0}))
    → Ensures
        (λ p. IsNormal p.type × IsIncreasing p.effects)
        (check_copies (operation_signature declarations) (clone_computation_term term))
unfolding check_copies unless_invalid
check_copies-IsNormal declarations term =
    elim (Option-cases (validate_signature (operation_signature declarations))) [
      | inr (d, invalid) ↦ rw invalid fails
      | inl valid ↦ rw valid (
          computation-IsNormal (operation_signature declarations)
            (operations_get-clone declarations) _ [] [] [] (clone_computation_term-HasNormal term)
            tt tt
          ⟫ λ _ p. returns p)
    ]

-- The effects of an accepted program are a sorted row without repetitions, and so are all rows of
-- its type, whatever the rows of the signature and of the term that were handed in.
pub check-IsNormal :
    (signature : OperationSignature) (term : ComputationTerm (Unit {0})) (program : Accepted)
    → check signature term ≡ ok program
    → IsNormal program.type × IsIncreasing program.effects
unfolding check
check-IsNormal signature term program accepted =
    of_ok (rw accepted at (check_copies-IsNormal signature term))

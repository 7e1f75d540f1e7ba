-- ===== src/Kernel/Checker/Sound/Parts.antt =====
-- What the parts of the checker ensure when they return.
use semantic_systems.Base.{
  ℕ, zero, suc, ◌≡◌, refl, sym, ◌∙◌, ap, Bool, true, false, List, ◌∷◌, Option, none, some, String,
  Bool-cases, inl, inr,
}
use semantic_systems.Kernel.Grade.{Grade}
use semantic_systems.Kernel.Row.{
  Text, EffectRow, text_eq, includes, effect_rows_equal, union_effect_rows,
}
use semantic_systems.Kernel.Row.Equality.{effect_rows_equal→eq, includes-sort_by}
use semantic_systems.Kernel.Types.{ValueType, ComputationType}
use semantic_systems.Kernel.Term.{ComputationTerm, Clauses, clause_operations, OperationSignature}
use semantic_systems.Kernel.Diagnostic.{TermPath, fail}
use semantic_systems.Kernel.Diagnostic.Ensures.{Ensures, returns, fails, ◌⟫◌, weaken, trivially}
use semantic_systems.Kernel.Signature.{sort_texts, expected_operations, code_unit_le}
use semantic_systems.Kernel.Signature.Laws.{includes-expected_operations}
use semantic_systems.Kernel.Checker.{
  Context, Resumptions, CheckedComputation, CheckedClauses, expect_return, expect_thunk,
  expect_function, require, present, Round, settle, handler_result, require_clauses, effects_of,
}
use semantic_systems.Kernel.Typing.{find_clause, Covers, ComputationTyping, ClausesTyping}

pub require_sound :
    (b : Bool) (code rule : String) (path : TermPath)
    → Ensures (λ _. b ≡ true) (require b code rule path)
unfolding require fail
require_sound true code rule path = returns refl
require_sound false code rule path = fails

pub present_sound {ℓ} :
    {A : Type ℓ} (o : Option A) (code rule : String) (path : TermPath)
    → Ensures (λ a. o ≡ some a) (present o code rule path)
unfolding present fail
present_sound (some a) code rule path = returns refl
present_sound none code rule path = fails

pub expect_return_sound :
    (c : ComputationType) (rule : String) (path : TermPath)
    → Ensures (λ (g, a). c ≡ ComputationType.return g a) (expect_return c rule path)
unfolding expect_return fail
expect_return_sound (ComputationType.return g a) rule path = returns refl
expect_return_sound (ComputationType.function a g e c) rule path = fails

pub expect_thunk_sound :
    (a : ValueType) (path : TermPath)
    → Ensures (λ (e, c). a ≡ ValueType.thunk e c) (expect_thunk a path)
unfolding expect_thunk fail
expect_thunk_sound (ValueType.thunk e c) path = returns refl
expect_thunk_sound _ path = fails

pub expect_function_sound :
    (c : ComputationType) (path : TermPath)
    → Ensures
        (λ p. c ≡ ComputationType.function p.parameter p.grade p.effects p.result)
        (expect_function c path)
unfolding expect_function fail
expect_function_sound (ComputationType.function a g e c) path = returns refl
expect_function_sound (ComputationType.return g a) path = fails

-- The loop returns what one of its rounds returned.
pub settle_sound :
    (P : CheckedClauses → Type 0) (n : ℕ) (round : Round) (residual returned assumed : EffectRow)
    (last : CheckedClauses)
    → ((e : EffectRow) → Ensures P (round e))
    → P last
    → Ensures (λ (_, c). P c) (settle n round residual returned assumed last)
unfolding settle
settle_sound P zero round residual returned assumed last h p = returns p
settle_sound P (suc n) round residual returned assumed last h p = h assumed ⟫ λ c pc.
    let next = union_effect_rows (residual ∷ returned ∷ effects_of c.clauses) in
    elim (Bool-cases (effect_rows_equal next assumed)) [
      | inl e ↦ rw e (returns pc)
      | inr e ↦ rw e (settle_sound P n round residual returned next c h pc)
    ]

pub settle-suc_sound :
    (P : CheckedClauses → Type 0) (n : ℕ) (round : Round) (residual returned assumed : EffectRow)
    (last : CheckedClauses)
    → ((e : EffectRow) → Ensures P (round e))
    → Ensures (λ (_, c). P c) (settle (suc n) round residual returned assumed last)
unfolding settle
settle-suc_sound P n round residual returned assumed last h = h assumed ⟫ λ c pc.
    let next = union_effect_rows (residual ∷ returned ∷ effects_of c.clauses) in
    elim (Bool-cases (effect_rows_equal next assumed)) [
      | inl e ↦ rw e (returns pc)
      | inr e ↦ rw e (settle_sound P n round residual returned next c h pc)
    ]

pub find_clause-includes :
    {A : Type 0} (clauses : Clauses A) (name : Text)
    → includes (clause_operations clauses) name ≡ true
    → (body : ComputationTerm A) × (find_clause name clauses ≡ some body)
unfolding includes clause_operations find_clause
find_clause-includes Clauses.clauses_end name h = absurd (cc)
find_clause-includes (Clauses.clause other body rest) name h =
    elim (Bool-cases (text_eq other name)) [
      | inl e ↦ (body, rw e)
      | inr e ↦ let (m, f) = find_clause-includes rest name (rw e at h) in (m, rw (e, f))
    ]

pub require_clauses_sound :
    (sig : OperationSignature) (label : Text) (operations : List Text) (path : TermPath)
    → Ensures
        (λ _. sort_texts operations ≡ expected_operations sig label)
        (require_clauses sig label operations path)
unfolding require_clauses
require_clauses_sound sig label operations path =
    require_sound _ _ _ _ ⟫ λ _ _. weaken (λ _. effect_rows_equal→eq _ _) (require_sound _ _ _ _)

-- A handler with exactly the operations of its label has a clause for each.
pub clauses_cover :
    (sig : OperationSignature) (label : Text) (clauses : Clauses ValueType) (operations : List Text)
    → clause_operations clauses ≡ operations
    → sort_texts operations ≡ expected_operations sig label
    → Covers sig label clauses
unfolding sort_texts
clauses_cover sig label clauses operations same sorted name d found =
    find_clause-includes clauses name (
      rw same (
        sym (includes-sort_by code_unit_le operations name)
        ∙ ap (λ xs. includes xs name) sorted
        ∙ includes-expected_operations sig label name d found))

abbrev pub ClausesSound :
    OperationSignature
    → Text
    → ComputationType
    → Context
    → Resumptions
    → List Text
    → CheckedClauses
    → Type 0
ClausesSound sig label c Γ R operations checked =
    ClausesTyping sig label c Γ R checked.terms × (clause_operations checked.terms ≡ operations)

pub handler_result_sound :
    (sig : OperationSignature) (Γ : Context) (R : Resumptions) (label : Text)
    (operations : List Text) (handled returned : CheckedComputation) (g : Grade) (a : ValueType)
    (settled : EffectRow × CheckedClauses)
    → ComputationTyping sig Γ R handled.term (ComputationType.return g a)
    → ComputationTyping sig (a ∷ Γ) R returned.term returned.type
    → sort_texts operations ≡ expected_operations sig label
    → ClausesSound sig label returned.type Γ R operations settled.1
    → Ensures
        (λ c. ComputationTyping sig Γ R c.term c.type)
        (handler_result handled returned label settled)
unfolding handler_result
handler_result_sound sig Γ R label operations handled returned g a (e, checked) dm dr sorted
      (dc, same) =
    trivially _ ⟫ λ _ _. trivially _ ⟫ λ _ _. trivially _ ⟫ λ _ _. returns (
      ComputationTyping.handle dm dr dc
        (clauses_cover sig label checked.terms operations same sorted))

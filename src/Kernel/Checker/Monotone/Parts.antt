-- ===== src/Kernel/Checker/Monotone/Parts.antt =====
-- The parts of the checker on two inputs that differ in effects.
use semantic_systems.Base.{
  ℕ, zero, suc, ◌≡◌, refl, List, [], ◌∷◌, String, get_elem?, length, filter,
}
use semantic_systems.Kernel.Row.{Text, EffectRow}
use semantic_systems.Kernel.Types.{ValueType, ComputationType}
use semantic_systems.Kernel.Term.{OperationSignature}
use semantic_systems.Kernel.Diagnostic.{TermPath, Result, ok, err, ◌>>=◌, fail}
use semantic_systems.Kernel.Diagnostic.Ensures.{Ensures, returns, fails}
use semantic_systems.Kernel.Signature.{expected_operations, sort_texts}
use semantic_systems.Kernel.Checker.{
  Context, Resumptions, CheckedComputation, CheckedClauses, expect_return, expect_thunk,
  expect_function, require, present, handler_result, require_clauses,
}
use semantic_systems.Kernel.Checker.Below.{
  Within, ValueBelow, ComputationBelow, ContextBelow, ResumptionsBelow, ExpectationBelow,
  CheckedBelow, Both, both, fails_first, fails_second, ◌⊗◌, whatever,
}

pub Both-self : {A : Type 0} (P : A → A → Type 0) (r : Result A) → ((a : A) → P a a) → Both P r r
Both-self P (ok a) h = both (h a)
Both-self P (err e) h = fails_first

pub with_first :
    {A : Type 0} {Q : A → A → Type 0} {a : A} {s : Result A} → Ensures (Q a) s → Both Q (ok a) s
with_first (returns h) = both h
with_first fails = fails_second

pub combine :
    {A : Type 0} {P : A → Type 0} {Q : A → A → Type 0} {r s : Result A}
    → Ensures P r
    → ((a : A) → P a → Ensures (Q a) s)
    → Both Q r s
combine (returns h) k = with_first (k _ h)
combine fails k = fails_first

pub whatever_fails :
    {A : Type 0} {P : A → A → Type 0} (code rule : String) (path : TermPath)
    → Both {A = A} P (fail code rule path) (fail code rule path)
unfolding fail
whatever_fails code rule path = fails_first

pub get-Below :
    (extra : EffectRow) (Γ Δ : Context) (i : ℕ) (code rule : String) (path : TermPath)
    → ContextBelow extra Γ Δ
    → Both
        (ValueBelow extra)
        (present (get_elem? Γ i) code rule path)
        (present (get_elem? Δ i) code rule path)
unfolding present fail
get-Below extra [] [] i code rule path h = fails_first
get-Below extra (a ∷ Γ) (b ∷ Δ) zero code rule path (h, hs) = both h
get-Below extra (a ∷ Γ) (b ∷ Δ) (suc i) code rule path (h, hs) =
    get-Below extra Γ Δ i code rule path hs
get-Below extra [] (b ∷ Δ) i code rule path h = absurd h
get-Below extra (a ∷ Γ) [] i code rule path h = absurd h

pub get_resumption-Below :
    (extra : EffectRow) (R S : Resumptions) (i : ℕ) (code rule : String) (path : TermPath)
    → ResumptionsBelow extra R S
    → Both
        (ExpectationBelow extra)
        (present (get_elem? R i) code rule path)
        (present (get_elem? S i) code rule path)
unfolding present fail
get_resumption-Below extra [] [] i code rule path h = fails_first
get_resumption-Below extra (a ∷ R) (b ∷ S) zero code rule path (h, hs) = both h
get_resumption-Below extra (a ∷ R) (b ∷ S) (suc i) code rule path (h, hs) =
    get_resumption-Below extra R S i code rule path hs
get_resumption-Below extra [] (b ∷ S) i code rule path h = absurd h
get_resumption-Below extra (a ∷ R) [] i code rule path h = absurd h

pub expect_return-Below :
    (extra : EffectRow) (c d : ComputationType) (rule : String) (path : TermPath)
    → ComputationBelow extra c d
    → Both
        (λ (g, a) (h, b). ValueBelow extra a b)
        (expect_return c rule path)
        (expect_return d rule path)
unfolding expect_return fail
expect_return-Below extra (ComputationType.return g a) (ComputationType.return h b) rule path p =
    both p
expect_return-Below extra (ComputationType.function a g e c) d rule path p = fails_first
expect_return-Below extra (ComputationType.return g a) (ComputationType.function b h f d) rule path
      p =
    fails_second

pub expect_thunk-Below :
    (extra : EffectRow) (a b : ValueType) (path : TermPath)
    → ValueBelow extra a b
    → Both
        (λ (e, c) (f, d). Within extra e f × ComputationBelow extra c d)
        (expect_thunk a path)
        (expect_thunk b path)
unfolding expect_thunk fail
expect_thunk-Below extra (ValueType.thunk e c) (ValueType.thunk f d) path p = both p
expect_thunk-Below extra ValueType.unit b path p = fails_first
expect_thunk-Below extra ValueType.bool b path p = fails_first
expect_thunk-Below extra ValueType.int b path p = fails_first
expect_thunk-Below extra (ValueType.pair a a') b path p = fails_first
expect_thunk-Below extra (ValueType.thunk e c) _ path p = fails_second

pub expect_function-Below :
    (extra : EffectRow) (c d : ComputationType) (path : TermPath)
    → ComputationBelow extra c d
    → Both
        (λ p q. Within extra p.effects q.effects × ComputationBelow extra p.result q.result)
        (expect_function c path)
        (expect_function d path)
unfolding expect_function fail
expect_function-Below extra (ComputationType.function a g e c) (ComputationType.function b h f d)
      path (p, q, r) =
    both (q, r)
expect_function-Below extra (ComputationType.return g a) d path p = fails_first
expect_function-Below extra (ComputationType.function a g e c) (ComputationType.return h b) path p =
    fails_second

pub handler_result-Below :
    (extra : EffectRow) (handled handled' returned returned' : CheckedComputation) (label : Text)
    (settled settled' : EffectRow × CheckedClauses)
    → ComputationBelow extra returned.type returned'.type
    → Within extra settled.0 settled'.0
    → Both
        (CheckedBelow extra)
        (handler_result handled returned label settled)
        (handler_result handled' returned' label settled')
unfolding handler_result
handler_result-Below extra handled handled' returned returned' label (e, c) (f, d) t w =
    whatever _ _ ⊗ λ _ _ _. whatever _ _ ⊗ λ _ _ _. whatever _ _ ⊗ λ _ _ _. both (t, w)

-- A label that a handler may have has an operation.
pub require_clauses-Below :
    (sig : OperationSignature) (label : Text) (operations : List Text) (path : TermPath)
    → Both
        (λ _ _. (n : ℕ) × (length sig ≡ suc n))
        (require_clauses sig label operations path)
        (require_clauses sig label operations path)
unfolding require_clauses require fail expected_operations filter sort_texts ◌>>=◌
require_clauses-Below [] label operations path = fails_first
require_clauses-Below (d ∷ sig) label operations path = Both-self _ _ (λ _. (length sig, refl))

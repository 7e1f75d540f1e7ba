-- ===== src/Kernel/Checker/Internal/Parts.antt =====
-- The parts of the checker fail with none but the diagnostics of its rules, and keep the lengths of
-- usage vectors.
use semantic_systems.Base.{
  ℕ, zero, suc, ◌≡◌, refl, sym, ◌∙◌, ap, Bool, true, false, List, [], ◌∷◌, Option, none, some,
  String, length, tail, Bool-cases, Option-cases, inl, inr, arith, All, ◌&&◌, ◌||◌, map, filter,
}
use semantic_systems.Kernel.Grade.{Grade, Usage, grade_le, grade_eq, scale_usage}
use semantic_systems.Kernel.Grade.Laws.{length-scale_usage, add_usage-sum_usage, length-sum_usage}
use semantic_systems.Kernel.Row.{
  Text, EffectRow, text_eq, includes, effect_rows_equal, union_effect_rows,
}
use semantic_systems.Kernel.Row.Equality.{effect_rows_equal→eq, includes-sort_by, text_eq_refl}
use semantic_systems.Kernel.Types.{ValueType, ComputationType}
use semantic_systems.Kernel.Term.{OperationSignature, OperationDeclaration}
use semantic_systems.Kernel.Diagnostic.{TermPath, Result}
use semantic_systems.Kernel.Diagnostic.External.{
  is_internal, External, returns_with, fails_outside, ◌⊳◌, fail-External,
}
use semantic_systems.Kernel.Signature.{
  operations_get, sort_texts, expected_operations, code_unit_le, declares,
}
use semantic_systems.Kernel.Checker.{
  CheckedValue, CheckedComputation, CheckedClauses, added, within_grade, expect_return,
  expect_thunk, expect_function, require, present, Round, settle, add_clauses, handler_result,
  require_clauses, effects_of,
}

pub or-right : (a b : Bool) → b ≡ true → (a || b) ≡ true
or-right a b m = ground arith

pub weaken_to {ℓ} :
    {A : Type ℓ} {P Q : A → Type 0} {r : Result A}
    → ((a : A) → P a → Q a)
    → External P r
    → External Q r
weaken_to k (returns_with h) = returns_with (k _ h)
weaken_to k (fails_outside e) = fails_outside e

pub require-External :
    (b : Bool) (code rule : String) (path : TermPath)
    → is_internal code ≡ false
    → External (λ _. b ≡ true) (require b code rule path)
unfolding require
require-External true code rule path h = returns_with refl
require-External false code rule path h = fail-External code rule path h

pub present-External {ℓ} :
    {A : Type ℓ} (o : Option A) (code rule : String) (path : TermPath)
    → is_internal code ≡ false
    → External (λ _. Unit) (present o code rule path)
unfolding present
present-External (some a) code rule path h = returns_with tt
present-External none code rule path h = fail-External code rule path h

pub expect_return-External :
    (c : ComputationType) (rule : String) (path : TermPath)
    → External (λ _. Unit) (expect_return c rule path)
unfolding expect_return
expect_return-External (ComputationType.return g a) rule path = returns_with tt
expect_return-External (ComputationType.function a g e c) rule path = fail-External _ _ _ refl

pub expect_thunk-External :
    (a : ValueType) (path : TermPath) → External (λ _. Unit) (expect_thunk a path)
unfolding expect_thunk
expect_thunk-External (ValueType.thunk e c) path = returns_with tt
expect_thunk-External _ path = fail-External _ _ _ refl

pub expect_function-External :
    (c : ComputationType) (path : TermPath) → External (λ _. Unit) (expect_function c path)
unfolding expect_function
expect_function-External (ComputationType.function a g e c) path = returns_with tt
expect_function-External (ComputationType.return g a) path = fail-External _ _ _ refl

pub within_grade-External :
    (o : Option Grade) (limit : Grade) (rule : String) (path : TermPath)
    → External (λ _. Unit) (within_grade o limit rule path)
unfolding within_grade
within_grade-External none limit rule path = fail-External _ _ _ refl
within_grade-External (some g) limit rule path = elim (Bool-cases (grade_le g limit)) [
  | inl fits ↦ rw fits (returns_with tt)
  | inr over ↦ rw over (elim (Bool-cases (grade_eq limit Grade.once && grade_eq g Grade.omega)) [
    | inl twice ↦ rw twice (fail-External _ _ _ refl)
    | inr other ↦ rw other (fail-External _ _ _ refl)
  ])
]

-- Vectors of one length have a sum of that length.
pub added-External :
    (l r : Usage) (n : ℕ) → length l ≡ n → length r ≡ n → External (λ u. length u ≡ n) (added l r)
unfolding added
added-External l r n p q =
    rw (added, add_usage-sum_usage l r (p ∙ sym q))
      (returns_with (length-sum_usage l r (p ∙ sym q) ∙ p))

pub length-tail : (u : Usage) (n : ℕ) → length u ≡ suc n → length (tail u) ≡ n
length-tail [] n h = absurd (omega arith)
length-tail (g ∷ u) n h = omega arith

-- The usage of a checked term has the lengths of the two contexts.
abbrev pub FitsValue : ℕ → ℕ → CheckedValue → Type 0
FitsValue n k v = (length v.usage ≡ n) × (length v.resumption_usage ≡ k)

abbrev pub Fits : ℕ → ℕ → CheckedComputation → Type 0
Fits n k c = (length c.usage ≡ n) × (length c.resumption_usage ≡ k)

abbrev pub FitsClauses : ℕ → ℕ → CheckedClauses → Type 0
FitsClauses n k c = All (Fits (suc n) (suc k)) c.clauses

pub add_clauses-External :
    (n k : ℕ) (u v : Usage) (cs : List CheckedComputation)
    → length u ≡ n
    → length v ≡ k
    → All (Fits (suc n) (suc k)) cs
    → External (λ (a, b). (length a ≡ n) × (length b ≡ k)) (add_clauses u v cs)
unfolding add_clauses
add_clauses-External n k u v [] p q h = returns_with (p, q)
add_clauses-External n k u v (c ∷ cs) p q ((a, b), h) =
    added-External u (tail c.usage) n p (length-tail c.usage n a) ⊳ λ u' p'.
    added-External v (tail c.resumption_usage) k q (length-tail c.resumption_usage k b) ⊳ λ v' q'.
    add_clauses-External n k u' v' cs p' q' h

pub handler_result-External :
    (n k : ℕ) (handled returned : CheckedComputation) (label : Text)
    (settled : EffectRow × CheckedClauses)
    → Fits n k handled
    → Fits (suc n) k returned
    → FitsClauses n k settled.1
    → External (Fits n k) (handler_result handled returned label settled)
unfolding handler_result
handler_result-External n k handled returned label (e, c) (p, q) (p', q') h =
    added-External _ _ n p (length-tail returned.usage n p') ⊳ λ u pu.
    added-External _ _ k q q' ⊳ λ v qv.
    add_clauses-External n k u v c.clauses pu qv h ⊳ λ _ both. returns_with both

pub length-zero : (u : Usage) → length u ≡ 0 → u ≡ []
length-zero [] h = refl
length-zero (g ∷ u) h = absurd (omega arith)

pub settle-External :
    (P : CheckedClauses → Type 0) (n : ℕ) (round : Round) (residual returned assumed : EffectRow)
    (last : CheckedClauses)
    → ((e : EffectRow) → External P (round e))
    → P last
    → External (λ (_, c). P c) (settle n round residual returned assumed last)
unfolding settle
settle-External P zero round residual returned assumed last h p = returns_with p
settle-External P (suc n) round residual returned assumed last h p = h assumed ⊳ λ c pc.
    let next = union_effect_rows (residual ∷ returned ∷ effects_of c.clauses) in
    elim (Bool-cases (effect_rows_equal next assumed)) [
      | inl e ↦ rw e (returns_with pc)
      | inr e ↦ rw e (settle-External P n round residual returned next c h pc)
    ]

-- Each of the operations has a declaration under the label.
abbrev pub AreDeclared : OperationSignature → Text → List Text → Type 0
AreDeclared sig label names =
    All (λ name. (d : OperationDeclaration) × (operations_get sig label name ≡ some d)) names

pub scaled : (g : Grade) (u : Usage) (n : ℕ) → length u ≡ n → length (scale_usage g u) ≡ n
scaled g u n h = length-scale_usage g u ∙ h

pub found-External {ℓ} :
    {A : Type ℓ} (o : Option A) (a : A) (code rule : String) (path : TermPath)
    → o ≡ some a
    → External (λ _. Unit) (present o code rule path)
unfolding present
found-External o a code rule path h = rw (present, h) (returns_with tt)

-- An operation that stands under the label in the signature has a declaration.
pub includes-declared :
    (sig : OperationSignature) (label name : Text)
    → includes (map (λ e. e.operation) (filter (λ e. text_eq e.label label) sig)) name ≡ true
    → (d : OperationDeclaration) × (operations_get sig label name ≡ some d)
unfolding operations_get declares filter includes
includes-declared [] label name h = absurd (cc)
includes-declared (e ∷ sig) label name h = elim (Option-cases (operations_get sig label name)) [
  | inr (d, later) ↦ (d, rw later)
  | inl no_later ↦ elim (Bool-cases (text_eq e.label label)) [
    | inr other ↦
        let (d, found) = includes-declared sig label name (rw other at h) in
        absurd (cc (found, no_later))
    | inl same ↦ elim (Bool-cases (text_eq e.operation name)) [
      | inl named ↦ (e, rw (no_later, same, named))
      | inr unnamed ↦
          let (d, found) = includes-declared sig label name (rw (same, unnamed) at h) in
          absurd (cc (found, no_later))
    ]
  ]
]

pub names-AreDeclared :
    (sig : OperationSignature) (label : Text) (names : List Text)
    → ((name : Text)
        → includes names name ≡ true
        → (d : OperationDeclaration) × (operations_get sig label name ≡ some d))
    → AreDeclared sig label names
unfolding includes
names-AreDeclared sig label [] h = tt
names-AreDeclared sig label (name ∷ names) h = (
  h name (rw (text_eq_refl name) refl),
  names-AreDeclared sig label names (λ other m. h other (or-right _ _ m)),
)

pub sorted-AreDeclared :
    (sig : OperationSignature) (label : Text) (operations : List Text)
    → sort_texts operations ≡ expected_operations sig label
    → AreDeclared sig label operations
unfolding sort_texts expected_operations
sorted-AreDeclared sig label operations sorted = names-AreDeclared sig label operations (λ name m.
    includes-declared sig label name (
      sym (includes-sort_by code_unit_le _ name)
      ∙ ap (λ xs. includes xs name) (sym sorted)
      ∙ includes-sort_by code_unit_le operations name
      ∙ m))

pub require_clauses-External :
    (sig : OperationSignature) (label : Text) (operations : List Text) (path : TermPath)
    → External (λ _. AreDeclared sig label operations) (require_clauses sig label operations path)
unfolding require_clauses
require_clauses-External sig label operations path = require-External _ _ _ _ refl ⊳ λ _ _.
    weaken_to (λ _ e. sorted-AreDeclared sig label operations (effect_rows_equal→eq _ _ e))
      (require-External _ _ _ _ refl)

-- ===== src/Kernel/Checker/Parts.antt =====
-- src/kernel-calculus/checker.ts: what the methods of `AlgorithmicChecker` share: contexts, checked
-- terms, the tests that fail with a diagnostic, and the two loops of `handler`.
use semantic_systems.Base.{
  ℕ, zero, suc, Bool, true, false, ◌&&◌, List, [], ◌∷◌, Option, none, some, String, tail,
  if◌then◌else◌,
}
use semantic_systems.Kernel.Grade.{Grade, Usage, grade_le, grade_eq, add_usage}
use semantic_systems.Kernel.Row.{EffectRow, union_effect_rows, effect_rows_equal}
use semantic_systems.Kernel.Types.{ValueType, ComputationType}
use semantic_systems.Kernel.Term.{ValueTerm, ComputationTerm, Clauses}
use semantic_systems.Kernel.Diagnostic.{TermPath, Result, ok, ◌>>=◌, fail}

-- What `context` holds of a binder that a judgment depends on.
abbrev pub Context : Type 0
Context = List ValueType

pub record ResumptionExpectation : Type 0 where
  pub input : ValueType
  pub output : ComputationType
  pub effects : EffectRow

abbrev pub Resumptions : Type 0
Resumptions = List ResumptionExpectation

pub record CheckedValue : Type 0 where
  pub term : ValueTerm ValueType
  pub type : ValueType
  pub usage : Usage
  pub resumption_usage : Usage

pub record CheckedComputation : Type 0 where
  pub term : ComputationTerm ValueType
  pub type : ComputationType
  pub effects : EffectRow
  pub usage : Usage
  pub resumption_usage : Usage

pub record CheckedClauses : Type 0 where
  pub terms : Clauses ValueType
  pub clauses : List CheckedComputation

-- `addUsage`, whose `RangeError` the function `check` turns into this diagnostic.
unfoldable pub added : Usage → Usage → Result Usage
added left right = elim (add_usage left right) [
  | some usage ↦ ok usage
  | none ↦ fail "checker.invalid-input" "checker.boundary" []
]

-- `usage[0]`.
abbrev pub binder_use : Usage → Option Grade
binder_use [] = none
binder_use (g ∷ usage) = some g

-- `gradeLessThanOrEqual(usage[0], limit)`, or the failure.
unfoldable pub within_grade : Option Grade → Grade → String → TermPath → Result (Unit {0})
within_grade none limit rule path = fail "usage.exceeds-grade" rule path
within_grade (some actual) limit rule path =
    if grade_le actual limit
    then ok tt
    else fail
        (if grade_eq limit Grade.once && grade_eq actual Grade.omega
          then "usage.affine-duplicated"
          else "usage.exceeds-grade")
        rule path

-- A failure unless the type is `F[q] A`.
unfoldable pub expect_return : ComputationType → String → TermPath → Result (Grade × ValueType)
expect_return (ComputationType.return g a) rule path = ok (g, a)
expect_return (ComputationType.function a g e c) rule path = fail "type.expected-return" rule path

unfoldable pub expect_thunk : ValueType → TermPath → Result (EffectRow × ComputationType)
expect_thunk (ValueType.thunk e c) path = ok (e, c)
expect_thunk _ path = fail "type.expected-thunk" "computation.force" path

pub record FunctionParts : Type 0 where
  pub parameter : ValueType
  pub grade : Grade
  pub effects : EffectRow
  pub result : ComputationType

unfoldable pub expect_function : ComputationType → TermPath → Result FunctionParts
expect_function (ComputationType.function a g e c) path =
    ok (record { parameter = a; grade = g; effects = e; result = c })
expect_function (ComputationType.return g a) path =
    fail "type.expected-function" "computation.apply" path

-- A failure with the code unless the test holds.
unfoldable pub require : Bool → String → String → TermPath → Result (Unit {0})
require true code rule path = ok tt
require false code rule path = fail code rule path

-- A failure with the code unless there is a value.
unfoldable pub present {ℓ} : {A : Type ℓ} → Option A → String → String → TermPath → Result A
present (some a) code rule path = ok a
present none code rule path = fail code rule path

-- One round over the clauses, or a failure.
abbrev pub Round : Type 0
Round = EffectRow → Result CheckedClauses

abbrev pub effects_of : List CheckedComputation → List EffectRow
effects_of [] = []
effects_of (c ∷ cs) = c.effects ∷ effects_of cs

-- The loop over `assumedEffects`, with the rounds that are left.
unfoldable pub settle :
    ℕ
    → Round
    → EffectRow
    → EffectRow
    → EffectRow
    → CheckedClauses
    → Result (EffectRow × CheckedClauses)
settle zero round residual returned assumed last = ok (assumed, last)
settle (suc n) round residual returned assumed last = do
  checked ← round assumed
  let next = union_effect_rows (residual ∷ returned ∷ effects_of checked.clauses)
  let rest = settle n round residual returned next checked
  if effect_rows_equal next assumed then ok (assumed, checked) else rest

-- The loop that adds the usage of the clauses up.
unfoldable pub add_clauses : Usage → Usage → List CheckedComputation → Result (Usage × Usage)
add_clauses usage resumption_usage [] = ok (usage, resumption_usage)
add_clauses usage resumption_usage (clause ∷ clauses) = do
  usage' ← added usage (tail clause.usage)
  resumption_usage' ← added resumption_usage (tail clause.resumption_usage)
  add_clauses usage' resumption_usage' clauses

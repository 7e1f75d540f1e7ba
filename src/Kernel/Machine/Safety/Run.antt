-- ===== src/Kernel/Machine/Safety/Run.antt =====
-- Type safety of `runMachine` and `evaluate`.
use semantic_systems.Base.{ℕ, zero, suc, ◌≡◌, refl, [], some, length, leb, Bool-cases, inl, inr}
use semantic_systems.Kernel.Types.{ComputationType}
use semantic_systems.Kernel.Term.{ComputationTerm, OperationSignature}
use semantic_systems.Kernel.Term.Clone.{operation_signature}
use semantic_systems.Kernel.Diagnostic.{ok}
use semantic_systems.Kernel.Checker.{Accepted, check}
use semantic_systems.Kernel.Checker.Sound.{check-ComputationTyping}
use semantic_systems.Kernel.Machine.{
  Machine, Outcome, transition, Trace, EvaluationBounds, EvaluationResult, bound_of, run_loop,
  run_within, run_machine, initial_machine, evaluate,
}
use semantic_systems.Kernel.Machine.Typing.{
  EnvironmentTyping, ValuesTyping, TokensTyping, StackTyping, ResultTyping, ControlTyping,
  MachineTyping, SuspensionTyping, IsSafe,
}
use semantic_systems.Kernel.Machine.Safety.{transition-IsSafe}

-- What an evaluation of a program of the type `d` may give: a result of the type, a typed
-- request, a typed machine that ran out of a bound, or the rejection of a second use of a token.
abbrev pub IsSafeResult : OperationSignature → ComputationType → EvaluationResult → Type 0
IsSafeResult sig d (EvaluationResult.returned r trace) = ResultTyping sig r d
IsSafeResult sig d (EvaluationResult.suspended request token trace) =
    SuspensionTyping sig request token d
IsSafeResult sig d (EvaluationResult.exhausted reason machine trace) = MachineTyping sig machine d
IsSafeResult sig d (EvaluationResult.runtime_rejected diagnostic trace) =
    diagnostic.code ≡ "resumption.already-used"

module _ {sig : OperationSignature} {d : ComputationType} where
  outcome-IsSafeResult :
      (o : Outcome) (trace : Trace) (rest : Machine → EvaluationResult)
      → IsSafe sig d o
      → ((m : Machine) → MachineTyping sig m d → IsSafeResult sig d (rest m))
      → IsSafeResult sig d (elim o [
        | Outcome.next machine' ↦ rest machine'
        | Outcome.returned r ↦ EvaluationResult.returned r trace
        | Outcome.suspended request token ↦ EvaluationResult.suspended request token trace
        | Outcome.rejected diagnostic ↦ EvaluationResult.runtime_rejected diagnostic trace
      ])
  outcome-IsSafeResult (Outcome.next m) trace rest h k = k m h
  outcome-IsSafeResult (Outcome.returned r) trace rest h k = h
  outcome-IsSafeResult (Outcome.suspended q t) trace rest h k = h
  outcome-IsSafeResult (Outcome.rejected e) trace rest h k = h

  pub run_loop-IsSafeResult :
      (fuel maximum : ℕ) (machine : Machine) (trace : Trace)
      → MachineTyping sig machine d
      → IsSafeResult sig d (run_loop fuel maximum machine trace)
  unfolding run_loop
  run_loop-IsSafeResult zero maximum machine trace typed = typed
  run_loop-IsSafeResult (suc fuel) maximum machine trace typed =
      elim (Bool-cases (leb maximum (length trace))) [
        | inl full ↦ rw full typed
        | inr room ↦ rw room (
            outcome-IsSafeResult (transition machine).outcome _ _ (transition-IsSafe machine typed)
              (λ m h. run_loop-IsSafeResult fuel maximum m _ h))
      ]

-- The machine that an accepted program starts in is typed.
pub initial_machine-MachineTyping :
    (signature : OperationSignature) (term : ComputationTerm (Unit {0})) (program : Accepted)
    → check signature term ≡ ok program
    → MachineTyping (operation_signature signature) (initial_machine program) program.type
unfolding initial_machine
initial_machine-MachineTyping signature term program accepted =
    let (same, valid, typed) = check-ComputationTyping signature term program accepted in
    record {
      same_signature = same;
      type = program.type;
      control =
          ControlTyping.term
            (EnvironmentTyping.environment ValuesTyping.values_end TokensTyping.tokens_end) typed;
      stack = StackTyping.frames_end refl;
    }

-- A program that `check` accepts evaluates safely under valid bounds: whatever the evaluation
-- gives is typed at the checked type, and a rejection is only that of a second use of a token.
pub evaluate-IsSafeResult :
    (signature : OperationSignature) (term : ComputationTerm (Unit {0})) (program : Accepted)
    (bounds : EvaluationBounds) (fuel maximum : ℕ)
    → check signature term ≡ ok program
    → bound_of bounds.fuel ≡ some fuel
    → bound_of bounds.maximum_trace_entries ≡ some (suc maximum)
    → IsSafeResult (operation_signature signature) program.type (evaluate program bounds)
unfolding evaluate run_machine run_within
evaluate-IsSafeResult signature term program bounds fuel maximum accepted hf hm =
    rw (hf, hm)
      (run_loop-IsSafeResult fuel (suc maximum) (initial_machine program) []
        (initial_machine-MachineTyping signature term program accepted))

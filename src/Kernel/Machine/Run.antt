-- ===== src/Kernel/Machine/Run.antt =====
-- src/kernel-calculus/machine.ts: `runMachine` and `evaluate`.
use semantic_systems.Base.{
  ℕ, zero, suc, String, List, [], ◌∷◌, ◌++◌, Option, none, some, leb, length, if◌then◌else◌,
}
use semantic_systems.Kernel.Row.{Text}
use semantic_systems.Kernel.Term.{Number, is_safe_integer}
use semantic_systems.Kernel.Diagnostic.{Segment, TermPath, Diagnostic}
use semantic_systems.Kernel.Checker.{Accepted}
use semantic_systems.Kernel.Machine.State.{
  Environment, Values, Tokens, Frames, RuntimeResult, Control, Machine,
}
use semantic_systems.Kernel.Machine.Step.{
  OperationRequest, ExternalSuspension, Outcome, Transition, transition,
}

pub record EvaluationBounds : Type 0 where
  pub fuel : Number
  pub maximum_trace_entries : Number

pub record MachineTraceEntry : Type 0 where
  pub step : ℕ
  pub rule : String
  pub path : TermPath
  pub operation : Option (Text × Text)
  pub resumption : Option ℕ

abbrev pub Trace : Type 0
Trace = List MachineTraceEntry

pub data ExhaustionReason : Type 0 where
  out_of_fuel out_of_trace : ExhaustionReason

-- The snapshot of an exhausted machine is the machine, which the source prints as text; the trace
-- of a suspension's state is the trace of the result.
pub data EvaluationResult : Type 0 where
  returned : RuntimeResult → Trace → EvaluationResult
  suspended : OperationRequest → ExternalSuspension → Trace → EvaluationResult
  exhausted : ExhaustionReason → Machine → Trace → EvaluationResult
  runtime_rejected : Diagnostic → Trace → EvaluationResult

unfoldable pub entry_of : Transition → ℕ → MachineTraceEntry
entry_of t step = record {
  step = step;
  rule = t.rule;
  path = t.path;
  operation = t.operation;
  resumption = t.resumption;
}

-- The loop of `runMachine`, with the fuel that is left and the bound on the trace.
unfoldable pub run_loop : ℕ → ℕ → Machine → Trace → EvaluationResult
run_loop zero maximum machine trace =
    EvaluationResult.exhausted ExhaustionReason.out_of_fuel machine trace
run_loop (suc fuel) maximum machine trace =
    let t = transition machine in
    let trace' = trace ++ entry_of t (length trace) ∷ [] in
    let rest : EvaluationResult = elim t.outcome [
      | Outcome.next machine' ↦ run_loop fuel maximum machine' trace'
      | Outcome.returned r ↦ EvaluationResult.returned r trace'
      | Outcome.suspended request token ↦ EvaluationResult.suspended request token trace'
      | Outcome.rejected diagnostic ↦ EvaluationResult.runtime_rejected diagnostic trace'
    ] in
    if leb maximum (length trace)
    then EvaluationResult.exhausted ExhaustionReason.out_of_trace machine trace
    else rest

-- A safe integer that is not negative.
unfoldable pub bound_of : Number → Option ℕ
bound_of (Number.pos n) = if is_safe_integer (Number.pos n) then some n else none
bound_of _ = none

unfoldable pub bounds_diagnostic : String → Segment → Diagnostic
bounds_diagnostic code field = record {
  code = code;
  rule = "machine.bounds";
  path = field ∷ Segment.bounds ∷ [];
}

-- `validateBounds`, and the loop.
unfoldable pub run_within : Option ℕ → Option ℕ → Machine → Trace → EvaluationResult
run_within none maximum machine trace =
    EvaluationResult.runtime_rejected (bounds_diagnostic "bounds.invalid-fuel" Segment.fuel) trace
run_within (some fuel) (some (suc maximum)) machine trace =
    run_loop fuel (suc maximum) machine trace
run_within (some fuel) _ machine trace =
    EvaluationResult.runtime_rejected
      (bounds_diagnostic "bounds.invalid-trace" Segment.maximum_trace_entries) trace

unfoldable pub run_machine : Machine → EvaluationBounds → Trace → EvaluationResult
unfolding run_within
run_machine machine bounds trace =
    run_within (bound_of bounds.fuel) (bound_of bounds.maximum_trace_entries) machine trace

unfoldable pub initial_machine : Accepted → Machine
initial_machine program = record {
  control =
      Control.term program.term (Environment.environment Values.values_end Tokens.tokens_end) [];
  frames = Frames.frames_end;
  signature = program.signature;
  live = [];
  next_identity = 1;
}

-- `evaluate` on a program in custody.
unfoldable pub evaluate : Accepted → EvaluationBounds → EvaluationResult
unfolding run_machine initial_machine
evaluate program bounds = run_machine (initial_machine program) bounds []

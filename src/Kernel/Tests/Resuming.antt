-- ===== src/Kernel/Tests/Resuming.antt =====
-- A suspended run of src/kernel-calculus/machine.ts, and the theorems on `resume` at it.
use semantic_systems.Base.{◌≡◌, refl, [], ◌∷◌, none, some, find}
use semantic_systems.Kernel.Grade.{Grade}
use semantic_systems.Kernel.Row.{text_eq}
use semantic_systems.Kernel.Types.{ValueType, value_types_equal}
use semantic_systems.Kernel.Term.{Number, ValueTerm, ComputationTerm, is_safe_integer}
use semantic_systems.Kernel.Term.Clone.{operation_signature}
use semantic_systems.Kernel.Diagnostic.{Segment}
use semantic_systems.Kernel.Signature.{declares, operation_declaration}
use semantic_systems.Kernel.Typing.{find_clause}
use semantic_systems.Kernel.Machine.{
  RuntimeValue, Environment, Values, Tokens, Frame, Frames, RuntimeResult, Control,
  EvaluationResult, append_frames, get_value, get_token, pair_values, make_thunk, evaluate_value,
  runtime_value_has_type, push_captured, find_handler, is_live, consume, enter_function, return_to,
  result_step, return_step, force_step, suspend, enter_clause, perform, operation_step, use_token,
  resume_step, term_step, step_control, transition, entry_of, run_loop, bound_of, bounds_diagnostic,
  run_within, run_machine, initial_machine, evaluate,
}
use semantic_systems.Kernel.Machine.Safety.Run.{IsSafeResult, evaluate-IsSafeResult}
use semantic_systems.Kernel.Machine.Resume.{
  ExternalSuspensionState, Host, admit, inspect_value, owned_value, owned_value_has_type,
  apply_token, resume_state, resume_known, resume, start,
}
use semantic_systems.Kernel.Machine.Resume.Laws.{
  SuspensionMachine, resume-resume, resume-IsSafeResult,
}
use semantic_systems.Kernel.Checker.{Accepted}
use semantic_systems.Kernel.Machine.Bounds.{trace_of}
use semantic_systems.Kernel.Machine.OneShot.{IsOneShot}
use semantic_systems.Kernel.Machine.OneShot.Run.{IsReached, no_suspensions, start-resume-IsOneShot}
use semantic_systems.Kernel.Tests.Running.{value_of}
use semantic_systems.Kernel.Tests.Programs.{
  answered, twice_program, state_label, get_operation, state_signature, ask, ask_program, bounds,
  int_result,
}
use semantic_systems.Kernel.Tests.Checking.{check-ask}

-- The machine after the request, and the trace of its two steps.
abbrev state : ExternalSuspensionState
state = record {
  token = record {
    id = 1;
    result_type = ValueType.int;
    machine = record {
      control = Control.result (RuntimeResult.value RuntimeValue.unit) (Segment.bound ∷ []);
      frames =
          Frames.frame
            (Frame.let_frame (ComputationTerm.return Grade.once (ValueTerm.variable 0))
              (Environment.environment Values.values_end Tokens.tokens_end) [])
            Frames.frames_end;
      signature = state_signature;
      live = [];
      next_identity = 2;
    };
  };
  trace =
      record { step = 0; rule = "computation.let"; path = []; operation = none; resumption = none }
      ∷ record {
        step = 1;
        rule = "operation.suspend";
        path = Segment.bound ∷ [];
        operation = some (state_label, get_operation);
        resumption = some 1;
      }
      ∷ [];
}

abbrev host : Host
host = record { suspensions = state ∷ []; live = 0 ∷ [] }

abbrev seven : RuntimeValue
seven = RuntimeValue.int (Number.pos 7)

start_suspends : (start no_suspensions ask_program bounds).0 ≡ host
unfolding start admit append_frames get_value get_token pair_values make_thunk evaluate_value
    runtime_value_has_type push_captured find_handler is_live consume enter_function return_to
    result_step return_step force_step suspend enter_clause perform operation_step use_token
    resume_step term_step step_control transition entry_of run_loop bound_of bounds_diagnostic
    run_within run_machine initial_machine evaluate text_eq find_clause operation_declaration
    declares find is_safe_integer value_types_equal
start_suspends = refl

ask_suspends :
    IsSafeResult (operation_signature state_signature) int_result (evaluate ask_program bounds)
unfolding bound_of is_safe_integer
ask_suspends =
    evaluate-IsSafeResult state_signature ask ask_program bounds 20 19 check-ask refl refl

state-SuspensionMachine :
    SuspensionMachine (operation_signature state_signature) int_result state.token
unfolding append_frames get_value get_token pair_values make_thunk evaluate_value
    runtime_value_has_type push_captured find_handler is_live consume enter_function return_to
    result_step return_step force_step suspend enter_clause perform operation_step use_token
    resume_step term_step step_control transition entry_of run_loop bound_of bounds_diagnostic
    run_within run_machine initial_machine evaluate text_eq find_clause operation_declaration
    declares find is_safe_integer value_types_equal
state-SuspensionMachine = ask_suspends.goes_on

accepted_seven : owned_value_has_type (owned_value seven) state.token.result_type ≡ some seven
unfolding owned_value_has_type owned_value inspect_value runtime_value_has_type is_safe_integer
accepted_seven = refl

resume-IsSafeResult_example :
    IsSafeResult (operation_signature state_signature) int_result (resume host 0 seven bounds).1
unfolding bound_of is_safe_integer is_live
resume-IsSafeResult_example =
    resume-IsSafeResult (operation_signature state_signature) int_result host 0 seven seven bounds
      20 19 state refl state-SuspensionMachine tt accepted_seven refl refl refl

resume-resume_example : resume (resume host 0 seven bounds).0 0 seven bounds ≡ (
  (resume host 0 seven bounds).0,
  EvaluationResult.runtime_rejected
      (record { code = "resumption.already-used"; rule = "machine.external-resume"; path = [] })
      state.trace,
)
resume-resume_example =
    resume-resume host 0 seven seven seven seven bounds bounds state refl accepted_seven
      accepted_seven

-- A request that no handler takes, and then one that a handler answers through a token.
abbrev asking_program : Accepted
asking_program = record {
  type = int_result;
  effects = state_label ∷ [];
  usage = [];
  signature = state_signature;
  term =
      ComputationTerm.let_in
        (ComputationTerm.operation Grade.once state_label get_operation ValueTerm.unit) answered;
}

abbrev asking_host : Host
asking_host = (start no_suspensions asking_program bounds).0

asking_resumes : value_of (resume asking_host 0 seven bounds).1 ≡ some seven
unfolding start admit append_frames get_value get_token pair_values make_thunk evaluate_value
    runtime_value_has_type push_captured find_handler is_live consume enter_function return_to
    result_step return_step force_step suspend enter_clause perform operation_step use_token
    resume_step term_step step_control transition entry_of run_loop bound_of bounds_diagnostic
    run_within run_machine initial_machine evaluate text_eq find_clause operation_declaration
    declares find is_safe_integer value_types_equal resume resume_known resume_state apply_token
    owned_value_has_type owned_value inspect_value
asking_resumes = refl

start-resume-IsOneShot_example :
    IsOneShot (trace_of (start asking_host twice_program bounds).1)
    × IsOneShot (trace_of (resume asking_host 0 seven bounds).1)
start-resume-IsOneShot_example =
    start-resume-IsOneShot asking_host twice_program 0 seven bounds
      (IsReached.started asking_program bounds IsReached.nothing) tt

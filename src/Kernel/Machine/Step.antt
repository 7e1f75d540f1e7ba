-- ===== src/Kernel/Machine/Step.antt =====
-- src/kernel-calculus/machine.ts: `transition`, one step of the machine.
use semantic_systems.Base.{ℕ, ◌+◌, String, ◌∷◌, Option, none, some, if◌then◌else◌}
use semantic_systems.Kernel.Row.{Text}
use semantic_systems.Kernel.Types.{ValueType}
use semantic_systems.Kernel.Term.{ComputationTerm, OperationDeclaration}
use semantic_systems.Kernel.Diagnostic.{Segment, TermPath, Diagnostic}
use semantic_systems.Kernel.Signature.{operation_declaration}
use semantic_systems.Kernel.Typing.{find_clause}
use semantic_systems.Kernel.Machine.State.{
  RuntimeValue, Environment, InternalResumption, HandlerFrame, Frame, Frames, RuntimeResult,
  Control, Machine, append_frames, get_token, bind_value, bind_token, evaluate_value,
  runtime_value_has_type, Split, handler_clauses, handler_environment, handler_path, find_handler,
  is_live, consume,
}

pub record OperationRequest : Type 0 where
  pub label : Text
  pub operation : Text
  pub argument : RuntimeValue
  pub result_type : ValueType

-- The machine that an external suspension holds.
pub record ExternalSuspension : Type 0 where
  pub id : ℕ
  pub result_type : ValueType
  pub machine : Machine

pub data Outcome : Type 0 where
  next : Machine → Outcome
  returned : RuntimeResult → Outcome
  suspended : OperationRequest → ExternalSuspension → Outcome
  rejected : Diagnostic → Outcome

pub record Transition : Type 0 where
  pub outcome : Outcome
  pub rule : String
  pub path : TermPath
  pub operation : Option (Text × Text)
  pub resumption : Option ℕ

abbrev pub moves : Machine → String → TermPath → Transition
moves machine rule path = record {
  outcome = Outcome.next machine;
  rule = rule;
  path = path;
  operation = none;
  resumption = none;
}

abbrev pub rejects : String → String → TermPath → Option ℕ → Transition
rejects code rule path resumption = record {
  outcome = Outcome.rejected (record { code = code; rule = rule; path = path });
  rule = "runtime.reject";
  path = path;
  operation = none;
  resumption = resumption;
}

-- A bound function body entered with its argument, if that could be evaluated.
unfoldable pub enter_function :
    Option RuntimeValue
    → ComputationTerm ValueType
    → Environment
    → TermPath
    → Frames
    → Machine
    → Transition
enter_function none body env path outer machine =
    rejects "runtime.invalid-closure" "machine.apply" path none
enter_function (some argument) body env path outer machine =
    moves
      (record machine {
        control = Control.term body (bind_value argument env) (Segment.body ∷ path);
        frames = outer;
      })
      "machine.apply-bind" path

-- A result meets the top frame; `outer` is the stack below it.
unfoldable pub return_to : Frame → RuntimeResult → Frames → Machine → Transition
unfolding enter_function
return_to (Frame.let_frame body env path) (RuntimeResult.function m e) outer machine =
    rejects "runtime.expected-value" "machine.let" path none
return_to (Frame.let_frame body env path) (RuntimeResult.value v) outer machine =
    moves
      (record machine {
        control = Control.term body (bind_value v env) (Segment.body ∷ path);
        frames = outer;
      })
      "machine.let-bind" path
return_to (Frame.apply_frame argument env path) (RuntimeResult.value v) outer machine =
    rejects "runtime.expected-function" "machine.apply" path none
return_to (Frame.apply_frame argument env path) (RuntimeResult.function m e) outer machine =
    enter_function (evaluate_value argument env) m e path outer machine
return_to (Frame.handler_frame (HandlerFrame.handler label r clauses env path))
      (RuntimeResult.function m e) outer machine =
    rejects "runtime.expected-value" "machine.handler-return" path none
return_to (Frame.handler_frame (HandlerFrame.handler label r clauses env path))
      (RuntimeResult.value v) outer machine =
    moves
      (record machine {
        control = Control.term r (bind_value v env) (Segment.return_clause_body ∷ path);
        frames = outer;
      })
      "handler.return" path

-- The result case of `transition`.
unfoldable pub result_step : RuntimeResult → TermPath → Frames → Machine → Transition
unfolding return_to
result_step r path Frames.frames_end machine = record {
  outcome = Outcome.returned r;
  rule = "machine.return";
  path = path;
  operation = none;
  resumption = none;
}
result_step r path (Frames.frame f outer) machine = return_to f r outer machine

unfoldable pub return_step : Option RuntimeValue → TermPath → Machine → Transition
return_step none path machine = rejects "runtime.invalid-value" "machine.return" path none
return_step (some v) path machine =
    moves (record machine { control = Control.result (RuntimeResult.value v) path })
      "computation.return" path

unfoldable pub force_step : Option RuntimeValue → TermPath → Machine → Transition
force_step (some (RuntimeValue.thunk body env effects type)) path machine =
    moves (record machine { control = Control.term body env (Segment.thunk ∷ path) })
      "computation.force" path
force_step _ path machine = rejects "runtime.expected-thunk" "machine.force" path none

-- The operation has no handler: the machine stops with a request to the outside.
unfoldable pub suspend :
    Text → Text → RuntimeValue → OperationDeclaration → TermPath → Machine → Transition
suspend label name argument declaration path machine = record {
  outcome =
      Outcome.suspended
        (record {
          label = label;
          operation = name;
          argument = argument;
          result_type = declaration.result_type;
        })
        (record {
          id = machine.next_identity;
          result_type = declaration.result_type;
          machine = record machine {
            control = Control.result (RuntimeResult.value RuntimeValue.unit) path;
            next_identity = machine.next_identity + 1;
          };
        });
  rule = "operation.suspend";
  path = path;
  operation = some (label, name);
  resumption = some machine.next_identity;
}

-- The clause for the operation runs with the argument and a fresh token.
unfoldable pub enter_clause :
    Option (ComputationTerm ValueType)
    → Split
    → Text
    → Text
    → RuntimeValue
    → OperationDeclaration
    → TermPath
    → Machine
    → Transition
enter_clause none split label name argument declaration path machine =
    rejects "runtime.missing-handler-clause" "machine.operation" path none
enter_clause (some body) split label name argument declaration path machine = record {
  outcome = Outcome.next (record machine {
    control =
        Control.term body
          (bind_token
            (InternalResumption.resumption machine.next_identity declaration.result_type
              split.handler split.captured)
            (bind_value argument (handler_environment split.handler)))
          (Segment.operation_clause name ∷ handler_path split.handler);
    frames = split.outer;
    live = machine.next_identity ∷ machine.live;
    next_identity = machine.next_identity + 1;
  });
  rule = "operation.handle";
  path = path;
  operation = some (label, name);
  resumption = some machine.next_identity;
}

unfoldable pub perform :
    Option Split
    → Text
    → Text
    → RuntimeValue
    → OperationDeclaration
    → TermPath
    → Machine
    → Transition
unfolding suspend enter_clause
perform none label name argument declaration path machine =
    suspend label name argument declaration path machine
perform (some split) label name argument declaration path machine =
    enter_clause (find_clause name (handler_clauses split.handler)) split label name argument
      declaration path machine

unfoldable pub operation_step :
    Option RuntimeValue
    → Option OperationDeclaration
    → Text
    → Text
    → TermPath
    → Machine
    → Transition
unfolding perform
operation_step (some argument) (some declaration) label name path machine =
    perform (find_handler label machine.frames) label name argument declaration path machine
operation_step _ _ label name path machine =
    rejects "runtime.invalid-operation" "machine.operation" path none

-- The one use of a live token: its handler and its captured frames go back on the stack.
unfoldable pub use_token : InternalResumption → RuntimeValue → TermPath → Machine → Transition
use_token (InternalResumption.resumption id expected h captured) v path machine =
    if runtime_value_has_type v expected
    then if is_live id machine.live
      then record {
        outcome = Outcome.next (record machine {
          control = Control.result (RuntimeResult.value v) path;
          frames = append_frames captured (Frames.frame (Frame.handler_frame h) machine.frames);
          live = consume id machine.live;
        });
        rule = "resumption.consume";
        path = path;
        operation = none;
        resumption = some id;
      }
      else rejects "resumption.already-used" "machine.resume" path (some id)
    else rejects "resumption.result-type-mismatch" "machine.resume" path (some id)

unfoldable pub resume_step :
    Option InternalResumption → Option RuntimeValue → TermPath → Machine → Transition
unfolding use_token
resume_step (some t) (some v) path machine = use_token t v path machine
resume_step _ _ path machine = rejects "runtime.invalid-resumption" "machine.resume" path none

-- The term case of `transition`.
unfoldable pub term_step : ComputationTerm ValueType → Environment → TermPath → Machine → Transition
unfolding return_step force_step operation_step resume_step
term_step (ComputationTerm.return grade v) env path machine =
    return_step (evaluate_value v env) path machine
term_step (ComputationTerm.let_in bound body) env path machine =
    moves
      (record machine {
        control = Control.term bound env (Segment.bound ∷ path);
        frames = Frames.frame (Frame.let_frame body env path) machine.frames;
      })
      "computation.let" path
term_step (ComputationTerm.force v) env path machine =
    force_step (evaluate_value v env) path machine
term_step (ComputationTerm.lambda type grade body) env path machine =
    moves (record machine { control = Control.result (RuntimeResult.function body env) path })
      "computation.lambda" path
term_step (ComputationTerm.apply callee argument) env path machine =
    moves
      (record machine {
        control = Control.term callee env (Segment.computation ∷ path);
        frames = Frames.frame (Frame.apply_frame argument env path) machine.frames;
      })
      "computation.apply" path
term_step (ComputationTerm.operation grade label name v) env path machine =
    operation_step (evaluate_value v env) (operation_declaration machine.signature label name) label
      name path machine
term_step (ComputationTerm.handle label handled r clauses) env path machine =
    moves
      (record machine {
        control = Control.term handled env (Segment.computation ∷ path);
        frames =
            Frames.frame (Frame.handler_frame (HandlerFrame.handler label r clauses env path))
              machine.frames;
      })
      "handler.install" path
term_step (ComputationTerm.resume index v) (Environment.environment values tokens) path machine =
    resume_step (get_token tokens index) (evaluate_value v (Environment.environment values tokens))
      path machine

unfoldable pub step_control : Control → Machine → Transition
unfolding term_step result_step
step_control (Control.term t env path) machine = term_step t env path machine
step_control (Control.result r path) machine = result_step r path machine.frames machine

unfoldable pub transition : Machine → Transition
unfolding step_control
transition machine = step_control machine.control machine

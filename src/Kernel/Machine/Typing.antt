-- ===== src/Kernel/Machine/Typing.antt =====
-- Types of runtime values, environments, tokens, stacks and machines.
use semantic_systems.Base.{ℕ, ◌≡◌, Bool, true, [], ◌∷◌, some}
use semantic_systems.Kernel.Grade.{Grade}
use semantic_systems.Kernel.Row.{Text, EffectRow}
use semantic_systems.Kernel.Types.{ValueType, ComputationType}
use semantic_systems.Kernel.Term.{
  Number, is_safe_integer, ValueTerm, ComputationTerm, Clauses, OperationDeclaration,
  OperationSignature,
}
use semantic_systems.Kernel.Diagnostic.{TermPath}
use semantic_systems.Kernel.Signature.{operation_declaration}
use semantic_systems.Kernel.Checker.{Context, Resumptions, ResumptionExpectation}
use semantic_systems.Kernel.Typing.{Covers, ValueTyping, ComputationTyping, ClausesTyping}
use semantic_systems.Kernel.Machine.{
  RuntimeValue, Environment, Values, Tokens, InternalResumption, HandlerFrame, Frame, Frames,
  RuntimeResult, Control, Machine, OperationRequest, ExternalSuspension, Outcome, control_path,
}

mutual
  pub data HasType (sig : OperationSignature) : RuntimeValue → ValueType → Type 0 where
    unit : HasType sig RuntimeValue.unit ValueType.unit
    bool : {b : Bool} → HasType sig (RuntimeValue.bool b) ValueType.bool
    int : {n : Number} → is_safe_integer n ≡ true → HasType sig (RuntimeValue.int n) ValueType.int
    pair :
        {v w : RuntimeValue} {a b : ValueType}
        → HasType sig v a
        → HasType sig w b
        → HasType sig (RuntimeValue.pair v w) (ValueType.pair a b)
    thunk :
        {Γ : Context} {R : Resumptions} {m : ComputationTerm ValueType} {env : Environment}
        {e : EffectRow} {c : ComputationType}
        → EnvironmentTyping sig env Γ R
        → ComputationTyping sig Γ R m c
        → HasType sig (RuntimeValue.thunk m env e c) (ValueType.thunk e c)

  pub data EnvironmentTyping (sig : OperationSignature)
      : Environment → Context → Resumptions → Type 0 where
    environment :
        {vs : Values} {ts : Tokens} {Γ : Context} {R : Resumptions}
        → ValuesTyping sig vs Γ
        → TokensTyping sig ts R
        → EnvironmentTyping sig (Environment.environment vs ts) Γ R

  pub data ValuesTyping (sig : OperationSignature) : Values → Context → Type 0 where
    values_end : ValuesTyping sig Values.values_end []
    value_typed :
        {v : RuntimeValue} {vs : Values} {a : ValueType} {Γ : Context}
        → HasType sig v a
        → ValuesTyping sig vs Γ
        → ValuesTyping sig (Values.value v vs) (a ∷ Γ)

  pub data TokensTyping (sig : OperationSignature) : Tokens → Resumptions → Type 0 where
    tokens_end : TokensTyping sig Tokens.tokens_end []
    token_typed :
        {t : InternalResumption} {ts : Tokens} {x : ResumptionExpectation} {R : Resumptions}
        → TokenTyping sig t x.input x.output
        → TokensTyping sig ts R
        → TokensTyping sig (Tokens.token t ts) (x ∷ R)

  -- A token takes a value of the first type, and its handler then returns at the second.
  pub data TokenTyping (sig : OperationSignature)
      : InternalResumption → ValueType → ComputationType → Type 0 where
    resumption :
        {id : ℕ} {a : ValueType} {h : HandlerFrame} {captured : Frames} {g : Grade}
        {c d : ComputationType}
        → StackTyping sig captured (ComputationType.return g a) c
        → HandlerTyping sig h c d
        → TokenTyping sig (InternalResumption.resumption id a h captured) a d

  pub data HandlerTyping (sig : OperationSignature)
      : HandlerFrame → ComputationType → ComputationType → Type 0 where
    handler :
        {label : Text} {r : ComputationTerm ValueType} {clauses : Clauses ValueType}
        {env : Environment} {path : TermPath} {Γ : Context} {R : Resumptions} {g : Grade}
        {a : ValueType} {c : ComputationType}
        → EnvironmentTyping sig env Γ R
        → ComputationTyping sig (a ∷ Γ) R r c
        → ClausesTyping sig label c Γ R clauses
        → Covers sig label clauses
        → HandlerTyping sig
            (HandlerFrame.handler label r clauses env path)
            (ComputationType.return g a)
            c

  -- The stack takes a result of the first type and returns one of the second.
  pub data StackTyping (sig : OperationSignature)
      : Frames → ComputationType → ComputationType → Type 0 where
    frames_end : {c d : ComputationType} → c ≡ d → StackTyping sig Frames.frames_end c d
    let_frame :
        {m : ComputationTerm ValueType} {env : Environment} {path : TermPath} {outer : Frames}
        {Γ : Context} {R : Resumptions} {g : Grade} {a : ValueType} {c d : ComputationType}
        → EnvironmentTyping sig env Γ R
        → ComputationTyping sig (a ∷ Γ) R m c
        → StackTyping sig outer c d
        → StackTyping sig
            (Frames.frame (Frame.let_frame m env path) outer)
            (ComputationType.return g a)
            d
    apply_frame :
        {v : ValueTerm ValueType} {env : Environment} {path : TermPath} {outer : Frames}
        {Γ : Context} {R : Resumptions} {g : Grade} {e : EffectRow} {a : ValueType}
        {c d : ComputationType}
        → EnvironmentTyping sig env Γ R
        → ValueTyping sig Γ R v a
        → StackTyping sig outer c d
        → StackTyping sig
            (Frames.frame (Frame.apply_frame v env path) outer)
            (ComputationType.function a g e c)
            d
    handler_frame :
        {h : HandlerFrame} {outer : Frames} {b c d : ComputationType}
        → HandlerTyping sig h b c
        → StackTyping sig outer c d
        → StackTyping sig (Frames.frame (Frame.handler_frame h) outer) b d

pub data ResultTyping (sig : OperationSignature) : RuntimeResult → ComputationType → Type 0 where
  value :
      {v : RuntimeValue} {g : Grade} {a : ValueType}
      → HasType sig v a
      → ResultTyping sig (RuntimeResult.value v) (ComputationType.return g a)
  function :
      {m : ComputationTerm ValueType} {env : Environment} {Γ : Context} {R : Resumptions}
      {g : Grade} {e : EffectRow} {a : ValueType} {c : ComputationType}
      → EnvironmentTyping sig env Γ R
      → ComputationTyping sig (a ∷ Γ) R m c
      → ResultTyping sig (RuntimeResult.function m env) (ComputationType.function a g e c)

pub data ControlTyping (sig : OperationSignature) : Control → ComputationType → Type 0 where
  term :
      {m : ComputationTerm ValueType} {env : Environment} {path : TermPath} {Γ : Context}
      {R : Resumptions} {c : ComputationType}
      → EnvironmentTyping sig env Γ R
      → ComputationTyping sig Γ R m c
      → ControlTyping sig (Control.term m env path) c
  result :
      {r : RuntimeResult} {path : TermPath} {c : ComputationType}
      → ResultTyping sig r c
      → ControlTyping sig (Control.result r path) c

-- The machine ends in a result of the type `d`, if it ends in one.
pub record MachineTyping (sig : OperationSignature) (machine : Machine) (d : ComputationType)
    : Type 0 where
  pub same_signature : machine.signature ≡ sig
  pub type : ComputationType
  pub control : ControlTyping sig machine.control type
  pub stack : StackTyping sig machine.frames type d

-- The machine of a suspension with a value for its result.
abbrev pub resumed_with : ExternalSuspension → RuntimeValue → Machine
resumed_with token v = record token.machine {
  control = Control.result (RuntimeResult.value v) (control_path token.machine.control);
}

-- The request is a declared operation with an argument of its type, and the machine goes on with
-- any value of the result type.
pub record SuspensionTyping (sig : OperationSignature) (request : OperationRequest)
    (token : ExternalSuspension) (d : ComputationType) : Type 0 where
  pub declaration : OperationDeclaration
  pub declared : operation_declaration sig request.label request.operation ≡ some declaration
  pub argument : HasType sig request.argument declaration.argument_type
  pub result_type : token.result_type ≡ declaration.result_type
  pub goes_on :
      (v : RuntimeValue)
      → HasType sig v token.result_type
      → MachineTyping sig (resumed_with token v) d

-- What a step of a typed machine may do: it goes on typed, returns a result of the type, suspends
-- at a typed request, or rejects a second use of a token, and nothing else.
abbrev pub IsSafe : OperationSignature → ComputationType → Outcome → Type 0
IsSafe sig d (Outcome.next machine) = MachineTyping sig machine d
IsSafe sig d (Outcome.returned r) = ResultTyping sig r d
IsSafe sig d (Outcome.suspended request token) = SuspensionTyping sig request token d
IsSafe sig d (Outcome.rejected diagnostic) = diagnostic.code ≡ "resumption.already-used"

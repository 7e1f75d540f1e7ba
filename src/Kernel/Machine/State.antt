-- ===== src/Kernel/Machine/State.antt =====
-- src/kernel-calculus/machine.ts: runtime values, frames, tokens and the machine.
-- What the source keeps in weak maps beside an object (the body and environment of a thunk or a
-- function, the state of a token) stands in the constructor. Frames are listed from the top of the
-- stack, and a token's identity is its number in `resumption-n`.
use semantic_systems.Base.{
  ℕ, zero, suc, Bool, true, false, ◌&&◌, ◌||◌, List, [], ◌∷◌, Option, none, some, ◌==◌,
  if◌then◌else◌,
}
use semantic_systems.Kernel.Row.{Text, EffectRow, text_eq}
use semantic_systems.Kernel.Types.{ValueType, ComputationType, value_types_equal}
use semantic_systems.Kernel.Term.{
  Number, is_safe_integer, ValueTerm, ComputationTerm, Clauses, OperationSignature,
}
use semantic_systems.Kernel.Diagnostic.{TermPath}

mutual
  pub data RuntimeValue : Type 0 where
    unit : RuntimeValue
    bool : Bool → RuntimeValue
    int : Number → RuntimeValue
    pair : RuntimeValue → RuntimeValue → RuntimeValue
    thunk : ComputationTerm ValueType → Environment → EffectRow → ComputationType → RuntimeValue

  pub data Environment : Type 0 where
    environment : Values → Tokens → Environment

  pub data Values : Type 0 where
    values_end : Values
    value : RuntimeValue → Values → Values

  pub data Tokens : Type 0 where
    tokens_end : Tokens
    token : InternalResumption → Tokens → Tokens

  pub data InternalResumption : Type 0 where
    resumption : ℕ → ValueType → HandlerFrame → Frames → InternalResumption

  pub data HandlerFrame : Type 0 where
    handler :
        Text → ComputationTerm ValueType → Clauses ValueType → Environment → TermPath → HandlerFrame

  pub data Frame : Type 0 where
    let_frame : ComputationTerm ValueType → Environment → TermPath → Frame
    apply_frame : ValueTerm ValueType → Environment → TermPath → Frame
    handler_frame : HandlerFrame → Frame

  pub data Frames : Type 0 where
    frames_end : Frames
    frame : Frame → Frames → Frames

pub data RuntimeResult : Type 0 where
  value : RuntimeValue → RuntimeResult
  function : ComputationTerm ValueType → Environment → RuntimeResult

pub data Control : Type 0 where
  term : ComputationTerm ValueType → Environment → TermPath → Control
  result : RuntimeResult → TermPath → Control

abbrev pub control_path : Control → TermPath
control_path (Control.term m env path) = path
control_path (Control.result r path) = path

-- `live` is the part of the set `internalLive` that a run and its resumptions have filled, by the
-- numbers of the tokens. The source has one set for all runs, by object: the two are the same to a
-- machine that holds no token of another run, and such a token comes in only when `resume` is
-- given a thunk of that run.
pub record Machine : Type 0 where
  pub control : Control
  pub frames : Frames
  pub signature : OperationSignature
  pub live : List ℕ
  pub next_identity : ℕ

-- `[...upper, ...lower]` of two stacks.
unfoldable pub append_frames : Frames → Frames → Frames
append_frames Frames.frames_end lower = lower
append_frames (Frames.frame f upper) lower = Frames.frame f (append_frames upper lower)

-- `environment.values[index]` and `environment.resumptions[index]`.
unfoldable pub get_value : Values → ℕ → Option RuntimeValue
get_value Values.values_end i = none
get_value (Values.value v vs) zero = some v
get_value (Values.value v vs) (suc i) = get_value vs i

unfoldable pub get_token : Tokens → ℕ → Option InternalResumption
get_token Tokens.tokens_end i = none
get_token (Tokens.token t ts) zero = some t
get_token (Tokens.token t ts) (suc i) = get_token ts i

-- The environment with one more value, or with one more value and one more token.
abbrev pub bind_value : RuntimeValue → Environment → Environment
bind_value v (Environment.environment values tokens) =
    Environment.environment (Values.value v values) tokens

abbrev pub bind_token : InternalResumption → Environment → Environment
bind_token t (Environment.environment values tokens) =
    Environment.environment values (Tokens.token t tokens)

unfoldable pub pair_values : Option RuntimeValue → Option RuntimeValue → Option RuntimeValue
pair_values none second = none
pair_values (some first) none = none
pair_values (some first) (some second) = some (RuntimeValue.pair first second)

-- The thunk of a term whose type in the table is a thunk type.
unfoldable pub make_thunk :
    ValueType → ComputationTerm ValueType → Environment → Option RuntimeValue
make_thunk (ValueType.thunk effects type) body env = some (RuntimeValue.thunk body env effects type)
make_thunk _ body env = none

unfoldable pub evaluate_value : ValueTerm ValueType → Environment → Option RuntimeValue
evaluate_value (ValueTerm.variable index) (Environment.environment values tokens) =
    get_value values index
evaluate_value ValueTerm.unit env = some RuntimeValue.unit
evaluate_value (ValueTerm.bool b) env = some (RuntimeValue.bool b)
evaluate_value (ValueTerm.int n) env = some (RuntimeValue.int n)
evaluate_value (ValueTerm.pair first second) env =
    pair_values (evaluate_value first env) (evaluate_value second env)
evaluate_value (ValueTerm.thunk type body) env = make_thunk type body env
evaluate_value (ValueTerm.resumption index) env = none

unfoldable pub runtime_value_has_type : RuntimeValue → ValueType → Bool
runtime_value_has_type RuntimeValue.unit ValueType.unit = true
runtime_value_has_type (RuntimeValue.bool b) ValueType.bool = true
runtime_value_has_type (RuntimeValue.int n) ValueType.int = is_safe_integer n
runtime_value_has_type (RuntimeValue.pair v w) (ValueType.pair a b) =
    runtime_value_has_type v a && runtime_value_has_type w b
runtime_value_has_type (RuntimeValue.thunk body env effects type) (ValueType.thunk e c) =
    value_types_equal (ValueType.thunk effects type) (ValueType.thunk e c)
runtime_value_has_type _ _ = false

-- The frames above the nearest handler for a label, the handler, and the frames below it.
pub record Split : Type 0 where
  pub captured : Frames
  pub handler : HandlerFrame
  pub outer : Frames

abbrev pub handler_label : HandlerFrame → Text
handler_label (HandlerFrame.handler label r clauses env path) = label

abbrev pub handler_clauses : HandlerFrame → Clauses ValueType
handler_clauses (HandlerFrame.handler label r clauses env path) = clauses

abbrev pub handler_environment : HandlerFrame → Environment
handler_environment (HandlerFrame.handler label r clauses env path) = env

abbrev pub handler_path : HandlerFrame → TermPath
handler_path (HandlerFrame.handler label r clauses env path) = path

unfoldable pub push_captured : Frame → Option Split → Option Split
push_captured f none = none
push_captured f (some s) = some (record s { captured = Frames.frame f s.captured })

unfoldable pub find_handler : Text → Frames → Option Split
find_handler label Frames.frames_end = none
find_handler label (Frames.frame (Frame.handler_frame h) outer) =
    if text_eq (handler_label h) label
    then some (record { captured = Frames.frames_end; handler = h; outer = outer })
    else push_captured (Frame.handler_frame h) (find_handler label outer)
find_handler label (Frames.frame f outer) = push_captured f (find_handler label outer)

-- The test and the removal of `consumeInternalResumption`.
unfoldable pub is_live : ℕ → List ℕ → Bool
is_live id [] = false
is_live id (other ∷ live) = other == id || is_live id live

unfoldable pub consume : ℕ → List ℕ → List ℕ
consume id [] = []
consume id (other ∷ live) = if other == id then consume id live else other ∷ consume id live

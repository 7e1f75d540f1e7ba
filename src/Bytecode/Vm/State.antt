-- ===== src/Bytecode/Vm/State.antt =====
-- src/kernel-bytecode/vm.ts: runtime values, frames, tokens and the machine.
-- Stacks are listed from their top. A `Map` of slots is an association list, newest entry first,
-- and every array or map that the source shares is copied there before it is changed. A token's
-- identity is a number; the sets of live tokens are a store of their own.
use semantic_systems.Base.{
  ℕ, suc, Bool, true, false, ◌&&◌, List, [], ◌∷◌, ◌^◌, Option, none, some, ltb, ◌==◌, if◌then◌else◌,
  get_elem?,
}
use semantic_systems.Kernel.Row.{Text, text_eq}
use semantic_systems.Kernel.Term.{Number}
use semantic_systems.Bytecode.Instruction.{
  ObservableValueType, ObservableRuntimeValue, ObservableRuntimeResult, HandlerClause, Constant,
  InstructionGraph,
}

-- A clause of a handler frame.
pub record FrameClause : Type 0 where
  pub operation : Text
  pub entry_block : ℕ
  pub argument_slot : ℕ
  pub resumption_slot : ℕ

mutual
  pub data RuntimeValue : Type 0 where
    unit : RuntimeValue
    bool : Bool → RuntimeValue
    int : Number → RuntimeValue
    pair : RuntimeValue → RuntimeValue → RuntimeValue
    thunk : ℕ → Locals → RuntimeValue

  pub data RuntimeResult : Type 0 where
    value : RuntimeValue → RuntimeResult
    function : ℕ → ℕ → Locals → RuntimeResult

  pub data RuntimeBinding : Type 0 where
    bound : RuntimeValue → RuntimeBinding
    token : InternalResumption → RuntimeBinding

  pub data Locals : Type 0 where
    locals_end : Locals
    local : ℕ → RuntimeBinding → Locals → Locals

  pub data Operands : Type 0 where
    operands_end : Operands
    operand : RuntimeResult → Operands → Operands

  pub data ReturnFrame : Type 0 where
    return_frame : ℕ → ℕ → Locals → Operands → ReturnFrame

  pub data HandlerFrame : Type 0 where
    handler_frame : Text → ℕ → ℕ → List FrameClause → Locals → Operands → HandlerFrame

  pub data Frame : Type 0 where
    return : ReturnFrame → Frame
    handler : HandlerFrame → Frame

  pub data Frames : Type 0 where
    frames_end : Frames
    frame : Frame → Frames → Frames

  pub data InternalResumption : Type 0 where
    resumption : ℕ → ObservableValueType → ReturnFrame → HandlerFrame → Frames → InternalResumption

-- The fuel of the source's machine is an argument of the loop.
pub record Machine : Type 0 where
  pub block : ℕ
  pub program_counter : ℕ
  pub locals : Locals
  pub operand_stack : Operands
  pub continuation_stack : Frames
  pub trace_entries : ℕ

-- `liveResumptions` and `liveExternalSuspensions`, and the number of the next token.
pub record Store : Type 0 where
  pub live_resumptions : List ℕ
  pub live_suspensions : List ℕ
  pub next_identity : ℕ

unfoldable pub operand_depth : Operands → ℕ
operand_depth Operands.operands_end = 0
operand_depth (Operands.operand r rest) = suc (operand_depth rest)

unfoldable pub continuation_depth : Frames → ℕ
continuation_depth Frames.frames_end = 0
continuation_depth (Frames.frame f rest) = suc (continuation_depth rest)

-- `[...lower, ...upper]` of two stacks.
unfoldable pub append_frames : Frames → Frames → Frames
append_frames Frames.frames_end lower = lower
append_frames (Frames.frame f upper) lower = Frames.frame f (append_frames upper lower)

-- `locals.get(slot)` and `locals.set(slot, binding)`.
unfoldable pub get_local : Locals → ℕ → Option RuntimeBinding
get_local Locals.locals_end slot = none
get_local (Locals.local key binding rest) slot =
    if key == slot then some binding else get_local rest slot

abbrev pub set_local : ℕ → RuntimeBinding → Locals → Locals
set_local slot binding locals = Locals.local slot binding locals

unfoldable pub observable_value : RuntimeValue → ObservableRuntimeValue
observable_value RuntimeValue.unit = ObservableRuntimeValue.unit
observable_value (RuntimeValue.bool b) = ObservableRuntimeValue.bool b
observable_value (RuntimeValue.int n) = ObservableRuntimeValue.int n
observable_value (RuntimeValue.pair first second) =
    ObservableRuntimeValue.pair (observable_value first) (observable_value second)
observable_value (RuntimeValue.thunk entry_block locals) = ObservableRuntimeValue.thunk

unfoldable pub observable_result : RuntimeResult → ObservableRuntimeResult
unfolding observable_value
observable_result (RuntimeResult.value v) = ObservableRuntimeResult.value (observable_value v)
observable_result (RuntimeResult.function entry_block parameter_slot locals) =
    ObservableRuntimeResult.function

-- The loop of `capturedLocals` with the map that it fills, and the loop on an empty map.
unfoldable pub capture_onto : Locals → List ℕ → Locals → Option Locals
unfolding get_local
capture_onto captured [] locals = some captured
capture_onto captured (slot ∷ slots) locals = elim (get_local locals slot) [
  | none ↦ none
  | some binding ↦ capture_onto (set_local slot binding captured) slots locals
]

unfoldable pub captured_locals : List ℕ → Locals → Option Locals
unfolding capture_onto
captured_locals slots locals = capture_onto Locals.locals_end slots locals

-- A slot is a safe integer that is not negative, and the constants are below 2 ^ 53.
unfoldable pub constant_at : InstructionGraph → ℕ → Option Constant
constant_at graph slot = if ltb slot (2 ^ 53) then get_elem? graph.constants slot else none

unfoldable pub text_of_constant : Option Constant → Option Text
text_of_constant (some (Constant.text_constant text)) = some text
text_of_constant _ = none

unfoldable pub text_constant_at : InstructionGraph → ℕ → Option Text
unfolding constant_at text_of_constant
text_constant_at graph slot = text_of_constant (constant_at graph slot)

unfoldable pub value_type_of_constant : Option Constant → Option ObservableValueType
value_type_of_constant (some (Constant.value_type_constant type)) = some type
value_type_of_constant _ = none

unfoldable pub value_type_constant_at : InstructionGraph → ℕ → Option ObservableValueType
unfolding constant_at value_type_of_constant
value_type_constant_at graph slot = value_type_of_constant (constant_at graph slot)

unfoldable pub runtime_value_has_type : RuntimeValue → ObservableValueType → Bool
runtime_value_has_type RuntimeValue.unit ObservableValueType.unit = true
runtime_value_has_type (RuntimeValue.bool b) ObservableValueType.bool = true
runtime_value_has_type (RuntimeValue.int n) ObservableValueType.int = true
runtime_value_has_type (RuntimeValue.pair v w) (ObservableValueType.pair a b) =
    runtime_value_has_type v a && runtime_value_has_type w b
runtime_value_has_type (RuntimeValue.thunk entry_block locals) (ObservableValueType.thunk e c) =
    true
runtime_value_has_type _ _ = false

-- The clauses of `EnterHandler` with the texts of their operations, if all are texts.
unfoldable pub text_clauses : InstructionGraph → List HandlerClause → Option (List FrameClause)
unfolding text_constant_at
text_clauses graph [] = some []
text_clauses graph (c ∷ clauses) =
    let rest = text_clauses graph clauses in
    elim (text_constant_at graph c.operation_constant_slot) [
      | none ↦ none
      | some operation ↦ elim rest [
        | none ↦ none
        | some found ↦ some (
            record {
              operation = operation;
              entry_block = c.entry_block;
              argument_slot = c.argument_slot;
              resumption_slot = c.resumption_slot;
            }
            ∷ found)
      ]
    ]

abbrev pub handler_label : HandlerFrame → Text
handler_label (HandlerFrame.handler_frame label block slot clauses locals operands) = label

abbrev pub handler_clauses : HandlerFrame → List FrameClause
handler_clauses (HandlerFrame.handler_frame label block slot clauses locals operands) = clauses

abbrev pub handler_locals : HandlerFrame → Locals
handler_locals (HandlerFrame.handler_frame label block slot clauses locals operands) = locals

-- The frames above the topmost handler for a label, the handler, and the frames below it.
pub record Split : Type 0 where
  pub captured : Frames
  pub handler : HandlerFrame
  pub outer : Frames

unfoldable pub push_captured : Frame → Option Split → Option Split
push_captured f none = none
push_captured f (some s) = some (record s { captured = Frames.frame f s.captured })

-- The search of `Request` from the top of the continuation stack.
unfoldable pub find_handler : Text → Frames → Option Split
unfolding text_eq push_captured
find_handler label Frames.frames_end = none
find_handler label (Frames.frame (Frame.handler h) outer) =
    let below = find_handler label outer in
    if text_eq (handler_label h) label
    then some (record { captured = Frames.frames_end; handler = h; outer = outer })
    else push_captured (Frame.handler h) below
find_handler label (Frames.frame (Frame.return r) outer) =
    push_captured (Frame.return r) (find_handler label outer)

-- ===== src/Bytecode/Instruction.antt =====
-- src/kernel-bytecode/instruction.ts and schema.ts: instruction graphs and bounds;
-- src/kernel-interpreter/schema.ts: the types and values that a run shows to the outside.
use semantic_systems.Base.{ℕ, Bool, List}
use semantic_systems.Kernel.Grade.{Grade}
use semantic_systems.Kernel.Row.{Text}
use semantic_systems.Kernel.Term.{Number}

mutual
  pub data ObservableValueType : Type 0 where
    unit bool int : ObservableValueType
    pair : ObservableValueType → ObservableValueType → ObservableValueType
    thunk : List Text → ObservableComputationType → ObservableValueType

  pub data ObservableComputationType : Type 0 where
    return : Grade → ObservableValueType → ObservableComputationType
    function :
        ObservableValueType
        → Grade
        → List Text
        → ObservableComputationType
        → ObservableComputationType

pub data ObservableRuntimeValue : Type 0 where
  unit thunk : ObservableRuntimeValue
  bool : Bool → ObservableRuntimeValue
  int : Number → ObservableRuntimeValue
  pair : ObservableRuntimeValue → ObservableRuntimeValue → ObservableRuntimeValue

pub data ObservableRuntimeResult : Type 0 where
  value : ObservableRuntimeValue → ObservableRuntimeResult
  function : ObservableRuntimeResult

pub record ObservableOperationRequest : Type 0 where
  pub label : Text
  pub operation : Text
  pub argument : ObservableRuntimeValue
  pub result_type : ObservableValueType

-- A clause of `EnterHandler`.
pub record HandlerClause : Type 0 where
  pub operation_constant_slot : ℕ
  pub entry_block : ℕ
  pub argument_slot : ℕ
  pub resumption_slot : ℕ

-- The constants, blocks and slots are in the order of the source's fields.
pub data Instruction : Type 0 where
  push_unit : Instruction
  push_bool push_int : ℕ → Instruction
  load_slot bind_slot : ℕ → Instruction
  make_pair : Instruction
  make_thunk : ℕ → List ℕ → Instruction
  force : Instruction
  make_function : ℕ → ℕ → List ℕ → Instruction
  call : Instruction
  enter_handler : ℕ → ℕ → ℕ → List HandlerClause → Instruction
  leave_handler : Instruction
  request : ℕ → ℕ → ℕ → Instruction
  resume_slot : ℕ → Instruction
  jump : ℕ → Instruction
  return : Instruction

-- `ObservableTypeConstant` with a value type or with a computation type.
pub data Constant : Type 0 where
  bool_constant : Bool → Constant
  int_constant : Number → Constant
  text_constant : Text → Constant
  value_type_constant : ObservableValueType → Constant
  computation_type_constant : ObservableComputationType → Constant

pub record InstructionGraph : Type 0 where
  pub entry_block : ℕ
  pub blocks : List (List Instruction)
  pub constants : List Constant

pub record KernelBytecodeBounds : Type 0 where
  pub maximum_instructions : ℕ
  pub maximum_blocks : ℕ
  pub maximum_constants : ℕ
  pub maximum_operand_stack_depth : ℕ
  pub maximum_continuation_depth : ℕ
  pub vm_fuel : ℕ
  pub maximum_trace_entries : ℕ

-- ===== src/Bytecode/Vm/Run.antt =====
-- src/kernel-bytecode/vm.ts: the loop of `runMachine`, `run` and `resume`, and the results of the
-- runtime that is made of them.
use semantic_systems.Base.{
  ℕ, zero, suc, ◌+◌, String, Bool, true, false, Option, none, some, leb, ◌==◌, if◌then◌else◌,
  get_elem?,
}
use semantic_systems.Kernel.Term.{Number}
use semantic_systems.Kernel.Machine.{is_live, consume}
use semantic_systems.Bytecode.Instruction.{Instruction, InstructionGraph, KernelBytecodeBounds}
use semantic_systems.Bytecode.Vm.State.{
  RuntimeValue, RuntimeResult, Locals, Operands, Frames, Machine, Store, operand_depth,
  runtime_value_has_type,
}
use semantic_systems.Bytecode.Vm.Step.{
  InconclusiveReason, BytecodeVmError, BytecodeExternalSuspension, InternalResult, StepResult,
  failure, execute,
}

-- `graph.blocks[block]?.instructions[counter]`.
unfoldable pub instruction_at : InstructionGraph → ℕ → ℕ → Option Instruction
instruction_at graph block counter = elim (get_elem? graph.blocks block) [
  | none ↦ none
  | some instructions ↦ get_elem? instructions counter
]

unfoldable pub inconclusive : InconclusiveReason → Store → StepResult
inconclusive reason store =
    StepResult.stop (InternalResult.failed (BytecodeVmError.vm_inconclusive reason)) store

abbrev pub advanced : Machine → Machine
advanced machine = record machine {
  program_counter = machine.program_counter + 1;
  trace_entries = machine.trace_entries + 1;
}

unfoldable pub execute_at :
    InstructionGraph → KernelBytecodeBounds → ℕ → Machine → Store → Option Instruction → StepResult
unfolding failure execute
execute_at graph bounds owner machine store none =
    failure "bytecode.vm.invalid-program-counter" store
execute_at graph bounds owner machine store (some instruction) =
    execute graph bounds owner (advanced machine) store instruction

-- One round of the loop with fuel left.
unfoldable pub step : InstructionGraph → KernelBytecodeBounds → ℕ → Machine → Store → StepResult
unfolding inconclusive instruction_at execute_at
step graph bounds owner machine store =
    if leb bounds.maximum_trace_entries machine.trace_entries
    then inconclusive InconclusiveReason.out_of_trace store
    else execute_at graph bounds owner machine store
        (instruction_at graph machine.block machine.program_counter)

-- `runMachine`: the result, and the tokens that are live then.
unfoldable pub run_machine :
    InstructionGraph → KernelBytecodeBounds → ℕ → ℕ → Machine → Store → InternalResult × Store
unfolding step
run_machine graph bounds owner zero machine store =
    (InternalResult.failed (BytecodeVmError.vm_inconclusive InconclusiveReason.out_of_fuel), store)
run_machine graph bounds owner (suc fuel) machine store =
    elim (step graph bounds owner machine store) [
      | StepResult.stop result store' ↦ (result, store')
      | StepResult.next machine' store' ↦ run_machine graph bounds owner fuel machine' store'
    ]

abbrev pub initial_machine : InstructionGraph → Machine
initial_machine graph = record {
  block = graph.entry_block;
  program_counter = 0;
  locals = Locals.locals_end;
  operand_stack = Operands.operands_end;
  continuation_stack = Frames.frames_end;
  trace_entries = 0;
}

-- `run`, which is also what `execute` of the runtime gives.
unfoldable pub run : InstructionGraph → KernelBytecodeBounds → ℕ → Store → InternalResult × Store
unfolding run_machine
run graph bounds owner store =
    run_machine graph bounds owner bounds.vm_fuel (initial_machine graph) store

-- `ExternalObservationValue`.
pub data ExternalObservationValue : Type 0 where
  unit : ExternalObservationValue
  bool : Bool → ExternalObservationValue
  int : Number → ExternalObservationValue
  pair : ExternalObservationValue → ExternalObservationValue → ExternalObservationValue

unfoldable pub runtime_observation_value : ExternalObservationValue → RuntimeValue
runtime_observation_value ExternalObservationValue.unit = RuntimeValue.unit
runtime_observation_value (ExternalObservationValue.bool b) = RuntimeValue.bool b
runtime_observation_value (ExternalObservationValue.int n) = RuntimeValue.int n
runtime_observation_value (ExternalObservationValue.pair first second) =
    RuntimeValue.pair (runtime_observation_value first) (runtime_observation_value second)

pub record Resumed : Type 0 where
  pub applied : Bool
  pub result : InternalResult
  pub store : Store

abbrev pub refused : Store → InternalResult → Resumed
refused store result = record { applied = false; result = result; store = store }

abbrev pub refused_with : String → Store → Resumed
refused_with code store = refused store (InternalResult.failed (BytecodeVmError.vm_failure code))

abbrev pub applied_with : InternalResult × Store → Resumed
applied_with (result, store) = record { applied = true; result = result; store = store }

-- The suspended machine with the value and new fuel.
abbrev pub resumed_machine : BytecodeExternalSuspension → RuntimeValue → Machine
resumed_machine token v = record token.machine {
  operand_stack = Operands.operand (RuntimeResult.value v) token.machine.operand_stack;
}

-- `resume` of a suspension that some runtime has made, by the runtime `owner`.
unfoldable pub resume :
    BytecodeExternalSuspension
    → ExternalObservationValue
    → KernelBytecodeBounds
    → ℕ
    → Store
    → Resumed
unfolding runtime_observation_value runtime_value_has_type is_live consume operand_depth run_machine
resume token observation bounds owner store =
    let v = runtime_observation_value observation in
    if token.owner == owner
    then if runtime_value_has_type v token.result_type
      then if is_live token.identity store.live_suspensions
        then if leb bounds.maximum_operand_stack_depth (operand_depth token.machine.operand_stack)
          then refused_with "bytecode.vm.operand-stack-exceeded" store
          else applied_with (
              run_machine token.graph bounds owner bounds.vm_fuel (resumed_machine token v)
                (record store { live_suspensions = consume token.identity store.live_suspensions }))
        else refused_with "bytecode.vm.external-resumption-already-used" store
      else refused_with "bytecode.vm.external-resumption-result-type-mismatch" store
    else refused_with "bytecode.vm.external-resumption-not-custodied" store

-- ===== src/Bytecode/Vm/Step.antt =====
-- src/kernel-bytecode/vm.ts: the instructions in the loop of `runMachine`.
use semantic_systems.Base.{ℕ, ◌+◌, String, List, ◌∷◌, Option, none, some, leb, if◌then◌else◌, find}
use semantic_systems.Kernel.Row.{Text, text_eq}
use semantic_systems.Kernel.Machine.{is_live, consume}
use semantic_systems.Bytecode.Instruction.{
  ObservableValueType, ObservableRuntimeResult, ObservableOperationRequest, Instruction, Constant,
  InstructionGraph, KernelBytecodeBounds,
}
use semantic_systems.Bytecode.Vm.State.{
  FrameClause, RuntimeValue, RuntimeResult, RuntimeBinding, Locals, Operands, ReturnFrame,
  HandlerFrame, Frame, Frames, InternalResumption, Machine, Store, operand_depth,
  continuation_depth, append_frames, get_local, set_local, observable_value, observable_result,
  captured_locals, constant_at, text_constant_at, value_type_constant_at, runtime_value_has_type,
  text_clauses, handler_clauses, handler_locals, Split, find_handler,
}

pub data InconclusiveReason : Type 0 where
  out_of_fuel out_of_trace : InconclusiveReason

pub data BytecodeVmError : Type 0 where
  vm_failure : String → BytecodeVmError
  vm_inconclusive : InconclusiveReason → BytecodeVmError

-- A suspension with its entry of `externalSuspensionState`; the owner is an object's identity.
pub record BytecodeExternalSuspension : Type 0 where
  pub identity : ℕ
  pub result_type : ObservableValueType
  pub owner : ℕ
  pub graph : InstructionGraph
  pub machine : Machine

pub data InternalResult : Type 0 where
  returned : ObservableRuntimeResult → InternalResult
  suspended : ObservableOperationRequest → BytecodeExternalSuspension → InternalResult
  failed : BytecodeVmError → InternalResult

-- What an instruction leads to: the loop goes on, or it returns.
pub data StepResult : Type 0 where
  next : Machine → Store → StepResult
  stop : InternalResult → Store → StepResult

-- `failure(code, …)`.
unfoldable pub failure : String → Store → StepResult
failure code store = StepResult.stop (InternalResult.failed (BytecodeVmError.vm_failure code)) store

module _ (bounds : KernelBytecodeBounds) (machine : Machine) (store : Store) where
  unfoldable pub push_operand : RuntimeResult → Operands → StepResult
  unfolding failure operand_depth
  push_operand r operands =
      if leb bounds.maximum_operand_stack_depth (operand_depth operands)
      then failure "bytecode.vm.operand-stack-exceeded" store
      else StepResult.next (record machine { operand_stack = Operands.operand r operands }) store

  -- `pushContinuation`, and the machine that the instruction goes on with.
  unfoldable pub push_continuation : Frame → (Frames → Machine) → StepResult
  unfolding failure continuation_depth
  push_continuation f then_goes_on =
      if leb bounds.maximum_continuation_depth (continuation_depth machine.continuation_stack)
      then failure "bytecode.vm.continuation-stack-exceeded" store
      else StepResult.next (then_goes_on (Frames.frame f machine.continuation_stack)) store

  -- The return frame for the next instruction.
  abbrev pub continue_here : Operands → Frame
  continue_here operands =
      Frame.return
        (ReturnFrame.return_frame machine.block machine.program_counter machine.locals operands)

  -- The machine at the start of a block, with the locals and the stack below.
  abbrev pub entered : ℕ → Locals → Frames → Machine
  entered entry_block locals frames = record machine {
    block = entry_block;
    program_counter = 0;
    locals = locals;
    operand_stack = Operands.operands_end;
    continuation_stack = frames;
  }

  unfoldable pub push_bool : Option Constant → StepResult
  unfolding push_operand failure
  push_bool (some (Constant.bool_constant b)) =
      push_operand (RuntimeResult.value (RuntimeValue.bool b)) machine.operand_stack
  push_bool _ = failure "bytecode.vm.invalid-constant" store

  unfoldable pub push_int : Option Constant → StepResult
  unfolding push_operand failure
  push_int (some (Constant.int_constant n)) =
      push_operand (RuntimeResult.value (RuntimeValue.int n)) machine.operand_stack
  push_int _ = failure "bytecode.vm.invalid-constant" store

  unfoldable pub load_slot : Option RuntimeBinding → StepResult
  unfolding push_operand failure
  load_slot (some (RuntimeBinding.bound v)) =
      push_operand (RuntimeResult.value v) machine.operand_stack
  load_slot _ = failure "bytecode.vm.invalid-slot" store

  unfoldable pub bind_slot : ℕ → Operands → StepResult
  unfolding failure
  bind_slot slot (Operands.operand (RuntimeResult.value v) rest) =
      StepResult.next
        (record machine {
          operand_stack = rest;
          locals = set_local slot (RuntimeBinding.bound v) machine.locals;
        })
        store
  bind_slot slot _ = failure "bytecode.vm.expected-value" store

  unfoldable pub make_pair : Operands → StepResult
  unfolding push_operand failure
  make_pair
        (Operands.operand
          (RuntimeResult.value second)
          (Operands.operand (RuntimeResult.value first) rest)) =
      push_operand (RuntimeResult.value (RuntimeValue.pair first second)) rest
  make_pair _ = failure "bytecode.vm.expected-value" store

  -- `MakeThunk` and `MakeFunction` push what they make of the captured locals.
  unfoldable pub make_closure : (Locals → RuntimeResult) → Option Locals → StepResult
  unfolding push_operand failure
  make_closure close none = failure "bytecode.vm.invalid-slot" store
  make_closure close (some captured) = push_operand (close captured) machine.operand_stack

  unfoldable pub force : Operands → StepResult
  unfolding push_continuation failure
  force (Operands.operand (RuntimeResult.value (RuntimeValue.thunk entry_block locals)) rest) =
      push_continuation (continue_here rest) (entered entry_block locals)
  force _ = failure "bytecode.vm.expected-thunk" store

  unfoldable pub call : Operands → StepResult
  unfolding push_continuation failure
  call
        (Operands.operand
          (RuntimeResult.value argument)
          (Operands.operand (RuntimeResult.function entry_block parameter_slot locals) rest)) =
      push_continuation (continue_here rest)
        (entered entry_block (set_local parameter_slot (RuntimeBinding.bound argument) locals))
  call _ = failure "bytecode.vm.expected-function" store

  unfoldable pub enter_handler : Option Text → ℕ → ℕ → Option (List FrameClause) → StepResult
  unfolding push_continuation failure
  enter_handler (some label) return_block return_slot (some clauses) =
      push_continuation
        (Frame.handler (
          HandlerFrame.handler_frame label return_block return_slot clauses machine.locals
            machine.operand_stack))
        (λ frames. record machine { continuation_stack = frames })
  enter_handler _ return_block return_slot _ = failure "bytecode.vm.invalid-constant" store

  -- The handler on top of the stack gives way to a return frame at its locals and operands.
  unfoldable pub leave_handler : Operands → Frames → StepResult
  unfolding failure
  leave_handler (Operands.operand (RuntimeResult.value v) rest)
        (Frames.frame
          (Frame.handler (HandlerFrame.handler_frame label block slot clauses locals operands))
          outer) =
      StepResult.next
        (entered block (set_local slot (RuntimeBinding.bound v) locals) (
          Frames.frame
            (Frame.return
              (ReturnFrame.return_frame machine.block machine.program_counter locals operands))
            outer))
        store
  leave_handler _ _ = failure "bytecode.vm.invalid-handler-boundary" store

  -- The clause runs below its handler, with the argument and a fresh token.
  unfoldable pub enter_clause :
      Option FrameClause → Split → RuntimeValue → Operands → ObservableValueType → StepResult
  unfolding failure
  enter_clause none split argument rest result_type =
      failure "bytecode.vm.missing-handler-clause" store
  enter_clause (some clause) split argument rest result_type =
      StepResult.next
        (entered clause.entry_block
          (set_local clause.resumption_slot
            (RuntimeBinding.token (
              InternalResumption.resumption store.next_identity result_type
                (ReturnFrame.return_frame machine.block machine.program_counter machine.locals rest)
                split.handler split.captured))
            (set_local clause.argument_slot (RuntimeBinding.bound argument)
              (handler_locals split.handler)))
          split.outer)
        (record store {
          live_resumptions = store.next_identity ∷ store.live_resumptions;
          next_identity = store.next_identity + 1;
        })

  unfoldable pub perform :
      InstructionGraph
      → ℕ
      → Option Split
      → Text
      → Text
      → ObservableValueType
      → RuntimeValue
      → Operands
      → StepResult
  unfolding enter_clause observable_value find text_eq
  perform graph owner none label operation result_type argument rest =
      StepResult.stop
        (InternalResult.suspended
          (record {
            label = label;
            operation = operation;
            argument = observable_value argument;
            result_type = result_type;
          })
          (record {
            identity = store.next_identity;
            result_type = result_type;
            owner = owner;
            graph = graph;
            machine = record machine { operand_stack = rest };
          }))
        (record store {
          live_suspensions = store.next_identity ∷ store.live_suspensions;
          next_identity = store.next_identity + 1;
        })
  perform graph owner (some split) label operation result_type argument rest =
      enter_clause (find (λ c. text_eq c.operation operation) (handler_clauses split.handler)) split
        argument rest result_type

  unfoldable pub request :
      InstructionGraph
      → ℕ
      → Option Text
      → Option Text
      → Option ObservableValueType
      → Operands
      → StepResult
  unfolding perform find_handler failure
  request graph owner (some label) (some operation) (some result_type)
        (Operands.operand (RuntimeResult.value argument) rest) =
      perform graph owner (find_handler label machine.continuation_stack) label operation
        result_type argument rest
  request graph owner _ _ _ _ = failure "bytecode.vm.invalid-request" store

  -- The captured continuation is put back above the rest of the clause.
  abbrev pub resumed :
      ℕ → ReturnFrame → HandlerFrame → Frames → RuntimeValue → Operands → StepResult
  resumed identity (ReturnFrame.return_frame block counter locals operands) handler captured v
        rest =
      StepResult.next
        (record machine {
          block = block;
          program_counter = counter;
          locals = locals;
          operand_stack = Operands.operand (RuntimeResult.value v) operands;
          continuation_stack = append_frames captured (
              Frames.frame (Frame.handler handler)
                (Frames.frame (continue_here rest) machine.continuation_stack));
        })
        (record store { live_resumptions = consume identity store.live_resumptions })

  abbrev pub frame_operands : ReturnFrame → Operands
  frame_operands (ReturnFrame.return_frame block counter locals operands) = operands

  unfoldable pub use_token : InternalResumption → RuntimeValue → Operands → StepResult
  unfolding failure runtime_value_has_type is_live continuation_depth operand_depth
  use_token (InternalResumption.resumption identity expected continuation handler captured) v rest =
      if runtime_value_has_type v expected
      then if is_live identity store.live_resumptions
        then if leb
            (continuation_depth machine.continuation_stack + 2 + continuation_depth captured)
            bounds.maximum_continuation_depth
          then if leb bounds.maximum_operand_stack_depth
              (operand_depth (frame_operands continuation))
            then failure "bytecode.vm.operand-stack-exceeded" store
            else resumed identity continuation handler captured v rest
          else failure "bytecode.vm.continuation-stack-exceeded" store
        else failure "bytecode.vm.resumption-already-used" store
      else failure "bytecode.vm.resumption-result-type-mismatch" store

  unfoldable pub resume_slot : Option RuntimeBinding → Operands → StepResult
  unfolding use_token failure
  resume_slot (some (RuntimeBinding.token t)) (Operands.operand (RuntimeResult.value v) rest) =
      use_token t v rest
  resume_slot _ _ = failure "bytecode.vm.invalid-resumption" store

-- The frame on top takes the result on its own operands.
unfoldable pub return_to :
    KernelBytecodeBounds → Machine → Store → RuntimeResult → Frames → StepResult
unfolding push_operand failure observable_result
return_to bounds machine store r Frames.frames_end =
    StepResult.stop (InternalResult.returned (observable_result r)) store
return_to bounds machine store r (Frames.frame (Frame.handler h) outer) =
    failure "bytecode.vm.invalid-handler-boundary" store
return_to bounds machine store r
      (Frames.frame (Frame.return (ReturnFrame.return_frame block counter locals operands)) outer) =
    push_operand bounds
      (record machine {
        block = block;
        program_counter = counter;
        locals = locals;
        continuation_stack = outer;
      })
      store r operands

unfoldable pub return_result : KernelBytecodeBounds → Machine → Store → Operands → StepResult
unfolding return_to failure
return_result bounds machine store Operands.operands_end =
    failure "bytecode.vm.missing-result" store
return_result bounds machine store (Operands.operand r rest) =
    return_to bounds machine store r machine.continuation_stack

-- The instruction that was read, after the counters are advanced.
unfoldable pub execute :
    InstructionGraph → KernelBytecodeBounds → ℕ → Machine → Store → Instruction → StepResult
unfolding push_operand push_bool push_int load_slot bind_slot make_pair make_closure force call
    enter_handler leave_handler request resume_slot return_result constant_at get_local
    captured_locals text_constant_at value_type_constant_at text_clauses
execute graph bounds owner machine store Instruction.push_unit =
    push_operand bounds machine store (RuntimeResult.value RuntimeValue.unit) machine.operand_stack
execute graph bounds owner machine store (Instruction.push_bool slot) =
    push_bool bounds machine store (constant_at graph slot)
execute graph bounds owner machine store (Instruction.push_int slot) =
    push_int bounds machine store (constant_at graph slot)
execute graph bounds owner machine store (Instruction.load_slot slot) =
    load_slot bounds machine store (get_local machine.locals slot)
execute graph bounds owner machine store (Instruction.bind_slot slot) =
    bind_slot bounds machine store slot machine.operand_stack
execute graph bounds owner machine store Instruction.make_pair =
    make_pair bounds machine store machine.operand_stack
execute graph bounds owner machine store (Instruction.make_thunk entry_block slots) =
    make_closure bounds machine store (λ l. RuntimeResult.value (RuntimeValue.thunk entry_block l))
      (captured_locals slots machine.locals)
execute graph bounds owner machine store Instruction.force =
    force bounds machine store machine.operand_stack
execute graph bounds owner machine store
      (Instruction.make_function entry_block parameter_slot slots) =
    make_closure bounds machine store (RuntimeResult.function entry_block parameter_slot)
      (captured_locals slots machine.locals)
execute graph bounds owner machine store Instruction.call =
    call bounds machine store machine.operand_stack
execute graph bounds owner machine store (Instruction.jump target_block) =
    StepResult.next (record machine { block = target_block; program_counter = 0 }) store
execute graph bounds owner machine store
      (Instruction.enter_handler label_slot return_block return_slot clauses) =
    enter_handler bounds machine store (text_constant_at graph label_slot) return_block return_slot
      (text_clauses graph clauses)
execute graph bounds owner machine store Instruction.leave_handler =
    leave_handler bounds machine store machine.operand_stack machine.continuation_stack
execute graph bounds owner machine store
      (Instruction.request label_slot operation_slot result_type_slot) =
    request bounds machine store graph owner (text_constant_at graph label_slot)
      (text_constant_at graph operation_slot) (value_type_constant_at graph result_type_slot)
      machine.operand_stack
execute graph bounds owner machine store (Instruction.resume_slot slot) =
    resume_slot bounds machine store (get_local machine.locals slot) machine.operand_stack
execute graph bounds owner machine store Instruction.return =
    return_result bounds machine store machine.operand_stack

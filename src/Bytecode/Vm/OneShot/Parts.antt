-- ===== src/Bytecode/Vm/OneShot/Parts.antt =====
-- src/kernel-bytecode/vm.ts: how the instructions change the sets of live tokens.
use semantic_systems.Base.{
  ℕ, ◌+◌, ◌≤◌, ◌<◌, ◌≡◌, true, Bool-cases, List, ◌∷◌, Option, none, some, arith, leb, inl, inr,
}
use semantic_systems.Kernel.Row.{Text}
use semantic_systems.Kernel.Machine.{is_live, consume}
use semantic_systems.Kernel.Machine.Resume.Laws.{is_live-consume}
use semantic_systems.Bytecode.Instruction.{
  ObservableValueType, Constant, InstructionGraph, KernelBytecodeBounds,
}
use semantic_systems.Bytecode.Vm.State.{
  FrameClause, RuntimeValue, RuntimeResult, RuntimeBinding, Locals, Operands, ReturnFrame,
  HandlerFrame, Frame, Frames, InternalResumption, Machine, Store, operand_depth,
  continuation_depth, runtime_value_has_type, Split, find_handler, set_local,
}
use semantic_systems.Bytecode.Vm.Step.{
  StepResult, failure, push_operand, push_continuation, continue_here, entered, push_bool, push_int,
  load_slot, bind_slot, make_pair, make_closure, force, call, enter_handler, leave_handler,
  enter_clause, perform, request, use_token, resume_slot,
}

abbrev pub store_of : StepResult → Store
store_of (StepResult.next machine store) = store
store_of (StepResult.stop result store) = store

-- The store that a run leaves: new tokens have new numbers, and no old token is live again.
pub record Evolves (before after : Store) : Type 0 where
  pub later : before.next_identity ≤ after.next_identity
  pub resumptions :
      (id : ℕ)
      → id < before.next_identity
      → is_live id after.live_resumptions ≡ true
      → is_live id before.live_resumptions ≡ true
  pub suspensions :
      (id : ℕ)
      → id < before.next_identity
      → is_live id after.live_suspensions ≡ true
      → is_live id before.live_suspensions ≡ true

pub Evolves-refl : (s : Store) → Evolves s s
Evolves-refl s = record {
  later = omega arith;
  resumptions = λ id lt live. live;
  suspensions = λ id lt live. live;
}

pub Evolves-trans : (s t u : Store) → Evolves s t → Evolves t u → Evolves s u
Evolves-trans s t u h k = record {
  later = omega (arith, h.later, k.later);
  resumptions = λ id lt live. h.resumptions id lt (k.resumptions id (omega (arith, h.later)) live);
  suspensions = λ id lt live. h.suspensions id lt (k.suspensions id (omega (arith, h.later)) live);
}

is_live-new :
    (id next : ℕ) (live : List ℕ)
    → id < next
    → is_live id (next ∷ live) ≡ true
    → is_live id live ≡ true
unfolding is_live
is_live-new id next live lt h = ground arith

pub is_live-kept :
    (id other : ℕ) (live : List ℕ)
    → is_live other (consume id live) ≡ true
    → is_live other live ≡ true
is_live-kept id other live h = let e = is_live-consume other id live in ground arith

module _ (bounds : KernelBytecodeBounds) (machine : Machine) (store : Store) where
  pub push_operand-Evolves :
      (r : RuntimeResult) (operands : Operands)
      → Evolves store (store_of (push_operand bounds machine store r operands))
  unfolding push_operand failure
  push_operand-Evolves r operands =
      elim (Bool-cases (leb bounds.maximum_operand_stack_depth (operand_depth operands))) [
        | inl full ↦ rw full (Evolves-refl store)
        | inr room ↦ rw room (Evolves-refl store)
      ]

  pub push_continuation-Evolves :
      (f : Frame) (then_goes_on : Frames → Machine)
      → Evolves store (store_of (push_continuation bounds machine store f then_goes_on))
  unfolding push_continuation failure
  push_continuation-Evolves f then_goes_on =
      elim (Bool-cases
        (leb bounds.maximum_continuation_depth (continuation_depth machine.continuation_stack))) [
          | inl full ↦ rw full (Evolves-refl store)
          | inr room ↦ rw room (Evolves-refl store)
        ]

  pub push_bool-Evolves :
      (c : Option Constant) → Evolves store (store_of (push_bool bounds machine store c))
  unfolding push_bool failure
  push_bool-Evolves (some (Constant.bool_constant b)) = push_operand-Evolves _ _
  push_bool-Evolves (some (Constant.int_constant n)) = Evolves-refl store
  push_bool-Evolves (some (Constant.text_constant t)) = Evolves-refl store
  push_bool-Evolves (some (Constant.value_type_constant t)) = Evolves-refl store
  push_bool-Evolves (some (Constant.computation_type_constant t)) = Evolves-refl store
  push_bool-Evolves none = Evolves-refl store

  pub push_int-Evolves :
      (c : Option Constant) → Evolves store (store_of (push_int bounds machine store c))
  unfolding push_int failure
  push_int-Evolves (some (Constant.int_constant n)) = push_operand-Evolves _ _
  push_int-Evolves (some (Constant.bool_constant b)) = Evolves-refl store
  push_int-Evolves (some (Constant.text_constant t)) = Evolves-refl store
  push_int-Evolves (some (Constant.value_type_constant t)) = Evolves-refl store
  push_int-Evolves (some (Constant.computation_type_constant t)) = Evolves-refl store
  push_int-Evolves none = Evolves-refl store

  pub load_slot-Evolves :
      (b : Option RuntimeBinding) → Evolves store (store_of (load_slot bounds machine store b))
  unfolding load_slot failure
  load_slot-Evolves (some (RuntimeBinding.bound v)) = push_operand-Evolves _ _
  load_slot-Evolves (some (RuntimeBinding.token t)) = Evolves-refl store
  load_slot-Evolves none = Evolves-refl store

  pub bind_slot-Evolves :
      (slot : ℕ) (operands : Operands)
      → Evolves store (store_of (bind_slot bounds machine store slot operands))
  unfolding bind_slot failure operand_depth
  bind_slot-Evolves slot (Operands.operand (RuntimeResult.value v) rest) = Evolves-refl store
  bind_slot-Evolves slot (Operands.operand (RuntimeResult.function b p l) rest) = Evolves-refl store
  bind_slot-Evolves slot Operands.operands_end = Evolves-refl store

  pub make_pair-Evolves :
      (operands : Operands) → Evolves store (store_of (make_pair bounds machine store operands))
  unfolding make_pair failure
  make_pair-Evolves
        (Operands.operand (RuntimeResult.value v) (Operands.operand (RuntimeResult.value w) rest)) =
      push_operand-Evolves _ _
  make_pair-Evolves
        (Operands.operand
          (RuntimeResult.value v)
          (Operands.operand (RuntimeResult.function b p l) rest)) =
      Evolves-refl store
  make_pair-Evolves (Operands.operand (RuntimeResult.value v) Operands.operands_end) =
      Evolves-refl store
  make_pair-Evolves (Operands.operand (RuntimeResult.function b p l) rest) = Evolves-refl store
  make_pair-Evolves Operands.operands_end = Evolves-refl store

  pub make_closure-Evolves :
      (close : Locals → RuntimeResult) (o : Option Locals)
      → Evolves store (store_of (make_closure bounds machine store close o))
  unfolding make_closure failure
  make_closure-Evolves close none = Evolves-refl store
  make_closure-Evolves close (some captured) = push_operand-Evolves _ _

  pub force-Evolves :
      (operands : Operands) → Evolves store (store_of (force bounds machine store operands))
  unfolding force failure operand_depth
  force-Evolves (Operands.operand (RuntimeResult.value (RuntimeValue.thunk b l)) rest) =
      push_continuation-Evolves (continue_here bounds machine store rest)
        (entered bounds machine store b l)
  force-Evolves (Operands.operand (RuntimeResult.value RuntimeValue.unit) rest) = Evolves-refl store
  force-Evolves (Operands.operand (RuntimeResult.value (RuntimeValue.bool b)) rest) =
      Evolves-refl store
  force-Evolves (Operands.operand (RuntimeResult.value (RuntimeValue.int b)) rest) =
      Evolves-refl store
  force-Evolves (Operands.operand (RuntimeResult.value (RuntimeValue.pair v w)) rest) =
      Evolves-refl store
  force-Evolves (Operands.operand (RuntimeResult.function b p l) rest) = Evolves-refl store
  force-Evolves Operands.operands_end = Evolves-refl store

  pub call-Evolves :
      (operands : Operands) → Evolves store (store_of (call bounds machine store operands))
  unfolding call failure operand_depth
  call-Evolves
        (Operands.operand
          (RuntimeResult.value v)
          (Operands.operand (RuntimeResult.function b p l) rest)) =
      push_continuation-Evolves (continue_here bounds machine store rest)
        (entered bounds machine store b (set_local p (RuntimeBinding.bound v) l))
  call-Evolves
        (Operands.operand (RuntimeResult.value v) (Operands.operand (RuntimeResult.value w) rest)) =
      Evolves-refl store
  call-Evolves (Operands.operand (RuntimeResult.value v) Operands.operands_end) = Evolves-refl store
  call-Evolves (Operands.operand (RuntimeResult.function b p l) rest) = Evolves-refl store
  call-Evolves Operands.operands_end = Evolves-refl store

  pub enter_handler-Evolves :
      (label : Option Text) (block slot : ℕ) (clauses : Option (List FrameClause))
      → Evolves store (store_of (enter_handler bounds machine store label block slot clauses))
  unfolding enter_handler failure
  enter_handler-Evolves (some label) block slot (some clauses) =
      push_continuation-Evolves
        (Frame.handler (
          HandlerFrame.handler_frame label block slot clauses machine.locals machine.operand_stack))
        (λ frames. record machine { continuation_stack = frames })
  enter_handler-Evolves (some label) block slot none = Evolves-refl store
  enter_handler-Evolves none block slot clauses = Evolves-refl store

  pub leave_handler-Evolves :
      (operands : Operands) (frames : Frames)
      → Evolves store (store_of (leave_handler bounds machine store operands frames))
  unfolding leave_handler failure
  leave_handler-Evolves (Operands.operand (RuntimeResult.value v) rest)
        (Frames.frame (Frame.handler (HandlerFrame.handler_frame l b s cs ls os)) outer) =
      Evolves-refl store
  leave_handler-Evolves (Operands.operand (RuntimeResult.value v) rest)
        (Frames.frame (Frame.return r) outer) =
      Evolves-refl store
  leave_handler-Evolves (Operands.operand (RuntimeResult.value v) rest) Frames.frames_end =
      Evolves-refl store
  leave_handler-Evolves (Operands.operand (RuntimeResult.function b p l) rest) frames =
      Evolves-refl store
  leave_handler-Evolves Operands.operands_end frames = Evolves-refl store

  pub enter_clause-Evolves :
      (o : Option FrameClause) (s : Split) (v : RuntimeValue) (rest : Operands)
      (type : ObservableValueType)
      → Evolves store (store_of (enter_clause bounds machine store o s v rest type))
  unfolding enter_clause failure
  enter_clause-Evolves none s v rest type = Evolves-refl store
  enter_clause-Evolves (some c) s v rest type = record {
    later = omega arith;
    resumptions = λ id lt live. is_live-new id store.next_identity store.live_resumptions lt live;
    suspensions = λ id lt live. live;
  }

  pub perform-Evolves :
      (graph : InstructionGraph) (owner : ℕ) (o : Option Split) (label name : Text)
      (type : ObservableValueType) (v : RuntimeValue) (rest : Operands)
      → Evolves store (store_of (perform bounds machine store graph owner o label name type v rest))
  unfolding perform
  perform-Evolves graph owner none label name type v rest = record {
    later = omega arith;
    resumptions = λ id lt live. live;
    suspensions = λ id lt live. is_live-new id store.next_identity store.live_suspensions lt live;
  }
  perform-Evolves graph owner (some s) label name type v rest = enter_clause-Evolves _ s v rest type

  pub request-Evolves :
      (graph : InstructionGraph) (owner : ℕ) (l o : Option Text) (t : Option ObservableValueType)
      (operands : Operands)
      → Evolves store (store_of (request bounds machine store graph owner l o t operands))
  unfolding request failure
  request-Evolves graph owner (some l) (some o) (some t)
        (Operands.operand (RuntimeResult.value v) rest) =
      perform-Evolves graph owner (find_handler l machine.continuation_stack) l o t v rest
  request-Evolves graph owner (some l) (some o) (some t)
        (Operands.operand (RuntimeResult.function b p ls) rest) =
      Evolves-refl store
  request-Evolves graph owner (some l) (some o) (some t) Operands.operands_end = Evolves-refl store
  request-Evolves graph owner (some l) (some o) none operands = Evolves-refl store
  request-Evolves graph owner (some l) none t operands = Evolves-refl store
  request-Evolves graph owner none o t operands = Evolves-refl store

  pub use_token-Evolves :
      (t : InternalResumption) (v : RuntimeValue) (rest : Operands)
      → Evolves store (store_of (use_token bounds machine store t v rest))
  unfolding use_token failure
  use_token-Evolves
        (InternalResumption.resumption id a (ReturnFrame.return_frame b c l os) k captured) v rest =
      elim (Bool-cases (runtime_value_has_type v a)) [
        | inr misfit ↦ rw misfit (Evolves-refl store)
        | inl fits ↦ elim (Bool-cases (is_live id store.live_resumptions)) [
          | inr used ↦ rw (fits, used) (Evolves-refl store)
          | inl live ↦
              elim (Bool-cases (
                leb
                  (continuation_depth machine.continuation_stack + 2 + continuation_depth captured)
                  bounds.maximum_continuation_depth)) [
                    | inr deep ↦ rw (fits, live, deep) (Evolves-refl store)
                    | inl room ↦
                        elim (Bool-cases
                          (leb bounds.maximum_operand_stack_depth (operand_depth os))) [
                            | inl full ↦ rw (fits, live, room, full) (Evolves-refl store)
                            | inr free ↦
                                rw (fits, live, room, free)
                                  (record {
                                    later = omega arith;
                                    resumptions = λ other lt h.
                                        is_live-kept id other store.live_resumptions h;
                                    suspensions = λ other lt h. h;
                                  })
                          ]
                  ]
        ]
      ]

  pub resume_slot-Evolves :
      (b : Option RuntimeBinding) (operands : Operands)
      → Evolves store (store_of (resume_slot bounds machine store b operands))
  unfolding resume_slot failure
  resume_slot-Evolves (some (RuntimeBinding.token t))
        (Operands.operand (RuntimeResult.value v) rest) =
      use_token-Evolves t v rest
  resume_slot-Evolves (some (RuntimeBinding.token t))
        (Operands.operand (RuntimeResult.function b p l) rest) =
      Evolves-refl store
  resume_slot-Evolves (some (RuntimeBinding.token t)) Operands.operands_end = Evolves-refl store
  resume_slot-Evolves (some (RuntimeBinding.bound v)) operands = Evolves-refl store
  resume_slot-Evolves none operands = Evolves-refl store

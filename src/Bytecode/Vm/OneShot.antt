-- ===== src/Bytecode/Vm/OneShot.antt =====
-- src/kernel-bytecode/vm.ts: no token is consumed twice.
pub mod Parts
use mathlib.Core.Path.{subst}
use semantic_systems.Base.{
  ℕ, zero, suc, ◌+◌, ◌<◌, ◌≡◌, refl, sym, ◌∙◌, Bool, true, false, Bool-cases, Option, none, some,
  List, arith, leb, ◌==◌, inl, inr, Option-cases,
}
use semantic_systems.Kernel.Machine.{is_live, consume}
use semantic_systems.Kernel.Machine.Resume.Laws.{is_live-consume}
use semantic_systems.Bytecode.Instruction.{InstructionGraph, KernelBytecodeBounds, Instruction}
use semantic_systems.Bytecode.Vm.State.{
  RuntimeValue, RuntimeResult, Operands, ReturnFrame, Frame, Frames, InternalResumption, Machine,
  Store, operand_depth, continuation_depth, runtime_value_has_type, get_local,
}
use semantic_systems.Bytecode.Vm.Step.{
  BytecodeVmError, InternalResult, StepResult, BytecodeExternalSuspension, failure, use_token,
  return_to, return_result, execute, push_operand,
}
use semantic_systems.Bytecode.Vm.Run.{
  instruction_at, inconclusive, advanced, execute_at, step, run_machine, initial_machine, run,
  ExternalObservationValue, runtime_observation_value, Resumed, resumed_machine, resume,
}
use semantic_systems.Bytecode.Vm.Reach.{StepResult-cases}
pub use Parts.{Evolves}
use semantic_systems.Bytecode.Vm.OneShot.Parts.{
  Evolves, store_of, Evolves-refl, Evolves-trans, is_live-kept, push_operand-Evolves,
  push_bool-Evolves, push_int-Evolves, load_slot-Evolves, bind_slot-Evolves, make_pair-Evolves,
  make_closure-Evolves, force-Evolves, call-Evolves, enter_handler-Evolves, leave_handler-Evolves,
  request-Evolves, resume_slot-Evolves,
}

module _ (bounds : KernelBytecodeBounds) where
  return_to-Evolves :
      (machine : Machine) (store : Store) (r : RuntimeResult) (frames : Frames)
      → Evolves store (store_of (return_to bounds machine store r frames))
  unfolding return_to failure
  return_to-Evolves machine store r Frames.frames_end = Evolves-refl store
  return_to-Evolves machine store r (Frames.frame (Frame.handler k) outer) = Evolves-refl store
  return_to-Evolves machine store r
        (Frames.frame (Frame.return (ReturnFrame.return_frame b c l os)) outer) =
      push_operand-Evolves bounds
        (record machine { block = b; program_counter = c; locals = l; continuation_stack = outer })
        store r os

  return_result-Evolves :
      (machine : Machine) (store : Store) (operands : Operands)
      → Evolves store (store_of (return_result bounds machine store operands))
  unfolding return_result failure
  return_result-Evolves machine store Operands.operands_end = Evolves-refl store
  return_result-Evolves machine store (Operands.operand r rest) =
      return_to-Evolves machine store r machine.continuation_stack

  module _ (graph : InstructionGraph) (owner : ℕ) where
    execute-Evolves :
        (machine : Machine) (store : Store) (i : Instruction)
        → Evolves store (store_of (execute graph bounds owner machine store i))
    unfolding execute
    execute-Evolves machine store Instruction.push_unit =
        push_operand-Evolves bounds machine store _ _
    execute-Evolves machine store (Instruction.push_bool slot) =
        push_bool-Evolves bounds machine store _
    execute-Evolves machine store (Instruction.push_int slot) =
        push_int-Evolves bounds machine store _
    execute-Evolves machine store (Instruction.load_slot slot) =
        load_slot-Evolves bounds machine store _
    execute-Evolves machine store (Instruction.bind_slot slot) =
        bind_slot-Evolves bounds machine store slot _
    execute-Evolves machine store Instruction.make_pair = make_pair-Evolves bounds machine store _
    execute-Evolves machine store (Instruction.make_thunk b slots) =
        make_closure-Evolves bounds machine store _ _
    execute-Evolves machine store Instruction.force = force-Evolves bounds machine store _
    execute-Evolves machine store (Instruction.make_function b p slots) =
        make_closure-Evolves bounds machine store _ _
    execute-Evolves machine store Instruction.call = call-Evolves bounds machine store _
    execute-Evolves machine store (Instruction.jump b) = Evolves-refl store
    execute-Evolves machine store (Instruction.enter_handler l b s cs) =
        enter_handler-Evolves bounds machine store _ b s _
    execute-Evolves machine store Instruction.leave_handler =
        leave_handler-Evolves bounds machine store machine.operand_stack machine.continuation_stack
    execute-Evolves machine store (Instruction.request l o t) =
        request-Evolves bounds machine store graph owner _ _ _ _
    execute-Evolves machine store (Instruction.resume_slot slot) =
        resume_slot-Evolves bounds machine store (get_local machine.locals slot)
          machine.operand_stack
    execute-Evolves machine store Instruction.return =
        return_result-Evolves machine store machine.operand_stack

    step-Evolves :
        (machine : Machine) (store : Store)
        → Evolves store (store_of (step graph bounds owner machine store))
    unfolding step inconclusive execute_at failure
    step-Evolves machine store =
        elim (Bool-cases (leb bounds.maximum_trace_entries machine.trace_entries)) [
          | inl full ↦ rw full (Evolves-refl store)
          | inr room ↦
              elim (Option-cases (instruction_at graph machine.block machine.program_counter)) [
                | inl out ↦ rw (room, out) (Evolves-refl store)
                | inr (i, at_i) ↦ rw (room, at_i) (execute-Evolves (advanced machine) store i)
              ]
        ]

    run_machine-Evolves :
        (fuel : ℕ) (machine : Machine) (store : Store)
        → Evolves store (run_machine graph bounds owner fuel machine store).1
    unfolding run_machine
    run_machine-Evolves zero machine store = Evolves-refl store
    run_machine-Evolves (suc fuel) machine store =
        let one = step-Evolves machine store in
        elim (StepResult-cases (step graph bounds owner machine store)) [
          | inl (r, (s, e)) ↦ rw (run_machine, e) (subst (λ r. Evolves store (store_of r)) e one)
          | inr (m, (s, e)) ↦
              rw (run_machine, e)
                (Evolves-trans store s _ (subst (λ r. Evolves store (store_of r)) e one)
                  (run_machine-Evolves fuel m s))
        ]

-- What `resume` comes to: a refusal that changes nothing, or a run after the token is consumed.
data Resumes (token : BytecodeExternalSuspension) (bounds : KernelBytecodeBounds) (store : Store)
    : Resumed → Type 0 where
  refuses : {r : Resumed} → r.applied ≡ false → r.store ≡ store → Resumes token bounds store r
  applies :
      {r : Resumed}
      → r.applied ≡ true
      → is_live token.identity store.live_suspensions ≡ true
      → Evolves
          (record store { live_suspensions = consume token.identity store.live_suspensions })
          r.store
      → Resumes token bounds store r

resume-Resumes :
    (token : BytecodeExternalSuspension) (observation : ExternalObservationValue)
    (bounds : KernelBytecodeBounds) (owner : ℕ) (store : Store)
    → Resumes token bounds store (resume token observation bounds owner store)
unfolding resume
resume-Resumes token observation bounds owner store =
    let v = runtime_observation_value observation in
    elim (Bool-cases (token.owner == owner)) [
      | inr other ↦ rw other (Resumes.refuses refl refl)
      | inl mine ↦ elim (Bool-cases (runtime_value_has_type v token.result_type)) [
        | inr misfit ↦ rw (mine, misfit) (Resumes.refuses refl refl)
        | inl fits ↦ elim (Bool-cases (is_live token.identity store.live_suspensions)) [
          | inr used ↦ rw (mine, fits, used) (Resumes.refuses refl refl)
          | inl live ↦
              elim (Bool-cases (
                leb bounds.maximum_operand_stack_depth
                  (operand_depth token.machine.operand_stack))) [
                    | inl full ↦ rw (mine, fits, live, full) (Resumes.refuses refl refl)
                    | inr room ↦
                        rw (mine, fits, live, room)
                          (Resumes.applies refl live (
                            run_machine-Evolves bounds token.graph owner bounds.vm_fuel
                              (resumed_machine token v) _))
                  ]
        ]
      ]
    ]

true-false : true ≡ false → ⊥
true-false e = cc

dead :
    (id : ℕ) (live : List ℕ) (later : Bool)
    → (later ≡ true → is_live id (consume id live) ≡ true)
    → later ≡ false
dead id live false h = refl
dead id live true h = absurd (let e = is_live-consume id id live in let l = h refl in ground arith)

resume-Evolves :
    (token : BytecodeExternalSuspension) (observation : ExternalObservationValue)
    (bounds : KernelBytecodeBounds) (owner : ℕ) (store : Store)
    → Evolves store (resume token observation bounds owner store).store
resume-Evolves token observation bounds owner store =
    elim (resume-Resumes token observation bounds owner store) [
      | Resumes.refuses refused same ↦ subst (Evolves store) (sym same) (Evolves-refl store)
      | Resumes.applies a live ran ↦
          Evolves-trans store _ _
            (record {
              later = omega arith;
              resumptions = λ id lt live. live;
              suspensions = λ id lt. is_live-kept token.identity id store.live_suspensions;
            })
            ran
    ]

-- What can happen to the live tokens: rounds of the loop, runs and resumptions, of whatever graphs,
-- machines and suspensions, one after the other.
pub data Calls : Store → Store → Type 0 where
  done : {store : Store} → Calls store store
  rounds :
      {store later : Store} (graph : InstructionGraph) (bounds : KernelBytecodeBounds) (owner : ℕ)
      (machine : Machine)
      → Calls (store_of (step graph bounds owner machine store)) later
      → Calls store later
  runs :
      {store later : Store} (graph : InstructionGraph) (bounds : KernelBytecodeBounds) (owner : ℕ)
      → Calls (run graph bounds owner store).1 later
      → Calls store later
  resumes :
      {store later : Store} (token : BytecodeExternalSuspension)
      (observation : ExternalObservationValue) (bounds : KernelBytecodeBounds) (owner : ℕ)
      → Calls (resume token observation bounds owner store).store later
      → Calls store later

Calls-Evolves : (store later : Store) → Calls store later → Evolves store later
unfolding run
Calls-Evolves store later Calls.done = Evolves-refl store
Calls-Evolves store later (Calls.rounds graph bounds owner machine rest) =
    Evolves-trans store _ later (step-Evolves bounds graph owner machine store)
      (Calls-Evolves _ later rest)
Calls-Evolves store later (Calls.runs graph bounds owner rest) =
    Evolves-trans store _ later
      (run_machine-Evolves bounds graph owner bounds.vm_fuel (initial_machine graph) store)
      (Calls-Evolves _ later rest)
Calls-Evolves store later (Calls.resumes token observation bounds owner rest) =
    Evolves-trans store _ later (resume-Evolves token observation bounds owner store)
      (Calls-Evolves _ later rest)

-- A suspension of the store, with a number below the next one, that was resumed is refused from
-- then on: with whatever observation, bounds and
-- runtime it is resumed again, and whatever rounds, runs and resumptions came in between, the
-- second resumption does not apply and changes no token.
pub resume-refuses :
    (token : BytecodeExternalSuspension) (observation again : ExternalObservationValue)
    (bounds bounds' : KernelBytecodeBounds) (owner owner' : ℕ) (store later : Store)
    → token.identity < store.next_identity
    → (resume token observation bounds owner store).applied ≡ true
    → Calls (resume token observation bounds owner store).store later
    → ((resume token again bounds' owner' later).applied ≡ false)
      × ((resume token again bounds' owner' later).store ≡ later)
resume-refuses token observation again bounds bounds' owner owner' store later lt applied calls =
    elim (resume-Resumes token observation bounds owner store) [
      | Resumes.refuses refused same ↦ absurd (true-false (sym applied ∙ refused))
      | Resumes.applies a live ran ↦ elim (resume-Resumes token again bounds' owner' later) [
        | Resumes.refuses refused same ↦ (refused, same)
        | Resumes.applies b live' ran' ↦
            let gone : is_live token.identity later.live_suspensions ≡ false =
              dead token.identity store.live_suspensions _ (λ l. ran.suspensions token.identity lt (
                (Calls-Evolves _ later calls).suspensions token.identity
                  (omega (arith, ran.later, lt)) l)) in
            absurd (true-false (sym live' ∙ gone))
      ]
    ]

abbrev pub identity_of : InternalResumption → ℕ
identity_of (InternalResumption.resumption identity type continuation handler captured) = identity

-- The instruction lets the machine go on.
abbrev pub goes_on : StepResult → Bool
goes_on (StepResult.next machine store) = true
goes_on (StepResult.stop result store) = false

use_token-consumes :
    (bounds : KernelBytecodeBounds) (machine : Machine) (store : Store) (t : InternalResumption)
    (v : RuntimeValue) (rest : Operands)
    → goes_on (use_token bounds machine store t v rest) ≡ true
    → (is_live (identity_of t) store.live_resumptions ≡ true)
      × ((store_of (use_token bounds machine store t v rest)).live_resumptions
          ≡ consume (identity_of t) store.live_resumptions)
      × ((store_of (use_token bounds machine store t v rest)).next_identity ≡ store.next_identity)
unfolding use_token failure
use_token-consumes bounds machine store
      (InternalResumption.resumption id a (ReturnFrame.return_frame b c l os) k captured) v rest
      on =
    elim (Bool-cases (runtime_value_has_type v a)) [
      | inr misfit ↦ absurd (true-false (sym (rw misfit at on)))
      | inl fits ↦ elim (Bool-cases (is_live id store.live_resumptions)) [
        | inr used ↦ absurd (true-false (sym (rw (fits, used) at on)))
        | inl live ↦
            elim (Bool-cases (
              leb (continuation_depth machine.continuation_stack + 2 + continuation_depth captured)
                bounds.maximum_continuation_depth)) [
                  | inr deep ↦ absurd (true-false (sym (rw (fits, live, deep) at on)))
                  | inl room ↦
                      elim (Bool-cases
                        (leb bounds.maximum_operand_stack_depth (operand_depth os))) [
                          | inl full ↦ absurd (true-false (sym (rw (fits, live, room, full) at on)))
                          | inr free ↦ rw (fits, live, room, free) (refl, refl, refl)
                        ]
                ]
      ]
    ]

-- A resumption that is not live, or whose use fails otherwise, leaves the tokens.
use_token-leaves :
    (bounds : KernelBytecodeBounds) (machine : Machine) (store : Store) (t : InternalResumption)
    (v : RuntimeValue) (rest : Operands)
    → is_live (identity_of t) store.live_resumptions ≡ false
    → (goes_on (use_token bounds machine store t v rest) ≡ false)
      × (store_of (use_token bounds machine store t v rest) ≡ store)
unfolding use_token failure
use_token-leaves bounds machine store
      (InternalResumption.resumption id a (ReturnFrame.return_frame b c l os) k captured) v rest
      used =
    elim (Bool-cases (runtime_value_has_type v a)) [
      | inr misfit ↦ rw misfit (refl, refl)
      | inl fits ↦ rw (fits, used) (refl, refl)
    ]

-- A resumption of the store, with a number below the next one, that `ResumeSlot` has consumed is
-- never consumed again: whatever rounds of the
-- loop, runs and resumptions came in between, with it the machine stops and no token changes.
pub use_token-stops :
    (bounds bounds' : KernelBytecodeBounds) (machine machine' : Machine) (store later : Store)
    (t : InternalResumption) (v w : RuntimeValue) (rest rest' : Operands)
    → identity_of t < store.next_identity
    → goes_on (use_token bounds machine store t v rest) ≡ true
    → Calls (store_of (use_token bounds machine store t v rest)) later
    → (goes_on (use_token bounds' machine' later t w rest') ≡ false)
      × (store_of (use_token bounds' machine' later t w rest') ≡ later)
use_token-stops bounds bounds' machine machine' store later t v w rest rest' lt on calls =
    let (live, same, next) = use_token-consumes bounds machine store t v rest on in
    let evolves = Calls-Evolves _ later calls in
    use_token-leaves bounds' machine' later t w rest' (
      dead (identity_of t) store.live_resumptions _ (λ l.
        subst (λ live. is_live (identity_of t) live ≡ true) same
          (evolves.resumptions (identity_of t) (omega (arith, next, lt)) l)))

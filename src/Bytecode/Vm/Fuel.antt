-- ===== src/Bytecode/Vm/Fuel.antt =====
-- src/kernel-bytecode/vm.ts: the loop of `runMachine` with more fuel than its trace has room.
use mathlib.Core.Path.{subst}
use semantic_systems.Base.{
  ℕ, zero, suc, ◌+◌, ◌<◌, ◌≡◌, refl, arith, leb, Bool-cases, Option-cases, inl, inr,
}
use semantic_systems.Bytecode.Instruction.{InstructionGraph, KernelBytecodeBounds}
use semantic_systems.Bytecode.Vm.State.{Machine, Store}
use semantic_systems.Bytecode.Vm.Step.{InternalResult, StepResult, failure}
use semantic_systems.Bytecode.Vm.Run.{
  instruction_at, inconclusive, advanced, execute_at, step, run_machine, initial_machine, run,
}
use semantic_systems.Bytecode.Vm.Reach.{Leaves, StepResult-cases, Reaches}
use semantic_systems.Bytecode.Vm.Bounds.{
  IsWithin, Within, execute-Within, step-IsWithin, initial-IsWithin,
}

-- One round of the loop adds one entry to the trace.
step-counts :
    (graph : InstructionGraph) (bounds : KernelBytecodeBounds) (owner : ℕ) (machine : Machine)
    (store : Store)
    → IsWithin bounds machine
    → Leaves
        (Within (λ n. n ≡ machine.trace_entries + 1) bounds)
        (step graph bounds owner machine store)
unfolding step inconclusive execute_at failure
step-counts graph bounds owner machine store h =
    elim (Bool-cases (leb bounds.maximum_trace_entries machine.trace_entries)) [
      | inl full ↦ rw full tt
      | inr room ↦
          rw room
            (elim (Option-cases (instruction_at graph machine.block machine.program_counter)) [
              | inl out ↦ rw out tt
              | inr (i, at_i) ↦ rw at_i (
                  execute-Within (λ n. n ≡ machine.trace_entries + 1) graph bounds owner
                    (advanced machine) store i (h.0, h.1, refl))
            ])
    ]

-- The loop ends in a machine that it comes to, on which a round gives the result.
pub record Ends (graph : InstructionGraph) (bounds : KernelBytecodeBounds) (owner : ℕ)
    (machine : Machine) (store : Store) (result : InternalResult × Store) : Type 0 where
  pub last : Machine
  pub live : Store
  pub reached : Reaches graph bounds owner machine store last live
  pub stops : step graph bounds owner last live ≡ StepResult.stop result.0 result.1

run_machine-Ends :
    (graph : InstructionGraph) (bounds : KernelBytecodeBounds) (owner fuel : ℕ) (machine : Machine)
    (store : Store)
    → IsWithin bounds machine
    → bounds.maximum_trace_entries < machine.trace_entries + fuel
    → Ends graph bounds owner machine store (run_machine graph bounds owner fuel machine store)
unfolding run_machine
run_machine-Ends graph bounds owner zero machine store h lt = let le = h.2 in absurd (omega arith)
run_machine-Ends graph bounds owner (suc fuel) machine store h lt =
    elim (StepResult-cases (step graph bounds owner machine store)) [
      | inl (r, (s, e)) ↦
          rw (run_machine, e)
            (record { last = machine; live = store; reached = Reaches.here; stops = e })
      | inr (m, (s, e)) ↦
          let within =
            subst (Leaves (IsWithin bounds)) e (step-IsWithin graph bounds owner machine store h) in
          let counted =
            (subst (Leaves (Within (λ n. n ≡ machine.trace_entries + 1) bounds)) e
              (step-counts graph bounds owner machine store h)).2 in
          let rest = run_machine-Ends graph bounds owner fuel m s within (omega arith) in
          rw (run_machine, e)
            (record {
              last = rest.last;
              live = rest.live;
              reached = Reaches.round e rest.reached;
              stops = rest.stops;
            })
    ]

-- When the fuel is more than the bound on the trace, a run ends by itself and not for want of
-- fuel: it comes to a machine on which a round of the loop stops with the result of the run.
pub run-Ends :
    (graph : InstructionGraph) (bounds : KernelBytecodeBounds) (owner : ℕ) (store : Store)
    → bounds.maximum_trace_entries < bounds.vm_fuel
    → Ends graph bounds owner (initial_machine graph) store (run graph bounds owner store)
unfolding run
run-Ends graph bounds owner store lt =
    run_machine-Ends graph bounds owner bounds.vm_fuel (initial_machine graph) store
      (initial-IsWithin graph bounds) (omega arith)

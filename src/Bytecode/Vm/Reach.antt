-- ===== src/Bytecode/Vm/Reach.antt =====
-- src/kernel-bytecode/vm.ts: where a round of the loop, and the loop, leads to.
use semantic_systems.Base.{ℕ, ◌≡◌, refl, ◌⊎◌, inl, inr}
use semantic_systems.Bytecode.Instruction.{InstructionGraph, KernelBytecodeBounds}
use semantic_systems.Bytecode.Vm.State.{Machine, Store}
use semantic_systems.Bytecode.Vm.Step.{InternalResult, StepResult}
use semantic_systems.Bytecode.Vm.Run.{step}

-- The machine that goes on, or that a suspension holds, has the property.
abbrev pub Leaves : (Machine → Type 0) → StepResult → Type 0
Leaves P (StepResult.next machine store) = P machine
Leaves P (StepResult.stop (InternalResult.suspended q token) store) = P token.machine
Leaves P (StepResult.stop _ store) = Unit

-- A round stops or goes on.
pub StepResult-cases :
    (r : StepResult)
    → ((result : InternalResult) × ((store : Store) × (r ≡ StepResult.stop result store)))
      ⊎ ((machine : Machine) × ((store : Store) × (r ≡ StepResult.next machine store)))
StepResult-cases (StepResult.stop result store) = inl (result, (store, refl))
StepResult-cases (StepResult.next machine store) = inr (machine, (store, refl))

-- The machine that a suspension holds has the property.
abbrev pub Suspends : (Machine → Type 0) → InternalResult → Type 0
Suspends P (InternalResult.suspended q token) = P token.machine
Suspends P _ = Unit

pub stop-Suspends :
    (P : Machine → Type 0) (r : InternalResult) (store : Store)
    → Leaves P (StepResult.stop r store)
    → Suspends P r
stop-Suspends P (InternalResult.returned v) store h = tt
stop-Suspends P (InternalResult.suspended q token) store h = h
stop-Suspends P (InternalResult.failed e) store h = tt

-- The machines that the loop comes to, with the tokens that are live then.
pub data Reaches (graph : InstructionGraph) (bounds : KernelBytecodeBounds) (owner : ℕ)
    : Machine → Store → Machine → Store → Type 0 where
  here :
      {machine : Machine} {store : Store} → Reaches graph bounds owner machine store machine store
  round :
      {machine m : Machine} {store s : Store} {m' : Machine} {s' : Store}
      → step graph bounds owner machine store ≡ StepResult.next m s
      → Reaches graph bounds owner m s m' s'
      → Reaches graph bounds owner machine store m' s'

-- ===== src/Concurrency/Transitions.antt =====
-- src/structured-concurrency/oracle.ts: the events that the oracle accepts, as a step relation.
pub mod Decides
use semantic_systems.Base.{
  ℕ, ◌+◌, ◌≤◌, ◌<◌, ◌≡◌, ◌↔◌, refl, sym, inl, inr, Bool, true, false, not, ◌&&◌, [], ◌∷◌, ◌++◌,
  none, some, arith, length, leb, ltb, Bool-cases, Option-cases, get_elem?, and-eq-true,
  if◌then◌else◌,
}
use mathlib.Core.Path.{subst}
use semantic_systems.Kernel.Row.{Text, text_eq}
use semantic_systems.Concurrency.Schema.{
  TaskTerminalOutcome, TaskProgram, StructuredConcurrencyEvent, StructuredConcurrencyObservation,
  CancelSource, ScopeState, TaskState, DispatchResult, maximum_scopes, maximum_tasks,
  maximum_yields,
}
use semantic_systems.Concurrency.Tables.{true-false}
use semantic_systems.Concurrency.Oracle.{
  OracleScope, OracleTask, Oracle, Stepped, copy_authored_outcome, get_scope, get_task, is_open,
  is_suspended, is_owner, observe, touch_task, fail, change_task, open_scope, spawn, transfer,
  schedule_with, settle, dispatch, request_cancel, deliver_cancel, join_observation, join,
  exit_open, exit_scope, with_task, step,
}

-- The scope that `open_scope` adds and the task that `spawn` adds.
abbrev pub opened_scope : Text → Text → OracleScope
opened_scope scope parent = record {
  scope = scope;
  parent = some parent;
  state = ScopeState.opened;
}

abbrev pub spawned_task : Text → Text → TaskProgram → OracleTask
spawned_task task scope program = record {
  task = task;
  spawn_scope = scope;
  program = program;
  owner_scope = some scope;
  state = TaskState.suspended;
  next_step = 0;
  cancellation_requested = false;
  outcome = none;
}

-- The oracle accepts the event with index `i` and goes to the last oracle.
pub data Accepts (i : ℕ) (o : Oracle) : StructuredConcurrencyEvent → Oracle → Type 0 where
  opens :
      {scope parent : Text}
      → get_scope o.scopes scope ≡ none
      → is_open (get_scope o.scopes parent) ≡ true
      → length o.scopes < maximum_scopes
      → Accepts i o (StructuredConcurrencyEvent.open_scope scope parent) (
          observe
            (StructuredConcurrencyObservation.scope_opened i scope parent)
            (record o { scopes = o.scopes ++ opened_scope scope parent ∷ [] }))
  spawns :
      {task scope : Text} {program : TaskProgram}
      → get_task o.tasks task ≡ none
      → is_open (get_scope o.scopes scope) ≡ true
      → length o.tasks < maximum_tasks
      → o.total_yields + length program.yields ≤ maximum_yields
      → Accepts i o (StructuredConcurrencyEvent.spawn task scope program) (
          touch_task task i (
            observe (StructuredConcurrencyObservation.task_spawned i task scope) (record o {
              total_yields = o.total_yields + length program.yields;
              tasks = o.tasks ++ spawned_task task scope program ∷ [];
            })))
  transfers :
      {task from to : Text} {t : OracleTask}
      → get_task o.tasks task ≡ some t
      → is_suspended t ≡ true
      → is_owner t.owner_scope from ≡ true
      → text_eq from to ≡ false
      → is_open (get_scope o.scopes from) ≡ true
      → is_open (get_scope o.scopes to) ≡ true
      → Accepts i o (StructuredConcurrencyEvent.transfer task from to) (
          change_task i
            (record t { owner_scope = some to })
            (StructuredConcurrencyObservation.task_transferred i t.task from to)
            o)
  yields :
      {task label : Text} {t : OracleTask}
      → get_task o.tasks task ≡ some t
      → is_suspended t ≡ true
      → get_elem? t.program.yields t.next_step ≡ some label
      → Accepts i o (StructuredConcurrencyEvent.dispatch task) (
          schedule_with i t DispatchResult.yielded (
            change_task i
              (record t { next_step = t.next_step + 1 })
              (StructuredConcurrencyObservation.task_yielded i t.task t.next_step label)
              o))
  settles :
      {task : Text} {t : OracleTask}
      → get_task o.tasks task ≡ some t
      → is_suspended t ≡ true
      → get_elem? t.program.yields t.next_step ≡ none
      → Accepts i o (StructuredConcurrencyEvent.dispatch task) (
          schedule_with i t DispatchResult.settled (
            change_task i
              (settle
                (record t { next_step = t.next_step + 1 })
                (copy_authored_outcome t.program.terminal))
              (StructuredConcurrencyObservation.task_settled i t.task
                (copy_authored_outcome t.program.terminal))
              o))
  requests :
      {task : Text} {t : OracleTask}
      → get_task o.tasks task ≡ some t
      → is_suspended t ≡ true
      → Accepts i o (StructuredConcurrencyEvent.request_cancel task) (
          change_task i
            (record t { cancellation_requested = true })
            (StructuredConcurrencyObservation.cancel_requested i t.task CancelSource.explicit
              (not t.cancellation_requested))
            o)
  delivers :
      {task : Text} {t : OracleTask}
      → get_task o.tasks task ≡ some t
      → is_suspended t ≡ true
      → t.cancellation_requested ≡ true
      → Accepts i o (StructuredConcurrencyEvent.deliver_cancel task) (
          change_task i
            (settle t TaskTerminalOutcome.cancelled)
            (StructuredConcurrencyObservation.task_settled i t.task TaskTerminalOutcome.cancelled)
            o)
  joins :
      {task : Text} {t : OracleTask}
      → get_task o.tasks task ≡ some t
      → Accepts i o
          (StructuredConcurrencyEvent.join task)
          (touch_task t.task i (observe (join_observation i t) o))
  exits :
      {scope : Text} {s : OracleScope}
      → get_scope o.scopes scope ≡ some s
      → is_open (some s) ≡ true
      → Accepts i o (StructuredConcurrencyEvent.exit_scope scope) (exit_open i s o)

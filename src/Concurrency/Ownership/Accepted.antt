-- ===== src/Concurrency/Ownership/Accepted.antt =====
-- src/structured-concurrency/oracle.ts: an accepted event keeps the ownership.
use semantic_systems.Base.{
  ℕ, ◌+◌, ◌≡◌, refl, inr, true, List, [], ◌∷◌, ◌++◌, Option, some, All-append, All-map,
}
use semantic_systems.Kernel.Row.{Text}
use semantic_systems.Concurrency.Schema.{
  TaskProgram, TaskTerminalOutcome, ScheduleDecision, StructuredConcurrencyEvent,
}
use semantic_systems.Concurrency.Oracle.{
  copy_authored_outcome, OracleScope, OracleTask, Oracle, get_scope, is_open, is_suspended, settle,
  exit_open,
}
use semantic_systems.Concurrency.Run.{owner_is_open, is_singly_owned}
use semantic_systems.Concurrency.Tables.{get_task-at}
use semantic_systems.Concurrency.Transitions.{opened_scope, spawned_task, Accepts}
use semantic_systems.Concurrency.Ownership.{
  IsOwned, IsNested, OwnedOracle, open-IsOwned, owner_is_open-pushed, IsOwned-map, IsNested-map,
  OwnedOracle-observe, OwnedOracle-touch, OwnedOracle-change, finish_exit-Owned,
}

opened_parent :
    (o : Oracle) (scope : Text)
    → is_open (get_scope o.scopes scope) ≡ true
    → owner_is_open o.scopes (some scope) ≡ true
unfolding owner_is_open
opened_parent o scope h = h

suspended_spawned :
    (task scope : Text) (program : TaskProgram)
    → is_suspended (spawned_task task scope program) ≡ true
unfolding is_suspended
suspended_spawned task scope program = refl

same_state :
    (t : OracleTask) (owner : Option Text)
    → is_suspended t ≡ true
    → is_suspended (record t { owner_scope = owner }) ≡ true
unfolding is_suspended
same_state t owner h = h

next_step-Owned :
    (scopes : List OracleScope) (t : OracleTask) (n : ℕ)
    → IsOwned scopes t
    → IsOwned scopes (record t { next_step = n })
unfolding is_singly_owned
next_step-Owned scopes t n h = h

cancellation-Owned :
    (scopes : List OracleScope) (t : OracleTask)
    → IsOwned scopes t
    → IsOwned scopes (record t { cancellation_requested = true })
unfolding is_singly_owned
cancellation-Owned scopes t h = h

settle-Owned :
    (scopes : List OracleScope) (t : OracleTask) (outcome : TaskTerminalOutcome)
    → IsOwned scopes (settle t outcome)
unfolding settle is_singly_owned
settle-Owned scopes t outcome = refl

same_schedule :
    {o : Oracle} {schedule : List ScheduleDecision}
    → OwnedOracle o
    → OwnedOracle (record o { schedule = schedule })
same_schedule h = record { tasks = h.tasks; scopes = h.scopes }

-- An accepted event keeps the ownership.
pub Accepts-Owned :
    (i : ℕ) (e : StructuredConcurrencyEvent) (o o' : Oracle)
    → Accepts i o e o'
    → OwnedOracle o
    → OwnedOracle o'
unfolding exit_open settle
Accepts-Owned i e o o' (Accepts.opens {scope = scope} {parent = parent} free opened room) h =
    OwnedOracle-observe _ _ (record {
      tasks =
          All-map _ (IsOwned (o.scopes ++ opened_scope scope parent ∷ [])) o.tasks
            (λ t. IsOwned-map o.scopes _ t (owner_is_open-pushed o.scopes _ t.owner_scope)) h.tasks;
      scopes =
          All-append (IsNested (o.scopes ++ opened_scope scope parent ∷ [])) o.scopes _
            (All-map _ _ o.scopes
              (λ s. IsNested-map o.scopes _ s (owner_is_open-pushed o.scopes _ s.parent)) h.scopes)
            (
              (λ inside.
                  inr (
                    owner_is_open-pushed o.scopes _ (some parent) (opened_parent o parent opened))),
              tt,
            );
    })
Accepts-Owned i e o o'
      (Accepts.spawns {task = task} {scope = scope} {program = program} free opened room few) h =
    OwnedOracle-touch _ task i (
      OwnedOracle-observe _ _ (record {
        tasks = All-append (IsOwned o.scopes) o.tasks _ h.tasks (
          open-IsOwned o.scopes (spawned_task task scope program)
              (suspended_spawned task scope program) (opened_parent o scope opened),
          tt,
        );
        scopes = h.scopes;
      }))
Accepts-Owned i e o o' (Accepts.transfers {to = to} {t = t} found live owned differ source target)
      h =
    OwnedOracle-change o i (record t { owner_scope = some to }) _ h
      (open-IsOwned o.scopes (record t { owner_scope = some to }) (same_state t (some to) live)
        (opened_parent o to target))
Accepts-Owned i e o o' (Accepts.yields {task = task} {t = t} found live more) h = same_schedule (
    OwnedOracle-change o i (record t { next_step = t.next_step + 1 }) _ h
      (next_step-Owned o.scopes t (t.next_step + 1)
        (get_task-at (IsOwned o.scopes) o.tasks task t h.tasks found)))
Accepts-Owned i e o o' (Accepts.settles {t = t} found live done) h = same_schedule (
    OwnedOracle-change o i _ _ h (
      settle-Owned o.scopes (record t { next_step = t.next_step + 1 })
        (copy_authored_outcome t.program.terminal)))
Accepts-Owned i e o o' (Accepts.requests {task = task} {t = t} found live) h =
    OwnedOracle-change o i (record t { cancellation_requested = true }) _ h
      (cancellation-Owned o.scopes t (get_task-at (IsOwned o.scopes) o.tasks task t h.tasks found))
Accepts-Owned i e o o' (Accepts.delivers {t = t} found live asked) h =
    OwnedOracle-change o i _ _ h (settle-Owned o.scopes t TaskTerminalOutcome.cancelled)
Accepts-Owned i e o o' (Accepts.joins {t = t} found) h =
    OwnedOracle-touch _ t.task i (OwnedOracle-observe o _ h)
Accepts-Owned i e o o' (Accepts.exits {s = s} found opened) h =
    finish_exit-Owned i s _ _ o refl refl h

-- ===== src/Concurrency/Run.antt =====
-- src/structured-concurrency/oracle.ts: `runStructuredConcurrencyOracle`, its loop and its report.
use semantic_systems.Base.{
  ℕ, ◌+◌, Bool, true, false, not, ◌&&◌, ◌||◌, List, [], ◌∷◌, ◌++◌, map, Option, none, some, ltb,
  leb, ◌==◌, length, filter, sort_by, every, ◌⊎◌, inl, inr,
}
use semantic_systems.Kernel.Row.{Text, text_eq, text_le}
use semantic_systems.Concurrency.Schema.{
  TaskTerminalOutcome, StructuredConcurrencyEvent, StructuredConcurrencyScript, ExitResult,
  StructuredConcurrencyObservation, ScopeState, TaskState, StructuredConcurrencyScopeReport,
  StructuredConcurrencyTaskReport, ScheduleDecision, StructuredConcurrencyLaws,
  StructuredConcurrencyRun, StructuredConcurrencyFailure,
}
use semantic_systems.Concurrency.Oracle.{
  OracleScope, OracleTask, Oracle, Stepped, same_outcome, get_scope, get_task, is_open, step,
}

-- The loop over the events from an index on.
unfoldable pub run_events : ℕ → List StructuredConcurrencyEvent → Oracle → Stepped
unfolding step
run_events i [] oracle = inr oracle
run_events i (event ∷ events) oracle = elim (step i event oracle) [
  | inl failure ↦ inl failure
  | inr oracle' ↦ run_events (i + 1) events oracle'
]

abbrev pub task_report : OracleTask → StructuredConcurrencyTaskReport
task_report t = record {
  task = t.task;
  spawn_scope = t.spawn_scope;
  owner_scope = t.owner_scope;
  state = t.state;
  next_step = t.next_step;
  cancellation_requested = t.cancellation_requested;
  outcome = t.outcome;
}

unfoldable pub scope_reports : List OracleScope → List StructuredConcurrencyScopeReport
unfolding sort_by text_le
scope_reports scopes = sort_by (λ left right. text_le left.scope right.scope) scopes

unfoldable pub task_reports : List OracleTask → List StructuredConcurrencyTaskReport
unfolding sort_by text_le
task_reports tasks = map task_report (sort_by (λ left right. text_le left.task right.task) tasks)

-- `task.owner_scope !== null && scopes.get(task.owner_scope)?.state === "open"`.
unfoldable pub owner_is_open : List OracleScope → Option Text → Bool
unfolding get_scope is_open
owner_is_open scopes none = false
owner_is_open scopes (some owner) = is_open (get_scope scopes owner)

abbrev pub is_none {ℓ} : {A : Type ℓ} → Option A → Bool
is_none none = true
is_none (some a) = false

unfoldable pub is_singly_owned : List OracleScope → StructuredConcurrencyTaskReport → Bool
unfolding owner_is_open
is_singly_owned scopes t = elim t.state [
  | TaskState.terminal ↦ is_none t.owner_scope && not (is_none t.outcome)
  | TaskState.suspended ↦ owner_is_open scopes t.owner_scope
]

unfoldable pub exit_waits : StructuredConcurrencyObservation → Bool
exit_waits (StructuredConcurrencyObservation.scope_exit i scope ExitResult.closed children live) =
    length children == 0 && length live == 0
exit_waits (StructuredConcurrencyObservation.scope_exit i scope ExitResult.blocked children live) =
    ltb 0 (length children) || ltb 0 (length live)
exit_waits _ = true

unfoldable pub outcome_is : Option OracleTask → TaskTerminalOutcome → Bool
unfolding same_outcome
outcome_is none joined = false
outcome_is (some t) joined = elim t.outcome [
  | none ↦ false
  | some outcome ↦ same_outcome joined outcome
]

-- The test of `stable_terminal_join`, which is made of the `join-observed` observations only.
unfoldable pub join_is_stable : List OracleTask → StructuredConcurrencyObservation → Bool
unfolding outcome_is get_task
join_is_stable tasks (StructuredConcurrencyObservation.join_observed i task outcome) =
    outcome_is (get_task tasks task) outcome
join_is_stable tasks _ = true

unfoldable pub is_first_request : Text → StructuredConcurrencyObservation → Bool
unfolding text_eq
is_first_request task (StructuredConcurrencyObservation.cancel_requested i requested source first) =
    text_eq requested task && first
is_first_request task _ = false

unfoldable pub is_dispatch : StructuredConcurrencyEvent → Bool
is_dispatch (StructuredConcurrencyEvent.dispatch task) = true
is_dispatch _ = false

-- The decisions from an index on, after those in `earlier`: each has its index, and a later step
-- than the earlier decisions on its task.
unfoldable pub is_one_shot : List ScheduleDecision → List ScheduleDecision → Bool
unfolding every filter text_eq
is_one_shot earlier [] = true
is_one_shot earlier (decision ∷ schedule) =
    (decision.dispatch_index == length earlier
      && every (λ d. ltb d.step_index decision.step_index)
          (filter (λ d. text_eq d.task decision.task) earlier))
    && is_one_shot (earlier ++ decision ∷ []) schedule

unfoldable pub laws_of : StructuredConcurrencyScript → Oracle → StructuredConcurrencyLaws
unfolding every filter is_singly_owned exit_waits join_is_stable is_first_request is_dispatch
    is_one_shot task_reports
laws_of script oracle = record {
  singular_ownership = every (is_singly_owned oracle.scopes) (task_reports oracle.tasks);
  scope_exit_waits = every exit_waits oracle.observations;
  stable_terminal_join = every (join_is_stable oracle.tasks) oracle.observations;
  idempotent_cancel_request =
      every (λ t. leb (length (filter (is_first_request t.task) oracle.observations)) 1)
        (task_reports oracle.tasks);
  one_shot_dispatch =
      length (filter is_dispatch script.events) == length oracle.schedule
      && is_one_shot [] oracle.schedule;
}

abbrev pub initial_oracle : Text → Oracle
initial_oracle root_scope = record {
  scopes = record { scope = root_scope; parent = none; state = ScopeState.opened } ∷ [];
  tasks = [];
  observations = [];
  schedule = [];
  happens_before = [];
  last_task_event = [];
  total_yields = 0;
}

unfoldable pub report_of : StructuredConcurrencyScript → Oracle → StructuredConcurrencyRun
unfolding laws_of scope_reports task_reports
report_of script oracle = record {
  observations = oracle.observations;
  scopes = scope_reports oracle.scopes;
  tasks = task_reports oracle.tasks;
  schedule = oracle.schedule;
  happens_before = oracle.happens_before;
  laws = laws_of script oracle;
}

unfoldable pub run_oracle :
    StructuredConcurrencyScript → StructuredConcurrencyFailure ⊎ StructuredConcurrencyRun
unfolding run_events report_of
run_oracle script = elim (run_events 0 script.events (initial_oracle script.root_scope)) [
  | inl failure ↦ inl failure
  | inr oracle ↦ inr (report_of script oracle)
]

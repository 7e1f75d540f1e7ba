-- ===== src/Concurrency/Tests.antt =====
-- Scripts for the oracle of src/structured-concurrency/oracle.ts, and the theorems at them.
use semantic_systems.Base.{
  ◌≡◌, refl, ◌↔◌, false, [], ◌∷◌, inl, inr, ◌⊎◌, every, filter, sort_by, insert_by, All,
}
use semantic_systems.Kernel.Row.{Text, text_eq, text_le, compare_code_points}
use semantic_systems.Concurrency.Schema.{
  AuthoredTaskOutcome, StructuredConcurrencyEvent, StructuredConcurrencyScript,
  StructuredConcurrencyRun, StructuredConcurrencyFailure, StructuredConcurrencyLaws,
}
use semantic_systems.Concurrency.Oracle.{
  Oracle, Stepped, copy_authored_outcome, same_outcome, get_scope, get_task, put_scope, put_task,
  is_open, is_suspended, is_owner, get_last, put_last, observe, with_edge, touch_task, fail,
  change_task, open_scope, spawn, transfer, settle, dispatch, request_cancel, deliver_cancel,
  join_observation, join, open_children, live_tasks, request_each, finish_exit, exit_open,
  exit_scope, with_task, step,
}
use semantic_systems.Concurrency.Run.{
  run_events, scope_reports, task_reports, owner_is_open, is_singly_owned, exit_waits, outcome_is,
  join_is_stable, is_first_request, is_dispatch, is_one_shot, laws_of, initial_oracle, report_of,
  run_oracle,
}
use semantic_systems.Concurrency.Ownership.{IsOwned}
use semantic_systems.Concurrency.Exits.{Exits}
use semantic_systems.Concurrency.Rejections.{FailsFirst, run_oracle-FailsFirst}
use semantic_systems.Concurrency.Closing.{Continues, IsClosed, run_oracle-Continues}
use semantic_systems.Concurrency.Report.{Hold, IsInside, run_events-Owned, run_oracle-Hold}

-- "r", "c" and "t".
abbrev root : Text
root = 114 ∷ []

abbrev child : Text
child = 99 ∷ []

abbrev worker : Text
worker = 116 ∷ []

-- A task in a child scope that yields, is joined, is moved to the root, is asked to stop by the
-- exit of the root and stops, and is joined again; then both scopes are closed.
abbrev script : StructuredConcurrencyScript
script = record {
  root_scope = root;
  events =
      StructuredConcurrencyEvent.open_scope child root
      ∷ StructuredConcurrencyEvent.spawn worker child
          (record { yields = (121 ∷ []) ∷ []; terminal = AuthoredTaskOutcome.succeeded })
      ∷ StructuredConcurrencyEvent.dispatch worker
      ∷ StructuredConcurrencyEvent.join worker
      ∷ StructuredConcurrencyEvent.transfer worker child root
      ∷ StructuredConcurrencyEvent.exit_scope root
      ∷ StructuredConcurrencyEvent.deliver_cancel worker
      ∷ StructuredConcurrencyEvent.join worker
      ∷ StructuredConcurrencyEvent.exit_scope child
      ∷ StructuredConcurrencyEvent.exit_scope root
      ∷ [];
}

abbrev no_laws : StructuredConcurrencyLaws
no_laws = record {
  singular_ownership = false;
  scope_exit_waits = false;
  stable_terminal_join = false;
  idempotent_cancel_request = false;
  one_shot_dispatch = false;
}

abbrev run_or_empty :
    StructuredConcurrencyFailure ⊎ StructuredConcurrencyRun → StructuredConcurrencyRun
run_or_empty (inr run) = run
run_or_empty (inl failure) = record {
  observations = [];
  scopes = [];
  tasks = [];
  schedule = [];
  happens_before = [];
  laws = no_laws;
}

abbrev oracle_or_first : Stepped → Oracle
oracle_or_first (inr oracle) = oracle
oracle_or_first (inl failure) = initial_oracle root

abbrev script_run : StructuredConcurrencyRun
script_run = run_or_empty (run_oracle script)

abbrev script_oracle : Oracle
script_oracle = oracle_or_first (run_events 0 script.events (initial_oracle root))

script_is_accepted : run_oracle script ≡ inr script_run
unfolding every filter sort_by insert_by text_eq text_le compare_code_points copy_authored_outcome
    same_outcome get_scope get_task put_scope put_task is_open is_suspended is_owner get_last
    put_last observe with_edge touch_task fail change_task open_scope spawn transfer settle dispatch
    request_cancel deliver_cancel join_observation join open_children live_tasks request_each
    finish_exit exit_open exit_scope with_task step run_events scope_reports task_reports
    owner_is_open is_singly_owned exit_waits outcome_is join_is_stable is_first_request is_dispatch
    is_one_shot laws_of report_of run_oracle
script_is_accepted = refl

events_are_accepted : run_events 0 script.events (initial_oracle root) ≡ inr script_oracle
unfolding every filter sort_by insert_by text_eq text_le compare_code_points copy_authored_outcome
    same_outcome get_scope get_task put_scope put_task is_open is_suspended is_owner get_last
    put_last observe with_edge touch_task fail change_task open_scope spawn transfer settle dispatch
    request_cancel deliver_cancel join_observation join open_children live_tasks request_each
    finish_exit exit_open exit_scope with_task step run_events
events_are_accepted = refl

run_oracle-Hold_example : Hold script_run.laws
run_oracle-Hold_example = run_oracle-Hold script script_run script_is_accepted

run_events-Owned_example :
    All (IsOwned script_oracle.scopes) script_oracle.tasks
    × All (IsInside script_oracle.scopes) script_oracle.scopes
run_events-Owned_example = run_events-Owned script script_oracle events_are_accepted

-- A script that is rejected at its second event: the task was never spawned.
abbrev rejected_script : StructuredConcurrencyScript
rejected_script = record {
  root_scope = root;
  events =
      StructuredConcurrencyEvent.open_scope child root
      ∷ StructuredConcurrencyEvent.dispatch worker
      ∷ StructuredConcurrencyEvent.exit_scope child
      ∷ [];
}

abbrev missing_task : StructuredConcurrencyFailure
missing_task = record { code = "task.missing"; event_index = 1; field = "task" }

script_is_rejected : run_oracle rejected_script ≡ inl missing_task
unfolding text_eq get_scope get_task is_open observe fail open_scope with_task step run_events
    run_oracle
script_is_rejected = refl

run_oracle-FailsFirst_example :
    (run_oracle rejected_script ≡ inl missing_task)
    ↔ FailsFirst 0 (initial_oracle root) rejected_script.events missing_task
run_oracle-FailsFirst_example = run_oracle-FailsFirst rejected_script missing_task

-- A script that stops with a live task in an open scope.
abbrev unfinished_script : StructuredConcurrencyScript
unfinished_script = record {
  root_scope = root;
  events =
      StructuredConcurrencyEvent.open_scope child root
      ∷ StructuredConcurrencyEvent.spawn worker child
          (record { yields = (121 ∷ []) ∷ []; terminal = AuthoredTaskOutcome.succeeded })
      ∷ StructuredConcurrencyEvent.exit_scope root
      ∷ [];
}

abbrev unfinished_run : StructuredConcurrencyRun
unfinished_run = run_or_empty (run_oracle unfinished_script)

unfinished_is_accepted : run_oracle unfinished_script ≡ inr unfinished_run
unfolding every filter sort_by insert_by text_eq text_le compare_code_points copy_authored_outcome
    same_outcome get_scope get_task put_scope put_task is_open is_suspended is_owner get_last
    put_last observe with_edge touch_task fail change_task open_scope spawn transfer settle dispatch
    request_cancel deliver_cancel join_observation join open_children live_tasks request_each
    finish_exit exit_open exit_scope with_task step run_events scope_reports task_reports
    owner_is_open is_singly_owned exit_waits outcome_is join_is_stable is_first_request is_dispatch
    is_one_shot laws_of report_of run_oracle
unfinished_is_accepted = refl

run_oracle-Continues_example : Continues IsClosed unfinished_script
run_oracle-Continues_example =
    run_oracle-Continues unfinished_script unfinished_run unfinished_is_accepted

abbrev unfinished_oracle : Oracle
unfinished_oracle = oracle_or_first (run_events 0 unfinished_script.events (initial_oracle root))

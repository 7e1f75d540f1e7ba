-- ===== src/Concurrency/Oracle.antt =====
-- src/structured-concurrency/oracle.ts: the state of the oracle and the events.
-- A `Map` is the list of its values in the order of insertion, each with its key, and an object
-- that the source changes in place is put back under its key.
use semantic_systems.Base.{
  ℕ, ◌+◌, String, Bool, true, false, not, ◌&&◌, List, [], ◌∷◌, ◌++◌, map, Option, none, some, ltb,
  leb, ◌==◌, if◌then◌else◌, length, get_elem?, filter, sort_by, ◌⊎◌, inl, inr,
}
use semantic_systems.Kernel.Row.{Text, text_eq, text_le}
use semantic_systems.Concurrency.Schema.{
  TaskTerminalOutcome, AuthoredTaskOutcome, TaskProgram, StructuredConcurrencyEvent, CancelSource,
  ExitResult, StructuredConcurrencyObservation, ScopeState, TaskState,
  StructuredConcurrencyScopeReport, DispatchResult, ScheduleDecision, TaskHappensBefore,
  StructuredConcurrencyFailure, maximum_scopes, maximum_tasks, maximum_yields,
}

abbrev pub OracleScope : Type 0
OracleScope = StructuredConcurrencyScopeReport

pub record OracleTask : Type 0 where
  pub task : Text
  pub spawn_scope : Text
  pub program : TaskProgram
  pub owner_scope : Option Text
  pub state : TaskState
  pub next_step : ℕ
  pub cancellation_requested : Bool
  pub outcome : Option TaskTerminalOutcome

-- An entry of `lastTaskEvent`.
pub record LastEvent : Type 0 where
  pub task : Text
  pub event_index : ℕ

pub record Oracle : Type 0 where
  pub scopes : List OracleScope
  pub tasks : List OracleTask
  pub observations : List StructuredConcurrencyObservation
  pub schedule : List ScheduleDecision
  pub happens_before : List TaskHappensBefore
  pub last_task_event : List LastEvent
  pub total_yields : ℕ

-- `copyAuthoredOutcome`.
unfoldable pub copy_authored_outcome : AuthoredTaskOutcome → TaskTerminalOutcome
copy_authored_outcome AuthoredTaskOutcome.succeeded = TaskTerminalOutcome.succeeded
copy_authored_outcome (AuthoredTaskOutcome.failed message) = TaskTerminalOutcome.failed message

unfoldable pub same_outcome : TaskTerminalOutcome → TaskTerminalOutcome → Bool
unfolding text_eq
same_outcome TaskTerminalOutcome.succeeded TaskTerminalOutcome.succeeded = true
same_outcome TaskTerminalOutcome.cancelled TaskTerminalOutcome.cancelled = true
same_outcome (TaskTerminalOutcome.failed left) (TaskTerminalOutcome.failed right) =
    text_eq left right
same_outcome _ _ = false

-- `scopes.get(scope)` and `tasks.get(task)`.
unfoldable pub get_scope : List OracleScope → Text → Option OracleScope
get_scope [] scope = none
get_scope (s ∷ scopes) scope = if text_eq s.scope scope then some s else get_scope scopes scope

unfoldable pub get_task : List OracleTask → Text → Option OracleTask
get_task [] task = none
get_task (t ∷ tasks) task = if text_eq t.task task then some t else get_task tasks task

-- The list with the changed object under its key.
unfoldable pub put_scope : OracleScope → List OracleScope → List OracleScope
put_scope changed [] = []
put_scope changed (s ∷ scopes) =
    if text_eq s.scope changed.scope then changed ∷ scopes else s ∷ put_scope changed scopes

unfoldable pub put_task : OracleTask → List OracleTask → List OracleTask
put_task changed [] = []
put_task changed (t ∷ tasks) =
    if text_eq t.task changed.task then changed ∷ tasks else t ∷ put_task changed tasks

-- `scopes.get(scope)?.state === "open"`.
unfoldable pub is_open : Option OracleScope → Bool
is_open none = false
is_open (some s) = elim s.state [ ScopeState.opened ↦ true | ScopeState.closed ↦ false ]

unfoldable pub is_suspended : OracleTask → Bool
is_suspended t = elim t.state [ TaskState.suspended ↦ true | TaskState.terminal ↦ false ]

-- `candidate.ownerScope === scope`.
unfoldable pub is_owner : Option Text → Text → Bool
unfolding text_eq
is_owner none scope = false
is_owner (some owner) scope = text_eq owner scope

unfoldable pub get_last : List LastEvent → Text → Option ℕ
get_last [] task = none
get_last (e ∷ last) task = if text_eq e.task task then some e.event_index else get_last last task

unfoldable pub put_last : Text → ℕ → List LastEvent → List LastEvent
put_last task i [] = record { task = task; event_index = i } ∷ []
put_last task i (e ∷ last) =
    if text_eq e.task task
    then record { task = task; event_index = i } ∷ last
    else e ∷ put_last task i last

unfoldable pub observe : StructuredConcurrencyObservation → Oracle → Oracle
observe o oracle = record oracle { observations = oracle.observations ++ o ∷ [] }

-- The edges after an event of a task with the previous event of that task, if there is one.
unfoldable pub with_edge : Option ℕ → Text → ℕ → List TaskHappensBefore → List TaskHappensBefore
with_edge none task i edges = edges
with_edge (some previous) task i edges =
    if previous == i
    then edges
    else edges ++ record { task = task; before_event_index = previous; after_event_index = i } ∷ []

unfoldable pub touch_task : Text → ℕ → Oracle → Oracle
unfolding get_last put_last with_edge
touch_task task i oracle = record oracle {
  last_task_event = put_last task i oracle.last_task_event;
  happens_before = with_edge (get_last oracle.last_task_event task) task i oracle.happens_before;
}

abbrev pub Stepped : Type 0
Stepped = StructuredConcurrencyFailure ⊎ Oracle

unfoldable pub fail : String → ℕ → String → Stepped
fail code i field = inl (record { code = code; event_index = i; field = field })

-- The task after an event, with what was observed.
unfoldable pub change_task : ℕ → OracleTask → StructuredConcurrencyObservation → Oracle → Oracle
unfolding put_task observe touch_task
change_task i t o oracle =
    touch_task t.task i (observe o (record oracle { tasks = put_task t oracle.tasks }))

unfoldable pub open_scope : ℕ → Text → Text → Oracle → Stepped
unfolding get_scope is_open observe fail
open_scope i scope parent oracle = elim (get_scope oracle.scopes scope) [
  | some used ↦ fail "scope.identity-duplicate" i "scope"
  | none ↦
      if is_open (get_scope oracle.scopes parent)
      then if leb maximum_scopes (length oracle.scopes)
        then fail "scope.limit-exceeded" i ""
        else inr (
            observe (StructuredConcurrencyObservation.scope_opened i scope parent) (record oracle {
              scopes =
                  oracle.scopes
                  ++ record { scope = scope; parent = some parent; state = ScopeState.opened } ∷ [];
            }))
      else fail "scope.parent-not-open" i "parent"
]

unfoldable pub spawn : ℕ → Text → Text → TaskProgram → Oracle → Stepped
unfolding get_task get_scope is_open observe touch_task fail
spawn i task scope program oracle = elim (get_task oracle.tasks task) [
  | some used ↦ fail "task.identity-duplicate" i "task"
  | none ↦
      if is_open (get_scope oracle.scopes scope)
      then if leb maximum_tasks (length oracle.tasks)
        then fail "task.limit-exceeded" i ""
        else if ltb maximum_yields (oracle.total_yields + length program.yields)
        then fail "yield.limit-exceeded" i "program/yields"
        else inr (
            touch_task task i (
              observe (StructuredConcurrencyObservation.task_spawned i task scope) (record oracle {
                total_yields = oracle.total_yields + length program.yields;
                tasks =
                    oracle.tasks
                    ++ record {
                      task = task;
                      spawn_scope = scope;
                      program = program;
                      owner_scope = some scope;
                      state = TaskState.suspended;
                      next_step = 0;
                      cancellation_requested = false;
                      outcome = none;
                    }
                      ∷ [];
              })))
      else fail "scope.not-open" i "scope"
]

unfoldable pub transfer : ℕ → OracleTask → Text → Text → Oracle → Stepped
unfolding is_suspended is_owner get_scope is_open text_eq change_task fail
transfer i t from to oracle =
    if is_suspended t && is_owner t.owner_scope from
    then if text_eq from to
      then fail "task.transfer-same-scope" i "to_scope"
      else if is_open (get_scope oracle.scopes from) && is_open (get_scope oracle.scopes to)
      then inr (
          change_task i (record t { owner_scope = some to })
            (StructuredConcurrencyObservation.task_transferred i t.task from to) oracle)
      else fail "scope.transfer-not-open" i ""
    else fail "task.owner-mismatch" i "from_scope"

-- The schedule with a decision at its end.
abbrev pub schedule_with : ℕ → OracleTask → DispatchResult → Oracle → Oracle
schedule_with i t result oracle = record oracle {
  schedule =
      oracle.schedule
      ++ record {
        dispatch_index = length oracle.schedule;
        event_index = i;
        task = t.task;
        step_index = t.next_step;
        result = result;
      }
        ∷ [];
}

unfoldable pub settle : OracleTask → TaskTerminalOutcome → OracleTask
settle t outcome = record t {
  state = TaskState.terminal;
  owner_scope = none;
  outcome = some outcome;
}

unfoldable pub dispatch : ℕ → OracleTask → Oracle → Stepped
unfolding is_suspended change_task copy_authored_outcome settle fail
dispatch i t oracle =
    if is_suspended t
    then elim (get_elem? t.program.yields t.next_step) [
      | some label ↦ inr (
          schedule_with i t DispatchResult.yielded (
            change_task i (record t { next_step = t.next_step + 1 })
              (StructuredConcurrencyObservation.task_yielded i t.task t.next_step label) oracle))
      | none ↦ inr (
          schedule_with i t DispatchResult.settled (
            change_task i
              (settle (record t { next_step = t.next_step + 1 })
                (copy_authored_outcome t.program.terminal))
              (StructuredConcurrencyObservation.task_settled i t.task
                (copy_authored_outcome t.program.terminal))
              oracle))
    ]
    else fail "task.already-terminal" i "task"

unfoldable pub request_cancel : ℕ → OracleTask → Oracle → Stepped
unfolding is_suspended change_task fail
request_cancel i t oracle =
    if is_suspended t
    then inr (
        change_task i (record t { cancellation_requested = true })
          (StructuredConcurrencyObservation.cancel_requested i t.task CancelSource.explicit
            (not t.cancellation_requested))
          oracle)
    else fail "task.already-terminal" i "task"

unfoldable pub deliver_cancel : ℕ → OracleTask → Oracle → Stepped
unfolding is_suspended change_task settle fail
deliver_cancel i t oracle =
    if is_suspended t
    then if t.cancellation_requested
      then inr (
          change_task i (settle t TaskTerminalOutcome.cancelled)
            (StructuredConcurrencyObservation.task_settled i t.task TaskTerminalOutcome.cancelled)
            oracle)
      else fail "cancel.not-requested" i "task"
    else fail "task.already-terminal" i "task"

unfoldable pub join_observation : ℕ → OracleTask → StructuredConcurrencyObservation
join_observation i t = elim t.outcome [
  | none ↦ StructuredConcurrencyObservation.join_blocked i t.task
  | some outcome ↦ StructuredConcurrencyObservation.join_observed i t.task outcome
]

unfoldable pub join : ℕ → OracleTask → Oracle → Stepped
unfolding join_observation observe touch_task
join i t oracle = inr (touch_task t.task i (observe (join_observation i t) oracle))

-- `openChildren` and `liveTasks` of `exit_scope`.
unfoldable pub open_children : List OracleScope → Text → List Text
unfolding filter sort_by is_owner is_open text_le
open_children scopes scope =
    sort_by text_le
      (map (λ s. s.scope) (filter (λ s. is_owner s.parent scope && is_open (some s)) scopes))

unfoldable pub live_tasks : List OracleTask → Text → List OracleTask
unfolding filter sort_by is_owner is_suspended text_le
live_tasks tasks scope =
    sort_by (λ left right. text_le left.task right.task)
      (filter (λ t. is_owner t.owner_scope scope && is_suspended t) tasks)

-- The loop that requests the cancellation of the live tasks.
unfoldable pub request_each : ℕ → List OracleTask → Oracle → Oracle
unfolding change_task
request_each i [] oracle = oracle
request_each i (t ∷ live) oracle = request_each i live (
    change_task i (record t { cancellation_requested = true })
      (StructuredConcurrencyObservation.cancel_requested i t.task CancelSource.scope_exit
        (not t.cancellation_requested))
      oracle)

-- The end of `exit_scope`: the scope closes when nothing is open or live in it.
unfoldable pub finish_exit : ℕ → OracleScope → List Text → List OracleTask → Oracle → Oracle
unfolding put_scope observe
finish_exit i s [] [] oracle =
    observe (StructuredConcurrencyObservation.scope_exit i s.scope ExitResult.closed [] [])
      (record oracle { scopes = put_scope (record s { state = ScopeState.closed }) oracle.scopes })
finish_exit i s children live oracle =
    observe
      (StructuredConcurrencyObservation.scope_exit i s.scope ExitResult.blocked children
        (map (λ t. t.task) live))
      oracle

unfoldable pub exit_open : ℕ → OracleScope → Oracle → Oracle
unfolding open_children live_tasks request_each finish_exit
exit_open i s oracle =
    finish_exit i s (open_children oracle.scopes s.scope) (live_tasks oracle.tasks s.scope)
      (request_each i (live_tasks oracle.tasks s.scope) oracle)

unfoldable pub exit_scope : ℕ → Text → Oracle → Stepped
unfolding get_scope is_open exit_open fail
exit_scope i scope oracle = elim (get_scope oracle.scopes scope) [
  | none ↦ fail "scope.not-open" i "scope"
  | some s ↦
      if is_open (some s) then inr (exit_open i s oracle) else fail "scope.not-open" i "scope"
]

-- `requireTask`, and what follows with the task.
unfoldable pub with_task : ℕ → Text → (OracleTask → Oracle → Stepped) → Oracle → Stepped
unfolding get_task fail
with_task i task act oracle = elim (get_task oracle.tasks task) [
  | none ↦ fail "task.missing" i "task"
  | some t ↦ act t oracle
]

unfoldable pub step : ℕ → StructuredConcurrencyEvent → Oracle → Stepped
unfolding open_scope spawn transfer dispatch request_cancel deliver_cancel join exit_scope with_task
step i (StructuredConcurrencyEvent.open_scope scope parent) oracle =
    open_scope i scope parent oracle
step i (StructuredConcurrencyEvent.spawn task scope program) oracle =
    spawn i task scope program oracle
step i (StructuredConcurrencyEvent.transfer task from to) oracle =
    with_task i task (λ t. transfer i t from to) oracle
step i (StructuredConcurrencyEvent.dispatch task) oracle = with_task i task (dispatch i) oracle
step i (StructuredConcurrencyEvent.request_cancel task) oracle =
    with_task i task (request_cancel i) oracle
step i (StructuredConcurrencyEvent.deliver_cancel task) oracle =
    with_task i task (deliver_cancel i) oracle
step i (StructuredConcurrencyEvent.join task) oracle = with_task i task (join i) oracle
step i (StructuredConcurrencyEvent.exit_scope scope) oracle = exit_scope i scope oracle

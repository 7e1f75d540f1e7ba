-- ===== src/Concurrency/Schema.antt =====
-- src/structured-concurrency/schema.ts: scripts, observations, reports and failures.
use semantic_systems.Base.{ℕ, Bool, String, List, Option}
use semantic_systems.Kernel.Row.{Text}

pub data TaskTerminalOutcome : Type 0 where
  succeeded : TaskTerminalOutcome
  failed : Text → TaskTerminalOutcome
  cancelled : TaskTerminalOutcome

pub data AuthoredTaskOutcome : Type 0 where
  succeeded : AuthoredTaskOutcome
  failed : Text → AuthoredTaskOutcome

pub record TaskProgram : Type 0 where
  pub yields : List Text
  pub terminal : AuthoredTaskOutcome

-- The fields are in the order of the source's.
pub data StructuredConcurrencyEvent : Type 0 where
  open_scope : Text → Text → StructuredConcurrencyEvent
  spawn : Text → Text → TaskProgram → StructuredConcurrencyEvent
  transfer : Text → Text → Text → StructuredConcurrencyEvent
  dispatch request_cancel deliver_cancel join : Text → StructuredConcurrencyEvent
  exit_scope : Text → StructuredConcurrencyEvent

pub record StructuredConcurrencyScript : Type 0 where
  pub root_scope : Text
  pub events : List StructuredConcurrencyEvent

pub data CancelSource : Type 0 where
  explicit scope_exit : CancelSource

pub data ExitResult : Type 0 where
  blocked closed : ExitResult

-- The first field is the index of the event.
pub data StructuredConcurrencyObservation : Type 0 where
  scope_opened : ℕ → Text → Text → StructuredConcurrencyObservation
  task_spawned : ℕ → Text → Text → StructuredConcurrencyObservation
  task_transferred : ℕ → Text → Text → Text → StructuredConcurrencyObservation
  task_yielded : ℕ → Text → ℕ → Text → StructuredConcurrencyObservation
  task_settled : ℕ → Text → TaskTerminalOutcome → StructuredConcurrencyObservation
  cancel_requested : ℕ → Text → CancelSource → Bool → StructuredConcurrencyObservation
  join_blocked : ℕ → Text → StructuredConcurrencyObservation
  join_observed : ℕ → Text → TaskTerminalOutcome → StructuredConcurrencyObservation
  scope_exit : ℕ → Text → ExitResult → List Text → List Text → StructuredConcurrencyObservation

pub data ScopeState : Type 0 where
  opened closed : ScopeState

pub data TaskState : Type 0 where
  suspended terminal : TaskState

-- A scope of a report, which has the fields of `OracleScope`.
pub record StructuredConcurrencyScopeReport : Type 0 where
  pub scope : Text
  pub parent : Option Text
  pub state : ScopeState

pub record StructuredConcurrencyTaskReport : Type 0 where
  pub task : Text
  pub spawn_scope : Text
  pub owner_scope : Option Text
  pub state : TaskState
  pub next_step : ℕ
  pub cancellation_requested : Bool
  pub outcome : Option TaskTerminalOutcome

pub data DispatchResult : Type 0 where
  yielded settled : DispatchResult

pub record ScheduleDecision : Type 0 where
  pub dispatch_index : ℕ
  pub event_index : ℕ
  pub task : Text
  pub step_index : ℕ
  pub result : DispatchResult

pub record TaskHappensBefore : Type 0 where
  pub task : Text
  pub before_event_index : ℕ
  pub after_event_index : ℕ

pub record StructuredConcurrencyLaws : Type 0 where
  pub singular_ownership : Bool
  pub scope_exit_waits : Bool
  pub stable_terminal_join : Bool
  pub idempotent_cancel_request : Bool
  pub one_shot_dispatch : Bool

pub record StructuredConcurrencyRun : Type 0 where
  pub observations : List StructuredConcurrencyObservation
  pub scopes : List StructuredConcurrencyScopeReport
  pub tasks : List StructuredConcurrencyTaskReport
  pub schedule : List ScheduleDecision
  pub happens_before : List TaskHappensBefore
  pub laws : StructuredConcurrencyLaws

-- The path is the event's, with the field at its end; the message is left out.
pub record StructuredConcurrencyFailure : Type 0 where
  pub code : String
  pub event_index : ℕ
  pub field : String

-- `structuredConcurrencyBounds`.
abbrev pub maximum_scopes : ℕ
maximum_scopes = 16

abbrev pub maximum_tasks : ℕ
maximum_tasks = 16

abbrev pub maximum_yields : ℕ
maximum_yields = 32

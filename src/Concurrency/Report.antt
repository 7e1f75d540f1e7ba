-- ===== src/Concurrency/Report.antt =====
-- src/structured-concurrency/oracle.ts: the laws of the report.
use mathlib.Core.Path.{subst}
use semantic_systems.Base.{
  ℕ, ◌+◌, ◌≡◌, refl, ◌∙◌, ap, inl, inr, Bool, true, false, List, [], ◌∷◌, Option, none, some,
  Bool-cases, arith, All, All-map, All-sort_by, All-mapped, every, every-All, filter, length,
  length-pushed, if◌then◌else◌, leb, ◌==◌, ◌⊎◌,
}
use semantic_systems.Kernel.Row.{Text}
use semantic_systems.Concurrency.Schema.{
  StructuredConcurrencyObservation, StructuredConcurrencyEvent, StructuredConcurrencyScript,
  StructuredConcurrencyLaws, StructuredConcurrencyRun, StructuredConcurrencyFailure,
  StructuredConcurrencyTaskReport,
}
use semantic_systems.Concurrency.Oracle.{
  OracleScope, OracleTask, Oracle, observe, touch_task, change_task, request_each, finish_exit,
  exit_open, live_tasks, open_children, step, get_task, is_open,
}
use semantic_systems.Concurrency.Run.{
  run_events, owner_is_open, task_report, task_reports, is_singly_owned, exit_waits, join_is_stable,
  is_dispatch, is_one_shot, laws_of, report_of, initial_oracle, run_oracle,
}
use semantic_systems.Concurrency.Transitions.{Accepts}
use semantic_systems.Concurrency.Transitions.Decides.{step_iff}
use semantic_systems.Concurrency.Ownership.{IsOwned, IsNested, OwnedOracle}
use semantic_systems.Concurrency.Ownership.Accepted.{Accepts-Owned}
use semantic_systems.Concurrency.Changes.{IsDistinct, Changes}
use semantic_systems.Concurrency.Changes.Keeps.{
  Accepts-keeps, run_events-keeps, IfOracle, Stepped-cases, left-right,
}
use semantic_systems.Concurrency.Joins.{
  ExitsWait, Changes-ExitsWait, JoinsStable, Changes-JoinsStable, IsJoined-join_is_stable,
}
use semantic_systems.Concurrency.Cancels.{
  RequestsOnce, first_requests, asked, Changes-RequestsOnce, asked_le,
}
use semantic_systems.Concurrency.Dispatches.{DispatchesOnce, Changes-DispatchesOnce}

-- A run from the first oracle keeps what every change keeps.
from_initial :
    (P : Oracle → Type 0)
    → ((i : ℕ) (o o' : Oracle) → IsDistinct o.tasks → Changes i o o' → P o → P o')
    → (root : Text) (events : List StructuredConcurrencyEvent) (o : Oracle)
    → run_events 0 events (initial_oracle root) ≡ inr o
    → P (initial_oracle root)
    → P o
from_initial P keep root events o e h =
    (run_events-keeps (λ o. P o × IsDistinct o.tasks) (Accepts-keeps P keep) 0 events
      (initial_oracle root) o e (h, tt)).0

-- A scope that is closed, or the root, or in an open scope.
abbrev pub IsInside : List OracleScope → OracleScope → Type 0
IsInside scopes s =
    (is_open (some s) ≡ false) ⊎ ((s.parent ≡ none) ⊎ (owner_is_open scopes s.parent ≡ true))

inside : (scopes : List OracleScope) (s : OracleScope) → IsNested scopes s → IsInside scopes s
inside scopes s h = elim (Bool-cases (is_open (some s))) [
  | inr shut ↦ inl shut
  | inl opened ↦ inr (h opened)
]

-- After the events that the oracle accepts, every live task is owned by an open scope, every
-- terminal task has an outcome and no owner, and every open scope but the root stands in an open
-- scope: a scope that is closed has no live task and no open scope in it.
pub run_events-Owned :
    (script : StructuredConcurrencyScript) (o : Oracle)
    → run_events 0 script.events (initial_oracle script.root_scope) ≡ inr o
    → All (IsOwned o.scopes) o.tasks × All (IsInside o.scopes) o.scopes
run_events-Owned script o e =
    let owned =
      run_events-keeps OwnedOracle Accepts-Owned 0 script.events (initial_oracle script.root_scope)
        o e (record { tasks = tt; scopes = ((λ inside. inl refl), tt) }) in
    (
      owned.tasks,
      All-map (IsNested o.scopes) (IsInside o.scopes) o.scopes (inside o.scopes) owned.scopes,
    )

request_each-schedule :
    (i : ℕ) (live : List OracleTask) (o : Oracle) → (request_each i live o).schedule ≡ o.schedule
unfolding request_each change_task observe touch_task
request_each-schedule i [] o = refl
request_each-schedule i (t ∷ live) o = request_each-schedule i live _

finish_exit-schedule :
    (i : ℕ) (s : OracleScope) (children : List Text) (live : List OracleTask) (o : Oracle)
    → (finish_exit i s children live o).schedule ≡ o.schedule
unfolding finish_exit observe
finish_exit-schedule i s [] [] o = refl
finish_exit-schedule i s [] (t ∷ live) o = refl
finish_exit-schedule i s (c ∷ children) live o = refl

-- The schedule grows with the dispatches.
Accepts-schedule :
    (i : ℕ) (e : StructuredConcurrencyEvent) (o o' : Oracle)
    → Accepts i o e o'
    → length o'.schedule ≡ length o.schedule + (if is_dispatch e then 1 else 0)
unfolding is_dispatch observe touch_task change_task exit_open
Accepts-schedule i e o o' (Accepts.opens free inside room) = omega arith
Accepts-schedule i e o o' (Accepts.spawns free inside room few) = omega arith
Accepts-schedule i e o o' (Accepts.transfers found live owned differ source target) = omega arith
Accepts-schedule i e o o' (Accepts.yields found live more) = length-pushed o.schedule _
Accepts-schedule i e o o' (Accepts.settles found live done) = length-pushed o.schedule _
Accepts-schedule i e o o' (Accepts.requests found live) = omega arith
Accepts-schedule i e o o' (Accepts.delivers found live asked) = omega arith
Accepts-schedule i e o o' (Accepts.joins found) = omega arith
Accepts-schedule i e o o' (Accepts.exits {s = s} found inside) =
    ap length (
      finish_exit-schedule i s (open_children o.scopes s.scope) (live_tasks o.tasks s.scope) _
      ∙ request_each-schedule i (live_tasks o.tasks s.scope) o)
    ∙ omega arith

run_events-schedule :
    (i : ℕ) (events : List StructuredConcurrencyEvent) (o o' : Oracle)
    → run_events i events o ≡ inr o'
    → length o'.schedule ≡ length o.schedule + length (filter is_dispatch events)
unfolding run_events filter
run_events-schedule i [] o o' e =
    subst (IfOracle (λ p. length p.schedule ≡ length o.schedule + 0)) e (omega arith)
run_events-schedule i (event ∷ events) o o' e = elim (Stepped-cases (step i event o)) [
  | inl (failure, f) ↦ absurd (left-right refl (rw (run_events, f) at e))
  | inr (next, f) ↦
      let rest = run_events-schedule (i + 1) events next o' (rw (run_events, f) at e) in
      let one = Accepts-schedule i event o next ((step_iff i event o next).0 f) in
      elim (Bool-cases (is_dispatch event)) [
        | inl dispatched ↦ rw (filter, dispatched) (omega (arith, rest, rw dispatched at one))
        | inr other ↦ rw (filter, other) (omega (arith, rest, rw other at one))
      ]
]

-- The five laws of a report.
pub record Hold (laws : StructuredConcurrencyLaws) : Type 0 where
  pub singular_ownership : laws.singular_ownership ≡ true
  pub scope_exit_waits : laws.scope_exit_waits ≡ true
  pub stable_terminal_join : laws.stable_terminal_join ≡ true
  pub idempotent_cancel_request : laws.idempotent_cancel_request ≡ true
  pub one_shot_dispatch : laws.one_shot_dispatch ≡ true

-- What holds of all tasks holds of all reports of tasks.
task_reports-every :
    (p : StructuredConcurrencyTaskReport → Bool) (tasks : List OracleTask)
    → All (λ t. p (task_report t) ≡ true) tasks
    → every p (task_reports tasks) ≡ true
unfolding task_reports
task_reports-every p tasks h = every-All p _ (
    All-mapped (λ r. p r ≡ true) task_report _
      (All-sort_by (λ t. p (task_report t) ≡ true) _ tasks h))

everywhere : {A : Type 0} (P : A → Type 0) (xs : List A) → ((x : A) → P x) → All P xs
everywhere P [] f = tt
everywhere P (x ∷ xs) f = (f x, everywhere P xs f)

initial-RequestsOnce : (root : Text) → RequestsOnce (initial_oracle root)
unfolding filter get_task
initial-RequestsOnce root task = refl

initial-DispatchesOnce : (root : Text) → DispatchesOnce (initial_oracle root)
unfolding is_one_shot
initial-DispatchesOnce root = record { past = tt; one_shot = refl }

laws_of-Hold :
    (script : StructuredConcurrencyScript) (o : Oracle)
    → run_events 0 script.events (initial_oracle script.root_scope) ≡ inr o
    → Hold (laws_of script o)
unfolding laws_of
laws_of-Hold script o e =
    let root = script.root_scope in
    let exits = from_initial ExitsWait Changes-ExitsWait root script.events o e tt in
    let joins =
      from_initial JoinsStable Changes-JoinsStable root script.events o e
        (record { tasks = tt; observations = tt }) in
    let once =
      from_initial RequestsOnce Changes-RequestsOnce root script.events o e
        (initial-RequestsOnce root) in
    let dispatches =
      from_initial DispatchesOnce Changes-DispatchesOnce root script.events o e
        (initial-DispatchesOnce root) in
    let count = run_events-schedule 0 script.events (initial_oracle root) o e in
    let same : (length (filter is_dispatch script.events) == length o.schedule) ≡ true =
      ground (arith, count) in
    record {
      singular_ownership =
          task_reports-every (is_singly_owned o.scopes) o.tasks (run_events-Owned script o e).0;
      scope_exit_waits = every-All exit_waits o.observations exits;
      stable_terminal_join =
          every-All (join_is_stable o.tasks) o.observations
            (All-map _ _ o.observations (IsJoined-join_is_stable o.tasks) joins.observations);
      idempotent_cancel_request =
          task_reports-every (λ t. leb (first_requests t.task o.observations) 1) o.tasks
            (everywhere _ o.tasks (λ t. at_most_one t.task o.observations _ (once t.task)));
      one_shot_dispatch = rw (same, dispatches.one_shot) refl;
    }
  where
    at_most_one :
        (task : Text) (xs : List StructuredConcurrencyObservation) (found : Option OracleTask)
        → first_requests task xs ≡ asked found
        → leb (first_requests task xs) 1 ≡ true
    at_most_one task xs found h = let le = asked_le found in ground arith

abbrev IfRun :
    (StructuredConcurrencyRun → Type 0)
    → StructuredConcurrencyFailure ⊎ StructuredConcurrencyRun
    → Type 0
IfRun P (inl failure) = Unit
IfRun P (inr run) = P run

no-run :
    {failure : StructuredConcurrencyFailure} {run : StructuredConcurrencyRun}
    {s : StructuredConcurrencyFailure ⊎ StructuredConcurrencyRun}
    → s ≡ inl failure
    → s ≡ inr run
    → ⊥
no-run e f = cc

-- In the report of every script that the oracle accepts, all five laws that the oracle computes
-- hold: ownership is singular, scope exits wait, joins of terminal tasks are stable, a
-- cancellation is first requested at most once, and dispatches are one-shot.
pub run_oracle-Hold :
    (script : StructuredConcurrencyScript) (run : StructuredConcurrencyRun)
    → run_oracle script ≡ inr run
    → Hold run.laws
unfolding run_oracle report_of
run_oracle-Hold script run e =
    elim (Stepped-cases (run_events 0 script.events (initial_oracle script.root_scope))) [
      | inl (failure, f) ↦ absurd (no-run refl (rw (run_oracle, f) at e))
      | inr (o, f) ↦
          subst (IfRun (λ r. Hold r.laws)) (rw (run_oracle, f) at e) (laws_of-Hold script o f)
    ]

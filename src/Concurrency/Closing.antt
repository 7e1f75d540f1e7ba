-- ===== src/Concurrency/Closing.antt =====
-- src/structured-concurrency/oracle.ts: how an accepted script goes on to the end of its tasks and
-- scopes.
use mathlib.Core.Path.{subst}
use semantic_systems.Base.{
  ℕ, zero, suc, ◌+◌, ◌<◌, ◌≡◌, refl, sym, ◌∙◌, ap, inl, inr, Bool, true, false, ◌&&◌, List, [], ◌∷◌,
  ◌++◌, map, some, arith, All, All-map, All-sort_by, All-mapped, Bool-cases, none-some,
  some-injective, length, filter, sort_by,
}
use semantic_systems.Kernel.Row.{text_eq, text_le}
use semantic_systems.Concurrency.Schema.{
  StructuredConcurrencyEvent, StructuredConcurrencyScript, StructuredConcurrencyRun,
  StructuredConcurrencyFailure, StructuredConcurrencyObservation, ScopeState, TaskState, ExitResult,
}
use semantic_systems.Concurrency.Oracle.{
  OracleScope, OracleTask, Oracle, get_scope, put_scope, is_open, is_owner, is_suspended, observe,
  open_children, live_tasks, request_each, finish_exit, exit_open,
}
use semantic_systems.Concurrency.Run.{
  run_events, initial_oracle, scope_reports, task_reports, task_report, report_of, run_oracle,
}
use semantic_systems.Concurrency.Tables.{true-false}
use semantic_systems.Concurrency.Transitions.{Accepts}
use semantic_systems.Concurrency.Changes.Keeps.{Stepped-cases}
use semantic_systems.Concurrency.Ownership.{state-terminal}
use semantic_systems.Concurrency.Scopes.Innermost.{IsInnermost, innermost}
use semantic_systems.Concurrency.Progress.{
  Leads, Leads-then, Leads-one, Regular, run_events-Regular, run_events-append,
}
use semantic_systems.Concurrency.Progress.Finish.{IsIdle, finish_all}

pub nil-filter :
    {A : Type 0} (p : A → Bool) (xs : List A) → All (λ x. p x ≡ false) xs → filter p xs ≡ []
unfolding filter
nil-filter p [] h = refl
nil-filter p (x ∷ xs) (h, hs) = rw (filter, h) (nil-filter p xs hs)

-- The scope closes when it is left.
abbrev closed_oracle : ℕ → OracleScope → Oracle → Oracle
closed_oracle i s o =
    observe (StructuredConcurrencyObservation.scope_exit i s.scope ExitResult.closed [] [])
      (record o { scopes = put_scope (record s { state = ScopeState.closed }) o.scopes })

exit_open-closes :
    (i : ℕ) (s : OracleScope) (o : Oracle)
    → IsIdle o
    → IsInnermost o.scopes s
    → exit_open i s o ≡ closed_oracle i s o
unfolding exit_open open_children live_tasks finish_exit request_each sort_by
exit_open-closes i s o idle inner =
    let children : open_children o.scopes s.scope ≡ [] =
      ap (λ us. sort_by text_le (map (λ u. u.scope) us)) (nil-filter _ o.scopes inner.childless) in
    let live : live_tasks o.tasks s.scope ≡ [] =
      ap (λ us. sort_by (λ (left right : OracleTask). text_le left.task right.task) us)
        (nil-filter _ o.tasks (
          All-map _ _ o.tasks
            (λ t over. and-right (is_owner t.owner_scope s.scope) (is_suspended t) over) idle)) in
    ap
      (λ us.
        finish_exit i s us (live_tasks o.tasks s.scope)
          (request_each i (live_tasks o.tasks s.scope) o))
      children
    ∙ ap (λ ts. finish_exit i s [] ts (request_each i ts o)) live
  where
    and-right : (a b : Bool) → b ≡ false → (a && b) ≡ false
    and-right a b h = ground arith

abbrev open_count : List OracleScope → ℕ
open_count scopes = length (filter (λ s. is_open (some s)) scopes)

-- One open scope less.
count-put_scope :
    (scopes : List OracleScope) (changed s : OracleScope)
    → get_scope scopes changed.scope ≡ some s
    → is_open (some s) ≡ true
    → is_open (some changed) ≡ false
    → open_count (put_scope changed scopes) + 1 ≡ open_count scopes
unfolding get_scope put_scope filter
count-put_scope [] changed s e opened shut = absurd (none-some e)
count-put_scope (u ∷ scopes) changed s e opened shut =
    elim (Bool-cases (text_eq u.scope changed.scope)) [
      | inl this ↦
          let found : u ≡ s = some-injective (rw (get_scope, this) at e) in
          let was : is_open (some u) ≡ true =
            subst (λ x. is_open (some x) ≡ true) (sym found) opened in
          rw (put_scope, filter, this, was, shut) (omega arith)
      | inr other ↦
          let rest = count-put_scope scopes changed s (rw (get_scope, other) at e) opened shut in
          elim (Bool-cases (is_open (some u))) [
            | inl also ↦ rw (put_scope, filter, other, also) (omega (arith, rest))
            | inr closed ↦ rw (put_scope, filter, other, closed) rest
          ]
    ]

closed-shut : (s : OracleScope) → is_open (some (record s { state = ScopeState.closed })) ≡ false
unfolding is_open
closed-shut s = refl

-- No task is live and no scope is open.
pub record IsOver (o : Oracle) : Type 0 where
  pub idle : IsIdle o
  pub closed : All (λ s. is_open (some s) ≡ false) o.scopes

close_scopes :
    (n i : ℕ) (o : Oracle) → open_count o.scopes < n → Regular o → IsIdle o → Leads IsOver i o
unfolding run_events observe filter
close_scopes zero i o lt regular idle = absurd (omega arith)
close_scopes (suc n) i o lt regular idle = elim (innermost o.scopes regular.ordered.ordered) [
  | inl closed ↦ record {
    events = [];
    reached = o;
    accepted = refl;
    holds = record { idle = idle; closed = closed };
  }
  | inr (s, inner) ↦
      let next = closed_oracle i s o in
      let less =
        count-put_scope o.scopes (record s { state = ScopeState.closed }) s inner.found inner.opened
          (closed-shut s) in
      Leads-then (λ o'. o' ≡ next) IsOver i o regular
        (Leads-one (λ o'. o' ≡ next) i (StructuredConcurrencyEvent.exit_scope s.scope) o _
          (Accepts.exits inner.found inner.opened) (exit_open-closes i s o idle inner))
        (λ j o' kept here.
          subst (Leads IsOver j) (sym here)
            (close_scopes n j next (omega (arith, less)) (subst Regular here kept) idle))
]

shut-closed : (s : OracleScope) → is_open (some s) ≡ false → s.state ≡ ScopeState.closed
unfolding is_open
shut-closed s h = go s.state h
  where
    go :
        (s : ScopeState)
        → (elim s [ ScopeState.opened ↦ true | ScopeState.closed ↦ false ]) ≡ false
        → s ≡ ScopeState.closed
    go ScopeState.closed h = refl
    go ScopeState.opened h = absurd (true-false h)

pub initial-Regular :
    (script : StructuredConcurrencyScript) → Regular (initial_oracle script.root_scope)
unfolding is_owner
initial-Regular script = record {
  ordered = record { ordered = ((refl, tt), (tt, tt)); rooted = ((λ p e h. none-some e), tt) };
  distinct = tt;
}

-- A report whose scopes are closed and whose tasks are terminal.
pub record IsClosed (run : StructuredConcurrencyRun) : Type 0 where
  pub scopes : All (λ s. s.state ≡ ScopeState.closed) run.scopes
  pub tasks : All (λ t. t.state ≡ TaskState.terminal) run.tasks

report_of-IsClosed :
    (script : StructuredConcurrencyScript) (o : Oracle) → IsOver o → IsClosed (report_of script o)
unfolding report_of scope_reports task_reports
report_of-IsClosed script o h = record {
  scopes =
      All-sort_by (λ s. s.state ≡ ScopeState.closed) _ o.scopes
        (All-map _ _ o.scopes shut-closed h.closed);
  tasks =
      All-mapped (λ t. t.state ≡ TaskState.terminal) task_report _
        (All-sort_by (λ t. t.state ≡ TaskState.terminal) _ o.tasks
          (All-map _ _ o.tasks state-terminal h.idle));
}

-- A script that goes on with more events.
abbrev pub extended :
    StructuredConcurrencyScript → List StructuredConcurrencyEvent → StructuredConcurrencyScript
extended script more = record script { events = script.events ++ more }

-- The oracle accepts the script with more events, and its report has the property.
pub record Continues (P : StructuredConcurrencyRun → Type 0) (script : StructuredConcurrencyScript)
    : Type 0 where
  pub more : List StructuredConcurrencyEvent
  pub run : StructuredConcurrencyRun
  pub accepted : run_oracle (extended script more) ≡ inr run
  pub holds : P run

-- Every script that the oracle accepts can go on: there are events with which it is accepted too,
-- and after which every scope is closed, the root included, and every task is terminal. The bound
-- of the schema on the number of events is not asked of the longer script.
pub run_oracle-Continues :
    (script : StructuredConcurrencyScript) (run : StructuredConcurrencyRun)
    → run_oracle script ≡ inr run
    → Continues IsClosed script
unfolding run_oracle
run_oracle-Continues script run e =
    elim (Stepped-cases (run_events 0 script.events (initial_oracle script.root_scope))) [
      | inl (failure, f) ↦ absurd (no_run (rw (run_oracle, f) at e))
      | inr (o, f) ↦
          let regular = run_events-Regular 0 script.events _ o f (initial-Regular script) in
          let i = length script.events in
          let over =
            Leads-then IsIdle IsOver i o regular (finish_all i o regular) (λ j o' kept idle.
              close_scopes (open_count o'.scopes + 1) j o' (omega arith) kept idle) in
          let whole =
            run_events-append 0 script.events over.events _ o f
            ∙ ap (λ n. run_events n over.events o) (omega arith)
            ∙ over.accepted in
          record {
            more = over.events;
            run = report_of (extended script over.events) over.reached;
            accepted = rw (run_oracle, whole) refl;
            holds = report_of-IsClosed (extended script over.events) over.reached over.holds;
          }
    ]
  where
    no_run : {r : StructuredConcurrencyRun} {f : StructuredConcurrencyFailure} → inl f ≡ inr r → ⊥
    no_run e = cc

-- ===== src/Concurrency/Progress/Finish.antt =====
-- src/structured-concurrency/oracle.ts: dispatching one live task, and all, to the end.
use mathlib.Core.Path.{subst}
use semantic_systems.Base.{
  ℕ, zero, suc, ◌+◌, ◌≤◌, ◌<◌, ◌≡◌, refl, sym, ◌∙◌, ap, inl, inr, ◌⊎◌, true, false, List, [], ◌∷◌,
  none, some, arith, All, Bool-cases, Option-cases, none-some, some-injective, length, filter,
  get_elem?, get_elem?-length,
}
use semantic_systems.Kernel.Row.{Text, text_eq}
use semantic_systems.Kernel.Row.Equality.{text_eq_refl}
use semantic_systems.Concurrency.Schema.{
  StructuredConcurrencyEvent, StructuredConcurrencyObservation, DispatchResult,
}
use semantic_systems.Concurrency.Oracle.{
  OracleTask, Oracle, copy_authored_outcome, get_task, put_task, is_suspended, observe, touch_task,
  change_task, schedule_with, settle,
}
use semantic_systems.Concurrency.Run.{run_events}
use semantic_systems.Concurrency.Tables.{get_task-put_task, get_task-at}
use semantic_systems.Concurrency.Transitions.{Accepts}
use semantic_systems.Concurrency.Changes.{IsPresent, IsDistinct}
use semantic_systems.Concurrency.Progress.{Leads, Regular, Leads-then, Leads-map, Leads-one}

-- The task has come to its authored end, and nothing else has changed in the two tables.
pub record Finished (o : Oracle) (t : OracleTask) (o' : Oracle) : Type 0 where
  pub task : OracleTask
  pub name : task.task ≡ t.task
  pub over : is_suspended task ≡ false
  pub outcome : task.outcome ≡ some (copy_authored_outcome t.program.terminal)
  pub tasks : o'.tasks ≡ put_task task o.tasks
  pub scopes : o'.scopes ≡ o.scopes

put_task-put_task :
    (tasks : List OracleTask) (first second : OracleTask)
    → second.task ≡ first.task
    → put_task second (put_task first tasks) ≡ put_task second tasks
unfolding put_task
put_task-put_task [] first second same = refl
put_task-put_task (t ∷ tasks) first second same = elim (Bool-cases (text_eq t.task first.task)) [
  | inl this ↦
      let there : text_eq t.task second.task ≡ true =
        subst (λ n. text_eq t.task n ≡ true) (sym same) this in
      let again : text_eq first.task second.task ≡ true =
        subst (λ n. text_eq first.task n ≡ true) (sym same) (text_eq_refl first.task) in
      rw (put_task, this, there, again) refl
  | inr other ↦
      let there : text_eq t.task second.task ≡ false =
        subst (λ n. text_eq t.task n ≡ false) (sym same) other in
      rw (put_task, other, there) (ap (λ us. t ∷ us) (put_task-put_task tasks first second same))
]

-- The oracle after a dispatch that yields.
abbrev yielded_oracle : ℕ → OracleTask → Text → Oracle → Oracle
yielded_oracle i t label o = schedule_with i t DispatchResult.yielded (
    change_task i (record t { next_step = t.next_step + 1 })
      (StructuredConcurrencyObservation.task_yielded i t.task t.next_step label) o)

Finished-yielded :
    (i : ℕ) (o : Oracle) (t : OracleTask) (label : Text) (o' : Oracle)
    → Finished (yielded_oracle i t label o) (record t { next_step = t.next_step + 1 }) o'
    → Finished o t o'
unfolding change_task observe touch_task
Finished-yielded i o t label o' h = record {
  task = h.task;
  name = h.name;
  over = h.over;
  outcome = h.outcome;
  tasks = h.tasks ∙ put_task-put_task o.tasks _ h.task h.name;
  scopes = h.scopes;
}

put-IsPresent :
    (tasks : List OracleTask) (t : OracleTask) (n : ℕ)
    → IsPresent tasks t
    → IsPresent (put_task (record t { next_step = n }) tasks) (record t { next_step = n })
put-IsPresent tasks t n present =
    get_task-put_task tasks (record t { next_step = n }) t t.task present
    ∙ rw (text_eq_refl t.task) refl

settles-finish :
    (i : ℕ) (o : Oracle) (t : OracleTask)
    → IsPresent o.tasks t
    → is_suspended t ≡ true
    → get_elem? t.program.yields t.next_step ≡ none
    → Leads (Finished o t) i o
unfolding settle is_suspended change_task observe touch_task
settles-finish i o t present live done =
    Leads-one (Finished o t) i (StructuredConcurrencyEvent.dispatch t.task) o _
      (Accepts.settles present live done)
      (record {
        task =
            settle (record t { next_step = t.next_step + 1 })
              (copy_authored_outcome t.program.terminal);
        name = refl;
        over = refl;
        outcome = refl;
        tasks = refl;
        scopes = refl;
      })

-- A live task is finished by dispatches: while it yields, `n` counts the yields that are left.
dispatch-finishes :
    (n i : ℕ) (o : Oracle) (t : OracleTask)
    → length t.program.yields ≤ n + t.next_step
    → Regular o
    → IsPresent o.tasks t
    → is_suspended t ≡ true
    → Leads (Finished o t) i o
unfolding is_suspended change_task observe touch_task
dispatch-finishes zero i o t enough regular present live =
    elim (Option-cases (get_elem? t.program.yields t.next_step)) [
      | inl done ↦ settles-finish i o t present live done
      | inr (label, more) ↦
          let below = get_elem?-length t.program.yields t.next_step label more in
          absurd (omega arith)
    ]
dispatch-finishes (suc n) i o t enough regular present live =
    elim (Option-cases (get_elem? t.program.yields t.next_step)) [
      | inl done ↦ settles-finish i o t present live done
      | inr (label, more) ↦
          let next = yielded_oracle i t label o in
          Leads-then (λ o'. o' ≡ next) (Finished o t) i o regular
            (Leads-one (λ o'. o' ≡ next) i (StructuredConcurrencyEvent.dispatch t.task) o next
              (Accepts.yields present live more) refl)
            (λ j o' kept here. subst (Leads (Finished o t) j) (sym here) (
              Leads-map _ (Finished o t) j next (Finished-yielded i o t label) (
                dispatch-finishes n j next (record t { next_step = t.next_step + 1 }) (omega arith)
                  (subst Regular here kept) (put-IsPresent o.tasks t (t.next_step + 1) present)
                  live)))
    ]

-- Dispatches finish a live task of an oracle that a run has come to.
pub finish_task :
    (i : ℕ) (o : Oracle) (t : OracleTask)
    → Regular o
    → IsPresent o.tasks t
    → is_suspended t ≡ true
    → Leads (Finished o t) i o
finish_task i o t = dispatch-finishes (length t.program.yields) i o t (omega arith)

abbrev pub IsIdle : Oracle → Type 0
IsIdle o = All (λ t. is_suspended t ≡ false) o.tasks

-- All tasks are over, or the map gives one that is live.
find_live :
    (tasks : List OracleTask)
    → IsDistinct tasks
    → All (λ t. is_suspended t ≡ false) tasks
      ⊎ ((t : OracleTask) × (IsPresent tasks t × (is_suspended t ≡ true)))
unfolding get_task
find_live [] h = inl tt
find_live (t ∷ tasks) (differ, h) = elim (Bool-cases (is_suspended t)) [
  | inl live ↦ inr (t, (rw (get_task, text_eq_refl t.task) refl, live))
  | inr over ↦ elim (find_live tasks h) [
    | inl idle ↦ inl (over, idle)
    | inr (u, (present, live)) ↦
        let other =
          get_task-at (λ u. text_eq t.task u.task ≡ false) tasks u.task u differ present in
        inr (u, (rw (get_task, other) present, live))
  ]
]

-- One live task less.
count-put_task :
    (tasks : List OracleTask) (changed t : OracleTask)
    → get_task tasks changed.task ≡ some t
    → is_suspended t ≡ true
    → is_suspended changed ≡ false
    → length (filter is_suspended (put_task changed tasks)) + 1 ≡ length (filter is_suspended tasks)
unfolding get_task put_task filter
count-put_task [] changed t e live over = absurd (none-some e)
count-put_task (u ∷ tasks) changed t e live over = elim (Bool-cases (text_eq u.task changed.task)) [
  | inl this ↦
      let found : u ≡ t = some-injective (rw (get_task, this) at e) in
      let was : is_suspended u ≡ true = subst (λ x. is_suspended x ≡ true) (sym found) live in
      rw (put_task, filter, this, was, over) (omega arith)
  | inr other ↦
      let rest = count-put_task tasks changed t (rw (get_task, other) at e) live over in
      elim (Bool-cases (is_suspended u)) [
        | inl also ↦ rw (put_task, filter, other, also) (omega (arith, rest))
        | inr done ↦ rw (put_task, filter, other, done) rest
      ]
]

-- With less than `n` live tasks, all tasks can be finished.
finish_tasks :
    (n i : ℕ) (o : Oracle) → length (filter is_suspended o.tasks) < n → Regular o → Leads IsIdle i o
unfolding run_events filter
finish_tasks zero i o lt regular = absurd (omega arith)
finish_tasks (suc n) i o lt regular = elim (find_live o.tasks regular.distinct) [
  | inl idle ↦ record { events = []; reached = o; accepted = refl; holds = idle }
  | inr (t, (present, live)) ↦
      Leads-then (Finished o t) IsIdle i o regular (finish_task i o t regular present live)
        (λ j o' kept h.
          let less =
            count-put_task o.tasks h.task t
              (subst (λ k. get_task o.tasks k ≡ some t) (sym h.name) present) live h.over in
          let same = ap (λ us. length (filter is_suspended us)) h.tasks in
          finish_tasks n j o' (omega (arith, less, same)) kept)
]

-- From what a run has come to, all tasks can be finished.
pub finish_all : (i : ℕ) (o : Oracle) → Regular o → Leads IsIdle i o
finish_all i o = finish_tasks (length (filter is_suspended o.tasks) + 1) i o (omega arith)

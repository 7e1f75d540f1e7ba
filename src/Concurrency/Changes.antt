-- ===== src/Concurrency/Changes.antt =====
-- src/structured-concurrency/oracle.ts: the single changes that the events are made of. The keys
-- of the tasks differ, so the tasks that `exit_scope` lists are those that the map gives.
pub mod Keeps
use mathlib.Core.Path.{subst}
use semantic_systems.Base.{
  ℕ, ◌+◌, ◌≡◌, refl, sym, ◌∙◌, inl, inr, ◌⊎◌, Bool, true, false, not, List, [], ◌∷◌, ◌++◌, map,
  none, some, arith, All, All-append, All-filter, All-insert_by, All-sort_by, Bool-cases, none-some,
  filter, sort_by, insert_by,
}
use semantic_systems.Kernel.Row.{Text, text_eq}
use semantic_systems.Kernel.Row.Equality.{text_eq→eq, text_eq_refl}
use semantic_systems.Concurrency.Schema.{
  TaskProgram, TaskTerminalOutcome, StructuredConcurrencyEvent, StructuredConcurrencyObservation,
  CancelSource, ExitResult, DispatchResult, StructuredConcurrencyFailure,
}
use semantic_systems.Concurrency.Oracle.{
  OracleScope, OracleTask, Oracle, Stepped, get_task, put_task, is_suspended, observe, touch_task,
  change_task, schedule_with, settle, join_observation, open_children, live_tasks, request_each,
  finish_exit, exit_open, step,
}
use semantic_systems.Concurrency.Run.{run_events, exit_waits}
use semantic_systems.Concurrency.Tables.{text_eq_flip, get_task-key, get_task-put_task}
use semantic_systems.Concurrency.Transitions.{spawned_task, Accepts}
use semantic_systems.Concurrency.Transitions.Decides.{step_iff}

-- The map gives the task under its key.
abbrev pub IsPresent : List OracleTask → OracleTask → Type 0
IsPresent tasks t = get_task tasks t.task ≡ some t

pub data Changes (i : ℕ) (o : Oracle) : Oracle → Type 0 where
  opened :
      (scope parent : Text) (scopes : List OracleScope)
      → Changes i o (
          observe
            (StructuredConcurrencyObservation.scope_opened i scope parent)
            (record o { scopes = scopes }))
  spawned :
      (task scope : Text) (program : TaskProgram) (total : ℕ)
      → get_task o.tasks task ≡ none
      → Changes i o (
          touch_task task i (
            observe (StructuredConcurrencyObservation.task_spawned i task scope) (record o {
              total_yields = total;
              tasks = o.tasks ++ spawned_task task scope program ∷ [];
            })))
  moved :
      (t : OracleTask) (from to : Text)
      → IsPresent o.tasks t
      → Changes i o (
          change_task i
            (record t { owner_scope = some to })
            (StructuredConcurrencyObservation.task_transferred i t.task from to)
            o)
  yielded :
      (t : OracleTask) (label : Text)
      → IsPresent o.tasks t
      → Changes i o (
          schedule_with i t DispatchResult.yielded (
            change_task i
              (record t { next_step = t.next_step + 1 })
              (StructuredConcurrencyObservation.task_yielded i t.task t.next_step label)
              o))
  settled :
      (t : OracleTask) (outcome : TaskTerminalOutcome)
      → IsPresent o.tasks t
      → is_suspended t ≡ true
      → Changes i o (
          schedule_with i t DispatchResult.settled (
            change_task i
              (settle (record t { next_step = t.next_step + 1 }) outcome)
              (StructuredConcurrencyObservation.task_settled i t.task outcome)
              o))
  requested :
      (t : OracleTask) (source : CancelSource)
      → IsPresent o.tasks t
      → Changes i o (
          change_task i
            (record t { cancellation_requested = true })
            (StructuredConcurrencyObservation.cancel_requested i t.task source
              (not t.cancellation_requested))
            o)
  delivered :
      (t : OracleTask) (outcome : TaskTerminalOutcome)
      → IsPresent o.tasks t
      → is_suspended t ≡ true
      → Changes i o (
          change_task i
            (settle t outcome)
            (StructuredConcurrencyObservation.task_settled i t.task outcome)
            o)
  joined :
      (t : OracleTask)
      → IsPresent o.tasks t
      → Changes i o (touch_task t.task i (observe (join_observation i t) o))
  exited :
      (scope : Text) (scopes : List OracleScope) (result : ExitResult) (children live : List Text)
      → exit_waits (StructuredConcurrencyObservation.scope_exit i scope result children live) ≡ true
      → Changes i o (
          observe
            (StructuredConcurrencyObservation.scope_exit i scope result children live)
            (record o { scopes = scopes }))

-- The keys of the tasks differ from each other.
abbrev pub IsDistinct : List OracleTask → Type 0
IsDistinct [] = Unit
IsDistinct (t ∷ tasks) = All (λ u. text_eq t.task u.task ≡ false) tasks × IsDistinct tasks

pub IsDistinct-IsPresent :
    (tasks : List OracleTask) → IsDistinct tasks → All (IsPresent tasks) tasks
unfolding get_task
IsDistinct-IsPresent [] h = tt
IsDistinct-IsPresent (t ∷ tasks) (h, hs) =
    (rw (get_task, text_eq_refl t.task) refl, later tasks h (IsDistinct-IsPresent tasks hs))
  where
    later :
        (us : List OracleTask)
        → All (λ u. text_eq t.task u.task ≡ false) us
        → All (IsPresent tasks) us
        → All (IsPresent (t ∷ tasks)) us
    later [] k l = tt
    later (u ∷ us) (k, ks) (l, ls) = (rw (get_task, k) l, later us ks ls)

insert_by-Distinct :
    (le : OracleTask → OracleTask → Bool) (t : OracleTask) (tasks : List OracleTask)
    → All (λ u. text_eq t.task u.task ≡ false) tasks
    → IsDistinct tasks
    → IsDistinct (insert_by le t tasks)
unfolding insert_by
insert_by-Distinct le t [] k h = (tt, tt)
insert_by-Distinct le t (u ∷ us) (k, ks) (h, hs) = elim (Bool-cases (le t u)) [
  | inl before ↦ rw (insert_by, before) ((k, ks), (h, hs))
  | inr after ↦
      rw (insert_by, after)
        (
          All-insert_by (λ v. text_eq u.task v.task ≡ false) le t us (text_eq_flip t.task u.task k)
              h,
          insert_by-Distinct le t us ks hs,
        )
]

pub sort_by-Distinct :
    (le : OracleTask → OracleTask → Bool) (tasks : List OracleTask)
    → IsDistinct tasks
    → IsDistinct (sort_by le tasks)
unfolding sort_by
sort_by-Distinct le [] h = tt
sort_by-Distinct le (t ∷ tasks) (h, hs) =
    insert_by-Distinct le t (sort_by le tasks)
      (All-sort_by (λ u. text_eq t.task u.task ≡ false) le tasks h) (sort_by-Distinct le tasks hs)

pub filter-Distinct :
    (p : OracleTask → Bool) (tasks : List OracleTask)
    → IsDistinct tasks
    → IsDistinct (filter p tasks)
unfolding filter
filter-Distinct p [] h = tt
filter-Distinct p (t ∷ tasks) (h, hs) = elim (Bool-cases (p t)) [
  | inl keep ↦
      rw (filter, keep)
        (All-filter (λ u. text_eq t.task u.task ≡ false) p tasks h, filter-Distinct p tasks hs)
  | inr drop ↦ rw (filter, drop) (filter-Distinct p tasks hs)
]

-- The keys are the same after a task is put back.
put_task-key :
    (Q : Text → Type 0) (changed : OracleTask) (tasks : List OracleTask)
    → All (λ u. Q u.task) tasks
    → All (λ u. Q u.task) (put_task changed tasks)
unfolding put_task
put_task-key Q changed [] h = tt
put_task-key Q changed (t ∷ tasks) (h, hs) = elim (Bool-cases (text_eq t.task changed.task)) [
  | inl here ↦ rw (put_task, here) (subst Q (text_eq→eq t.task changed.task here) h, hs)
  | inr there ↦ rw (put_task, there) (h, put_task-key Q changed tasks hs)
]

put_task-Distinct :
    (changed : OracleTask) (tasks : List OracleTask)
    → IsDistinct tasks
    → IsDistinct (put_task changed tasks)
unfolding put_task
put_task-Distinct changed [] h = tt
put_task-Distinct changed (t ∷ tasks) (h, hs) = elim (Bool-cases (text_eq t.task changed.task)) [
  | inl here ↦
      rw (put_task, here)
        (
          subst (λ k. All (λ u. text_eq k u.task ≡ false) tasks)
              (text_eq→eq t.task changed.task here) h,
          hs,
        )
  | inr there ↦
      rw (put_task, there)
        (
          put_task-key (λ k. text_eq t.task k ≡ false) changed tasks h,
          put_task-Distinct changed tasks hs,
        )
]

pushed-Distinct :
    (tasks : List OracleTask) (t : OracleTask)
    → get_task tasks t.task ≡ none
    → IsDistinct tasks
    → IsDistinct (tasks ++ t ∷ [])
unfolding get_task
pushed-Distinct [] t free h = (tt, tt)
pushed-Distinct (u ∷ tasks) t free (h, hs) = elim (Bool-cases (text_eq u.task t.task)) [
  | inl here ↦ absurd (none-some (sym (rw (get_task, here) at free)))
  | inr there ↦ (
    All-append (λ v. text_eq u.task v.task ≡ false) tasks (t ∷ []) h (there, tt),
    pushed-Distinct tasks t (rw (get_task, there) at free) hs,
  )
]

-- A change keeps the keys distinct.
pub Changes-Distinct :
    (i : ℕ) (o o' : Oracle) → Changes i o o' → IsDistinct o.tasks → IsDistinct o'.tasks
unfolding observe touch_task change_task settle
Changes-Distinct i o o' (Changes.opened scope parent scopes) h = h
Changes-Distinct i o o' (Changes.spawned task scope program total free) h =
    pushed-Distinct o.tasks (spawned_task task scope program) free h
Changes-Distinct i o o' (Changes.moved t from to present) h = put_task-Distinct _ o.tasks h
Changes-Distinct i o o' (Changes.yielded t label present) h = put_task-Distinct _ o.tasks h
Changes-Distinct i o o' (Changes.settled t outcome present live) h = put_task-Distinct _ o.tasks h
Changes-Distinct i o o' (Changes.requested t source present) h = put_task-Distinct _ o.tasks h
Changes-Distinct i o o' (Changes.delivered t outcome present live) h = put_task-Distinct _ o.tasks h
Changes-Distinct i o o' (Changes.joined t present) h = h
Changes-Distinct i o o' (Changes.exited scope scopes result children live waits) h = h

pub IsPresent-key :
    (tasks : List OracleTask) (task : Text) (t : OracleTask)
    → get_task tasks task ≡ some t
    → IsPresent tasks t
IsPresent-key tasks task t found =
    subst (λ k. get_task tasks k ≡ some t) (sym (get_task-key tasks task t found)) found

-- The tasks that are still to be asked are those that the map gives, as the asked ones have other
-- keys.
pub still-IsPresent :
    (o : Oracle) (t : OracleTask) (live : List OracleTask)
    → IsPresent o.tasks t
    → All (λ u. text_eq t.task u.task ≡ false) live
    → All (IsPresent o.tasks) live
    → All (IsPresent (put_task (record t { cancellation_requested = true }) o.tasks)) live
still-IsPresent o t [] present h hs = tt
still-IsPresent o t (u ∷ live) present (k, ks) (h, hs) = (
  get_task-put_task o.tasks (record t { cancellation_requested = true }) t u.task present ∙ rw k h,
  still-IsPresent o t live present ks hs,
)

-- ===== src/Concurrency/Cancels.antt =====
-- src/structured-concurrency/oracle.ts: a cancellation is requested for the first time once.
use mathlib.Core.Path.{subst}
use semantic_systems.Base.{
  ℕ, ◌+◌, ◌≤◌, ◌≡◌, refl, sym, ◌∙◌, ap, inl, inr, Bool, true, false, not, ◌&&◌, List, [], ◌∷◌, ◌++◌,
  Option, none, some, Bool-cases, Option-cases, arith, filter, filter-pushed, length, if◌then◌else◌,
}
use semantic_systems.Kernel.Row.{Text, text_eq}
use semantic_systems.Kernel.Row.Equality.{text_eq→eq}
use semantic_systems.Concurrency.Schema.{StructuredConcurrencyObservation}
use semantic_systems.Concurrency.Oracle.{
  OracleTask, Oracle, get_task, put_task, observe, touch_task, change_task, settle,
  join_observation,
}
use semantic_systems.Concurrency.Run.{is_first_request}
use semantic_systems.Concurrency.Tables.{get_task-put_task, get_task-pushed, get_task-new}
use semantic_systems.Concurrency.Transitions.{spawned_task}
use semantic_systems.Concurrency.Changes.{IsPresent, IsDistinct, Changes}

-- The number of first requests for a task.
abbrev pub first_requests : Text → List StructuredConcurrencyObservation → ℕ
first_requests task xs = length (filter (is_first_request task) xs)

abbrev pub asked : Option OracleTask → ℕ
asked none = 0
asked (some t) = if t.cancellation_requested then 1 else 0

-- There was one first request for the tasks whose cancellation is requested, and none for others.
abbrev pub RequestsOnce : Oracle → Type 0
RequestsOnce o = (task : Text) → first_requests task o.observations ≡ asked (get_task o.tasks task)

-- An observation that is not a first request of any task.
abbrev IsOther : StructuredConcurrencyObservation → Type 0
IsOther x = (task : Text) → is_first_request task x ≡ false

observed-RequestsOnce :
    (tasks tasks' : List OracleTask) (xs : List StructuredConcurrencyObservation)
    (x : StructuredConcurrencyObservation)
    → IsOther x
    → ((task : Text) → asked (get_task tasks' task) ≡ asked (get_task tasks task))
    → ((task : Text) → first_requests task xs ≡ asked (get_task tasks task))
    → (task : Text) → first_requests task (xs ++ x ∷ []) ≡ asked (get_task tasks' task)
observed-RequestsOnce tasks tasks' xs x other same h task =
    filter-pushed (is_first_request task) xs x ∙ rw (other task) (omega (arith, h task, same task))

put-asked :
    (tasks : List OracleTask) (changed t : OracleTask)
    → get_task tasks changed.task ≡ some t
    → changed.cancellation_requested ≡ t.cancellation_requested
    → (task : Text) → asked (get_task (put_task changed tasks) task) ≡ asked (get_task tasks task)
put-asked tasks changed t present same task =
    ap asked (get_task-put_task tasks changed t task present)
    ∙ elim (Bool-cases (text_eq changed.task task)) [
      | inr other ↦ rw other refl
      | inl this ↦
          let found : get_task tasks task ≡ some t =
            subst (λ k. get_task tasks k ≡ some t) (text_eq→eq changed.task task this) present in
          rw (this, found) (ap (λ b. if b then 1 else 0) same)
    ]

spawned-asked :
    (tasks : List OracleTask) (t : OracleTask)
    → get_task tasks t.task ≡ none
    → t.cancellation_requested ≡ false
    → (task : Text) → asked (get_task (tasks ++ t ∷ []) task) ≡ asked (get_task tasks task)
spawned-asked tasks t free fresh task = elim (Option-cases (get_task tasks task)) [
  | inr (u, found) ↦ rw (found, get_task-pushed tasks t u task found) refl
  | inl missing ↦
      ap asked (get_task-new tasks t task missing)
      ∙ rw missing (elim (Bool-cases (text_eq t.task task)) [
        | inl this ↦ rw this (ap (λ b. if b then 1 else 0) fresh)
        | inr other ↦ rw other refl
      ])
]

request-RequestsOnce :
    (o : Oracle) (t : OracleTask) (x : StructuredConcurrencyObservation)
    → IsPresent o.tasks t
    → ((task : Text)
        → is_first_request task x ≡ (text_eq t.task task && not t.cancellation_requested))
    → RequestsOnce o
    → (task : Text)
    → first_requests task (o.observations ++ x ∷ [])
      ≡ asked (get_task (put_task (record t { cancellation_requested = true }) o.tasks) task)
request-RequestsOnce o t x present first h task =
    filter-pushed (is_first_request task) o.observations x
    ∙ (rw (first task, h task)
        (elim (Bool-cases (text_eq t.task task)) [
          | inr other ↦ rw other (omega arith)
          | inl this ↦
              let found : get_task o.tasks task ≡ some t =
                subst (λ k. get_task o.tasks k ≡ some t) (text_eq→eq t.task task this) present in
              rw (this, found) (once t.cancellation_requested)
        ]))
    ∙ sym (
        ap asked
          (get_task-put_task o.tasks (record t { cancellation_requested = true }) t task present))
  where
    once : (b : Bool) → (if b then 1 else 0) + (if true && not b then 1 else 0) ≡ 1
    once true = refl
    once false = refl

join_observation-IsOther : (i : ℕ) (t : OracleTask) → IsOther (join_observation i t)
unfolding join_observation is_first_request
join_observation-IsOther i t task = elim (Option-cases t.outcome) [
  | inl running ↦ rw (is_first_request, join_observation, running) refl
  | inr (w, ended) ↦ rw (is_first_request, join_observation, ended) refl
]

pub Changes-RequestsOnce :
    (i : ℕ) (o o' : Oracle) → IsDistinct o.tasks → Changes i o o' → RequestsOnce o → RequestsOnce o'
unfolding observe touch_task change_task settle is_first_request
Changes-RequestsOnce i o o' d (Changes.opened scope parent scopes) h =
    observed-RequestsOnce o.tasks o.tasks o.observations _ (λ task. refl) (λ task. refl) h
Changes-RequestsOnce i o o' d (Changes.spawned task scope program total free) h =
    observed-RequestsOnce o.tasks (o.tasks ++ spawned_task task scope program ∷ []) o.observations _
      (λ key. refl) (spawned-asked o.tasks (spawned_task task scope program) free refl) h
Changes-RequestsOnce i o o' d (Changes.moved t from to present) h =
    observed-RequestsOnce o.tasks (put_task (record t { owner_scope = some to }) o.tasks)
      o.observations _ (λ key. refl)
      (put-asked o.tasks (record t { owner_scope = some to }) t present refl) h
Changes-RequestsOnce i o o' d (Changes.yielded t label present) h =
    observed-RequestsOnce o.tasks (put_task (record t { next_step = t.next_step + 1 }) o.tasks)
      o.observations _ (λ key. refl)
      (put-asked o.tasks (record t { next_step = t.next_step + 1 }) t present refl) h
Changes-RequestsOnce i o o' d (Changes.settled t outcome present live) h =
    observed-RequestsOnce o.tasks
      (put_task (settle (record t { next_step = t.next_step + 1 }) outcome) o.tasks) o.observations
      _ (λ key. refl)
      (put-asked o.tasks (settle (record t { next_step = t.next_step + 1 }) outcome) t present refl)
      h
Changes-RequestsOnce i o o' d (Changes.requested t source present) h =
    request-RequestsOnce o t _ present (λ task. refl) h
Changes-RequestsOnce i o o' d (Changes.delivered t outcome present live) h =
    observed-RequestsOnce o.tasks (put_task (settle t outcome) o.tasks) o.observations _
      (λ key. refl) (put-asked o.tasks (settle t outcome) t present refl) h
Changes-RequestsOnce i o o' d (Changes.joined t present) h =
    observed-RequestsOnce o.tasks o.tasks o.observations _ (join_observation-IsOther i t)
      (λ task. refl) h
Changes-RequestsOnce i o o' d (Changes.exited scope scopes result children live waits) h =
    observed-RequestsOnce o.tasks o.tasks o.observations _ (λ task. refl) (λ task. refl) h

pub asked_le : (o : Option OracleTask) → asked o ≤ 1
asked_le none = omega arith
asked_le (some t) = elim (Bool-cases t.cancellation_requested) [
  | inl yes_asked ↦ rw yes_asked (omega arith)
  | inr unasked ↦ rw unasked (omega arith)
]

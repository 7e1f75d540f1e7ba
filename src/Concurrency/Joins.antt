-- ===== src/Concurrency/Joins.antt =====
-- src/structured-concurrency/oracle.ts: what a join observes stays the outcome of the task, and
-- what is observed of an exit agrees with its result.
use mathlib.Core.Path.{subst}
use semantic_systems.Base.{
  ℕ, ◌+◌, ◌≡◌, refl, sym, ◌∙◌, inl, inr, true, List, [], ◌∷◌, ◌++◌, none, some, All, All-append,
  All-map, Bool-cases, Option-cases, none-some, some-injective,
}
use semantic_systems.Kernel.Row.{Text, text_eq}
use semantic_systems.Kernel.Row.Equality.{text_eq→eq, text_eq_refl}
use semantic_systems.Concurrency.Schema.{TaskTerminalOutcome, StructuredConcurrencyObservation}
use semantic_systems.Concurrency.Oracle.{
  OracleTask, Oracle, same_outcome, get_task, put_task, is_suspended, observe, touch_task,
  change_task, settle, join_observation,
}
use semantic_systems.Concurrency.Run.{exit_waits, join_is_stable, outcome_is}
use semantic_systems.Concurrency.Tables.{
  true-false, get_task-put_task, get_task-pushed, get_task-at, All-put_task,
}
use semantic_systems.Concurrency.Changes.{IsPresent, IsDistinct, Changes}

abbrev pub ExitsWait : Oracle → Type 0
ExitsWait o = All (λ x. exit_waits x ≡ true) o.observations

join_observation-waits : (i : ℕ) (t : OracleTask) → exit_waits (join_observation i t) ≡ true
unfolding exit_waits join_observation
join_observation-waits i t = elim (Option-cases t.outcome) [
  | inl running ↦ rw (join_observation, running) refl
  | inr (w, ended) ↦ rw (join_observation, ended) refl
]

pub Changes-ExitsWait :
    (i : ℕ) (o o' : Oracle) → IsDistinct o.tasks → Changes i o o' → ExitsWait o → ExitsWait o'
unfolding observe touch_task change_task exit_waits
Changes-ExitsWait i o o' d (Changes.opened scope parent scopes) h =
    All-append _ o.observations _ h (refl, tt)
Changes-ExitsWait i o o' d (Changes.spawned task scope program total free) h =
    All-append _ o.observations _ h (refl, tt)
Changes-ExitsWait i o o' d (Changes.moved t from to present) h =
    All-append _ o.observations _ h (refl, tt)
Changes-ExitsWait i o o' d (Changes.yielded t label present) h =
    All-append _ o.observations _ h (refl, tt)
Changes-ExitsWait i o o' d (Changes.settled t outcome present live) h =
    All-append _ o.observations _ h (refl, tt)
Changes-ExitsWait i o o' d (Changes.requested t source present) h =
    All-append _ o.observations _ h (refl, tt)
Changes-ExitsWait i o o' d (Changes.delivered t outcome present live) h =
    All-append _ o.observations _ h (refl, tt)
Changes-ExitsWait i o o' d (Changes.joined t present) h =
    All-append _ o.observations _ h (join_observation-waits i t, tt)
Changes-ExitsWait i o o' d (Changes.exited scope scopes result children live waits) h =
    All-append _ o.observations _ h (waits, tt)

-- A live task has no outcome.
abbrev pub IsUnfinished : OracleTask → Type 0
IsUnfinished t = is_suspended t ≡ true → t.outcome ≡ none

-- The task of a join has the outcome that was observed.
abbrev pub IsJoined : List OracleTask → StructuredConcurrencyObservation → Type 0
IsJoined tasks (StructuredConcurrencyObservation.join_observed i task w) =
    (t : OracleTask) × ((get_task tasks task ≡ some t) × (t.outcome ≡ some w))
IsJoined tasks _ = Unit

pub record JoinsStable (o : Oracle) : Type 0 where
  pub tasks : All IsUnfinished o.tasks
  pub observations : All (IsJoined o.tasks) o.observations

IsJoined-map :
    (tasks tasks' : List OracleTask) (x : StructuredConcurrencyObservation)
    → ((task : Text) (t : OracleTask) (w : TaskTerminalOutcome)
        → get_task tasks task ≡ some t
        → t.outcome ≡ some w
        → (u : OracleTask) × ((get_task tasks' task ≡ some u) × (u.outcome ≡ some w)))
    → IsJoined tasks x
    → IsJoined tasks' x
IsJoined-map tasks tasks' (StructuredConcurrencyObservation.join_observed i task w) k
      (t, (found, ended)) =
    k task t w found ended
IsJoined-map tasks tasks' (StructuredConcurrencyObservation.scope_opened i s p) k h = tt
IsJoined-map tasks tasks' (StructuredConcurrencyObservation.task_spawned i s p) k h = tt
IsJoined-map tasks tasks' (StructuredConcurrencyObservation.task_transferred i t a b) k h = tt
IsJoined-map tasks tasks' (StructuredConcurrencyObservation.task_yielded i t n l) k h = tt
IsJoined-map tasks tasks' (StructuredConcurrencyObservation.task_settled i t w) k h = tt
IsJoined-map tasks tasks' (StructuredConcurrencyObservation.cancel_requested i t s f) k h = tt
IsJoined-map tasks tasks' (StructuredConcurrencyObservation.join_blocked i t) k h = tt
IsJoined-map tasks tasks' (StructuredConcurrencyObservation.scope_exit i s r c l) k h = tt

-- A task that is put back with the outcome that it had, if it had one.
put-outcome :
    (tasks : List OracleTask) (changed t : OracleTask)
    → get_task tasks changed.task ≡ some t
    → ((w : TaskTerminalOutcome) → t.outcome ≡ some w → changed.outcome ≡ some w)
    → (task : Text) (u : OracleTask) (w : TaskTerminalOutcome) → get_task tasks task ≡ some u
    → u.outcome ≡ some w
    → (v : OracleTask) × ((get_task (put_task changed tasks) task ≡ some v) × (v.outcome ≡ some w))
put-outcome tasks changed t present keep task u w found ended =
    elim (Bool-cases (text_eq changed.task task)) [
      | inr other ↦ (u, (get_task-put_task tasks changed t task present ∙ rw other found, ended))
      | inl this ↦
          let same = text_eq→eq changed.task task this in
          let both : some u ≡ some t =
            sym found ∙ subst (λ k. get_task tasks k ≡ some t) same present in
          (
            changed,
            (
              get_task-put_task tasks changed t task present ∙ rw this refl,
              keep w (subst (λ x. x.outcome ≡ some w) (some-injective both) ended),
            ),
          )
    ]

put-JoinsStable :
    (o : Oracle) (changed t : OracleTask) (x : StructuredConcurrencyObservation)
    → get_task o.tasks changed.task ≡ some t
    → ((w : TaskTerminalOutcome) → t.outcome ≡ some w → changed.outcome ≡ some w)
    → IsUnfinished changed
    → IsJoined (put_task changed o.tasks) x
    → JoinsStable o
    → All IsUnfinished (put_task changed o.tasks)
      × All (IsJoined (put_task changed o.tasks)) (o.observations ++ x ∷ [])
put-JoinsStable o changed t x present keep unfinished joined h = (
  All-put_task IsUnfinished changed o.tasks unfinished h.tasks,
  All-append _ o.observations (x ∷ [])
      (All-map _ _ o.observations
        (λ y. IsJoined-map o.tasks _ y (put-outcome o.tasks changed t present keep)) h.observations)
      (joined, tt),
)

-- A task that is not live any more, and one that is as live as it was.
settle-IsUnfinished : (t : OracleTask) (w : TaskTerminalOutcome) → IsUnfinished (settle t w)
unfolding settle is_suspended
settle-IsUnfinished t w live = absurd (true-false (sym live))

kept-outcome :
    (o : Oracle) (t : OracleTask) (v : TaskTerminalOutcome)
    → JoinsStable o
    → IsPresent o.tasks t
    → is_suspended t ≡ true
    → (w : TaskTerminalOutcome) → t.outcome ≡ some w
    → some v ≡ some w
kept-outcome o t v h present live w ended =
    absurd
      (none-some (sym (get_task-at IsUnfinished o.tasks t.task t h.tasks present live) ∙ ended))

join_observation-IsJoined :
    (tasks : List OracleTask) (i : ℕ) (t : OracleTask)
    → IsPresent tasks t
    → IsJoined tasks (join_observation i t)
unfolding join_observation
join_observation-IsJoined tasks i t present = elim (Option-cases t.outcome) [
  | inl running ↦ rw (IsJoined, join_observation, running) tt
  | inr (w, ended) ↦
      subst
        (λ e. IsJoined tasks (elim e [
          | none ↦ StructuredConcurrencyObservation.join_blocked i t.task
          | some outcome ↦ StructuredConcurrencyObservation.join_observed i t.task outcome
        ]))
        (sym ended) (t, (present, ended))
]

pub Changes-JoinsStable :
    (i : ℕ) (o o' : Oracle) → IsDistinct o.tasks → Changes i o o' → JoinsStable o → JoinsStable o'
unfolding observe touch_task change_task settle is_suspended
Changes-JoinsStable i o o' d (Changes.opened scope parent scopes) h = record {
  tasks = h.tasks;
  observations = All-append _ o.observations _ h.observations (tt, tt);
}
Changes-JoinsStable i o o' d (Changes.spawned task scope program total free) h = record {
  tasks = All-append IsUnfinished o.tasks _ h.tasks ((λ live. refl), tt);
  observations =
      All-append _ o.observations _
        (All-map _ _ o.observations
          (λ y.
            IsJoined-map o.tasks _ y
              (λ key t w found ended. (t, (get_task-pushed o.tasks _ t key found, ended))))
          h.observations)
        (tt, tt);
}
Changes-JoinsStable i o o' d (Changes.moved t from to present) h =
    let (a, b) =
      put-JoinsStable o (record t { owner_scope = some to }) t _ present (λ w e. e)
        (get_task-at IsUnfinished o.tasks t.task t h.tasks present) tt h in
    record { tasks = a; observations = b }
Changes-JoinsStable i o o' d (Changes.yielded t label present) h =
    let (a, b) =
      put-JoinsStable o (record t { next_step = t.next_step + 1 }) t _ present (λ w e. e)
        (get_task-at IsUnfinished o.tasks t.task t h.tasks present) tt h in
    record { tasks = a; observations = b }
Changes-JoinsStable i o o' d (Changes.settled t outcome present live) h =
    let (a, b) =
      put-JoinsStable o (settle (record t { next_step = t.next_step + 1 }) outcome) t _ present
        (kept-outcome o t outcome h present live)
        (settle-IsUnfinished (record t { next_step = t.next_step + 1 }) outcome) tt h in
    record { tasks = a; observations = b }
Changes-JoinsStable i o o' d (Changes.requested t source present) h =
    let (a, b) =
      put-JoinsStable o (record t { cancellation_requested = true }) t _ present (λ w e. e)
        (get_task-at IsUnfinished o.tasks t.task t h.tasks present) tt h in
    record { tasks = a; observations = b }
Changes-JoinsStable i o o' d (Changes.delivered t outcome present live) h =
    let (a, b) =
      put-JoinsStable o (settle t outcome) t _ present (kept-outcome o t outcome h present live)
        (settle-IsUnfinished t outcome) tt h in
    record { tasks = a; observations = b }
Changes-JoinsStable i o o' d (Changes.joined t present) h = record {
  tasks = h.tasks;
  observations =
      All-append _ o.observations _ h.observations
        (join_observation-IsJoined o.tasks i t present, tt);
}
Changes-JoinsStable i o o' d (Changes.exited scope scopes result children live waits) h = record {
  tasks = h.tasks;
  observations = All-append _ o.observations _ h.observations (tt, tt);
}

same_outcome_refl : (w : TaskTerminalOutcome) → same_outcome w w ≡ true
unfolding same_outcome
same_outcome_refl TaskTerminalOutcome.succeeded = refl
same_outcome_refl (TaskTerminalOutcome.failed message) = text_eq_refl message
same_outcome_refl TaskTerminalOutcome.cancelled = refl

-- The test of the report holds of a join.
pub IsJoined-join_is_stable :
    (tasks : List OracleTask) (x : StructuredConcurrencyObservation)
    → IsJoined tasks x
    → join_is_stable tasks x ≡ true
unfolding join_is_stable outcome_is
IsJoined-join_is_stable tasks (StructuredConcurrencyObservation.join_observed i task w)
      (t, (found, ended)) =
    rw (found, ended) (same_outcome_refl w)
IsJoined-join_is_stable tasks (StructuredConcurrencyObservation.scope_opened i s p) h = refl
IsJoined-join_is_stable tasks (StructuredConcurrencyObservation.task_spawned i s p) h = refl
IsJoined-join_is_stable tasks (StructuredConcurrencyObservation.task_transferred i t a b) h = refl
IsJoined-join_is_stable tasks (StructuredConcurrencyObservation.task_yielded i t n l) h = refl
IsJoined-join_is_stable tasks (StructuredConcurrencyObservation.task_settled i t w) h = refl
IsJoined-join_is_stable tasks (StructuredConcurrencyObservation.cancel_requested i t s f) h = refl
IsJoined-join_is_stable tasks (StructuredConcurrencyObservation.join_blocked i t) h = refl
IsJoined-join_is_stable tasks (StructuredConcurrencyObservation.scope_exit i s r c l) h = refl

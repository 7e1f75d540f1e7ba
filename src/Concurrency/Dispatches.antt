-- ===== src/Concurrency/Dispatches.antt =====
-- src/structured-concurrency/oracle.ts: no step of a task is dispatched twice.
use mathlib.Core.Path.{subst}
use semantic_systems.Base.{
  ℕ, ◌+◌, ◌≤◌, ◌<◌, ◌≡◌, refl, sym, ◌∙◌, ap, inl, inr, Bool, true, ◌&&◌, List, [], ◌∷◌, ◌++◌, some,
  Bool-cases, some-injective, arith, All, All-append, All-map, filter, append-nil, append_assoc,
  every, length, if◌then◌else◌, ltb, ◌==◌, and-eq-true,
}
use semantic_systems.Kernel.Row.{text_eq}
use semantic_systems.Kernel.Row.Equality.{text_eq→eq, text_eq_refl}
use semantic_systems.Concurrency.Schema.{ScheduleDecision, DispatchResult}
use semantic_systems.Concurrency.Oracle.{
  OracleTask, Oracle, get_task, put_task, observe, touch_task, change_task, settle,
}
use semantic_systems.Concurrency.Run.{is_one_shot}
use semantic_systems.Concurrency.Tables.{get_task-put_task, get_task-pushed}
use semantic_systems.Concurrency.Changes.{IsPresent, IsDistinct, Changes}

-- The decision is on a step that its task has gone past.
abbrev pub IsPast : List OracleTask → ScheduleDecision → Type 0
IsPast tasks d =
    (t : OracleTask) × ((get_task tasks d.task ≡ some t) × (d.step_index < t.next_step))

pub record DispatchesOnce (o : Oracle) : Type 0 where
  pub past : All (IsPast o.tasks) o.schedule
  pub one_shot : is_one_shot [] o.schedule ≡ true

-- A task that is put back at a step that is no earlier.
put-IsPast :
    (tasks : List OracleTask) (changed t : OracleTask)
    → get_task tasks changed.task ≡ some t
    → t.next_step ≤ changed.next_step
    → (d : ScheduleDecision) → IsPast tasks d
    → IsPast (put_task changed tasks) d
put-IsPast tasks changed t present le d (u, (found, lt)) =
    elim (Bool-cases (text_eq changed.task d.task)) [
      | inr other ↦ (u, (get_task-put_task tasks changed t d.task present ∙ rw other found, lt))
      | inl this ↦
          let same = text_eq→eq changed.task d.task this in
          let both : some u ≡ some t =
            sym found ∙ subst (λ k. get_task tasks k ≡ some t) same present in
          let next : u.next_step ≡ t.next_step = ap (λ x. x.next_step) (some-injective both) in
          (changed, (get_task-put_task tasks changed t d.task present ∙ rw this refl, omega arith))
    ]

-- The decisions on the same task that were made before are on earlier steps.
earlier-steps :
    (tasks : List OracleTask) (t : OracleTask) (schedule : List ScheduleDecision)
    → IsPresent tasks t
    → All (IsPast tasks) schedule
    → every (λ d. ltb d.step_index t.next_step) (filter (λ d. text_eq d.task t.task) schedule)
      ≡ true
unfolding every filter
earlier-steps tasks t [] present h = refl
earlier-steps tasks t (d ∷ schedule) present ((u, (found, lt)), hs) =
    elim (Bool-cases (text_eq d.task t.task)) [
      | inr other ↦ rw (every, filter, other) (earlier-steps tasks t schedule present hs)
      | inl this ↦
          let same = text_eq→eq d.task t.task this in
          let both : some u ≡ some t =
            sym (subst (λ k. get_task tasks k ≡ some u) same found) ∙ present in
          let next : u.next_step ≡ t.next_step = ap (λ x. x.next_step) (some-injective both) in
          let before : ltb d.step_index t.next_step ≡ true = ground arith in
          rw (every, filter, this, before) (earlier-steps tasks t schedule present hs)
    ]

-- The test of one decision.
abbrev decides_next : List ScheduleDecision → ScheduleDecision → Bool
decides_next earlier c =
    c.dispatch_index == length earlier
    && every (λ d. ltb d.step_index c.step_index) (filter (λ d. text_eq d.task c.task) earlier)

is_one_shot-pushed :
    (earlier schedule : List ScheduleDecision) (d : ScheduleDecision)
    → is_one_shot earlier schedule ≡ true
    → d.dispatch_index ≡ length (earlier ++ schedule)
    → every
        (λ c. ltb c.step_index d.step_index)
        (filter (λ c. text_eq c.task d.task) (earlier ++ schedule))
      ≡ true
    → is_one_shot earlier (schedule ++ d ∷ []) ≡ true
unfolding is_one_shot
is_one_shot-pushed earlier [] d h index steps =
    let e : earlier ++ [] ≡ earlier = append-nil earlier in
    let i : (d.dispatch_index == length earlier) ≡ true = ground (arith, ap length e) in
    rw
      (
        i,
        (subst
            (λ xs.
              every (λ c. ltb c.step_index d.step_index) (filter (λ c. text_eq c.task d.task) xs)
              ≡ true)
            e steps),
      )
      refl
is_one_shot-pushed earlier (c ∷ schedule) d h index steps =
    let (first, rest) =
      and-eq-true (decides_next earlier c) (is_one_shot (earlier ++ c ∷ []) schedule) h in
    let e : earlier ++ (c ∷ schedule) ≡ (earlier ++ c ∷ []) ++ schedule =
      sym (append_assoc earlier (c ∷ []) schedule) in
    rw (is_one_shot, first)
      (is_one_shot-pushed (earlier ++ c ∷ []) schedule d rest (index ∙ ap length e) (
        subst
          (λ xs.
            every (λ c. ltb c.step_index d.step_index) (filter (λ c. text_eq c.task d.task) xs)
            ≡ true)
          e steps))

abbrev decision : Oracle → ℕ → OracleTask → DispatchResult → ScheduleDecision
decision o i t result = record {
  dispatch_index = length o.schedule;
  event_index = i;
  task = t.task;
  step_index = t.next_step;
  result = result;
}

-- A decision on the next step of a task that goes past it.
dispatch-DispatchesOnce :
    (o : Oracle) (t changed : OracleTask) (d : ScheduleDecision)
    → IsPresent o.tasks t
    → changed.task ≡ t.task
    → changed.next_step ≡ t.next_step + 1
    → d.task ≡ t.task
    → d.step_index ≡ t.next_step
    → d.dispatch_index ≡ length o.schedule
    → DispatchesOnce o
    → All (IsPast (put_task changed o.tasks)) (o.schedule ++ d ∷ [])
      × (is_one_shot [] (o.schedule ++ d ∷ []) ≡ true)
dispatch-DispatchesOnce o t changed d present key next task step index h =
    let there : get_task o.tasks changed.task ≡ some t =
      subst (λ k. get_task o.tasks k ≡ some t) (sym key) present in
    let here : get_task (put_task changed o.tasks) d.task ≡ some changed =
      get_task-put_task o.tasks changed t d.task there
      ∙ ap (λ b. if b then some changed else get_task o.tasks d.task)
          (subst (λ k. text_eq changed.task k ≡ true) (key ∙ sym task)
            (text_eq_refl changed.task)) in
    (
      All-append (IsPast (put_task changed o.tasks)) o.schedule (d ∷ [])
          (All-map _ _ o.schedule (put-IsPast o.tasks changed t there (omega arith)) h.past)
          ((changed, (here, omega arith)), tt),
      is_one_shot-pushed [] o.schedule d h.one_shot index (
          subst
            (λ k.
              every (λ c. ltb c.step_index k) (filter (λ c. text_eq c.task d.task) o.schedule)
              ≡ true)
            (sym step)
            (subst
              (λ k.
                every (λ c. ltb c.step_index t.next_step)
                  (filter (λ c. text_eq c.task k) o.schedule)
                ≡ true)
              (sym task) (earlier-steps o.tasks t o.schedule present h.past))),
    )

kept-DispatchesOnce :
    (o : Oracle) (changed t : OracleTask)
    → get_task o.tasks changed.task ≡ some t
    → t.next_step ≤ changed.next_step
    → DispatchesOnce o
    → All (IsPast (put_task changed o.tasks)) o.schedule
kept-DispatchesOnce o changed t present le h =
    All-map _ _ o.schedule (put-IsPast o.tasks changed t present le) h.past

pub Changes-DispatchesOnce :
    (i : ℕ) (o o' : Oracle)
    → IsDistinct o.tasks
    → Changes i o o'
    → DispatchesOnce o
    → DispatchesOnce o'
unfolding observe touch_task change_task settle
Changes-DispatchesOnce i o o' d (Changes.opened scope parent scopes) h = record {
  past = h.past;
  one_shot = h.one_shot;
}
Changes-DispatchesOnce i o o' d (Changes.spawned task scope program total free) h = record {
  past =
      All-map _ _ o.schedule
        (λ c (t, (found, lt)). (t, (get_task-pushed o.tasks _ t c.task found, lt))) h.past;
  one_shot = h.one_shot;
}
Changes-DispatchesOnce i o o' d (Changes.moved t from to present) h = record {
  past = kept-DispatchesOnce o (record t { owner_scope = some to }) t present (omega arith) h;
  one_shot = h.one_shot;
}
Changes-DispatchesOnce i o o' d (Changes.yielded t label present) h =
    let (a, b) =
      dispatch-DispatchesOnce o t (record t { next_step = t.next_step + 1 })
        (decision o i t DispatchResult.yielded) present refl refl refl refl refl h in
    record { past = a; one_shot = b }
Changes-DispatchesOnce i o o' d (Changes.settled t outcome present live) h =
    let (a, b) =
      dispatch-DispatchesOnce o t (settle (record t { next_step = t.next_step + 1 }) outcome)
        (decision o i t DispatchResult.settled) present refl refl refl refl refl h in
    record { past = a; one_shot = b }
Changes-DispatchesOnce i o o' d (Changes.requested t source present) h = record {
  past =
      kept-DispatchesOnce o (record t { cancellation_requested = true }) t present (omega arith) h;
  one_shot = h.one_shot;
}
Changes-DispatchesOnce i o o' d (Changes.delivered t outcome present live) h = record {
  past = kept-DispatchesOnce o (settle t outcome) t present (omega arith) h;
  one_shot = h.one_shot;
}
Changes-DispatchesOnce i o o' d (Changes.joined t present) h = record {
  past = h.past;
  one_shot = h.one_shot;
}
Changes-DispatchesOnce i o o' d (Changes.exited scope scopes result children live waits) h =
    record { past = h.past; one_shot = h.one_shot }

-- ===== src/Concurrency/Transitions/Decides.antt =====
-- src/structured-concurrency/oracle.ts: the step function decides the step relation.
use semantic_systems.Base.{
  ℕ, ◌+◌, ◌≡◌, ◌↔◌, refl, sym, inl, inr, Bool, true, false, ◌&&◌, some, arith, length, leb, ltb,
  Bool-cases, Option-cases, get_elem?, and-eq-true, if◌then◌else◌,
}
use mathlib.Core.Path.{subst}
use semantic_systems.Kernel.Row.{Text, text_eq}
use semantic_systems.Concurrency.Schema.{
  TaskProgram, StructuredConcurrencyEvent, maximum_scopes, maximum_tasks, maximum_yields,
}
use semantic_systems.Concurrency.Tables.{true-false}
use semantic_systems.Concurrency.Oracle.{
  OracleTask, Oracle, Stepped, get_scope, get_task, is_open, is_suspended, is_owner, fail,
  open_scope, spawn, transfer, dispatch, request_cancel, deliver_cancel, join, exit_scope,
  with_task, step,
}
use semantic_systems.Concurrency.Transitions.{Accepts}

-- What a step has to show: its oracle, if it gives one, is that of an accepted event.
abbrev pub StepAccepts : ℕ → StructuredConcurrencyEvent → Oracle → Stepped → Type 0
StepAccepts i e o (inl failure) = Unit
StepAccepts i e o (inr o') = Accepts i o e o'

if-StepAccepts :
    (i : ℕ) (e : StructuredConcurrencyEvent) (o : Oracle) (b : Bool) (x y : Stepped)
    → (b ≡ true → StepAccepts i e o x)
    → (b ≡ false → StepAccepts i e o y)
    → StepAccepts i e o (if b then x else y)
if-StepAccepts i e o true x y h k = h refl
if-StepAccepts i e o false x y h k = k refl

module _ (i : ℕ) (o : Oracle) where
  open_scope-StepAccepts :
      (scope parent : Text)
      → StepAccepts i
          (StructuredConcurrencyEvent.open_scope scope parent)
          o
          (open_scope i scope parent o)
  unfolding open_scope fail
  open_scope-StepAccepts scope parent = elim (Option-cases (get_scope o.scopes scope)) [
    | inr (used, e) ↦ rw (open_scope, e) tt
    | inl free ↦ elim (Bool-cases (is_open (get_scope o.scopes parent))) [
      | inr shut ↦ rw (open_scope, free, shut) tt
      | inl open_parent ↦ elim (Bool-cases (leb maximum_scopes (length o.scopes))) [
        | inl full ↦ rw (open_scope, free, open_parent, full) tt
        | inr room ↦
            rw (open_scope, free, open_parent, room) (Accepts.opens free open_parent (ground arith))
      ]
    ]
  ]

  spawn-StepAccepts :
      (task scope : Text) (program : TaskProgram)
      → StepAccepts i
          (StructuredConcurrencyEvent.spawn task scope program)
          o
          (spawn i task scope program o)
  unfolding spawn fail
  spawn-StepAccepts task scope program = elim (Option-cases (get_task o.tasks task)) [
    | inr (used, e) ↦ rw (spawn, e) tt
    | inl free ↦ elim (Bool-cases (is_open (get_scope o.scopes scope))) [
      | inr shut ↦ rw (spawn, free, shut) tt
      | inl open_scope ↦ elim (Bool-cases (leb maximum_tasks (length o.tasks))) [
        | inl full ↦ rw (spawn, free, open_scope, full) tt
        | inr room ↦
            elim (Bool-cases (ltb maximum_yields (o.total_yields + length program.yields))) [
              | inl many ↦ rw (spawn, free, open_scope, room, many) tt
              | inr few ↦
                  rw (spawn, free, open_scope, room, few)
                    (Accepts.spawns free open_scope (ground arith) (ground arith))
            ]
      ]
    ]
  ]

  module _ (task : Text) (t : OracleTask) (found : get_task o.tasks task ≡ some t) where
    transfer-StepAccepts :
        (from to : Text)
        → StepAccepts i
            (StructuredConcurrencyEvent.transfer task from to)
            o
            (transfer i t from to o)
    unfolding transfer fail
    transfer-StepAccepts from to =
        elim (Bool-cases (is_suspended t && is_owner t.owner_scope from)) [
          | inr other ↦ rw (transfer, other) tt
          | inl both ↦
              let (live, owned) = and-eq-true (is_suspended t) (is_owner t.owner_scope from) both in
              elim (Bool-cases (text_eq from to)) [
                | inl same ↦ rw (transfer, both, same) tt
                | inr differ ↦
                    elim (Bool-cases
                      (is_open (get_scope o.scopes from) && is_open (get_scope o.scopes to))) [
                        | inr shut ↦ rw (transfer, both, differ, shut) tt
                        | inl opened ↦
                            let (source, target) =
                              and-eq-true (is_open (get_scope o.scopes from))
                                (is_open (get_scope o.scopes to)) opened in
                            rw (transfer, both, differ, opened)
                              (Accepts.transfers found live owned differ source target)
                      ]
              ]
        ]

    dispatch-StepAccepts :
        StepAccepts i (StructuredConcurrencyEvent.dispatch task) o (dispatch i t o)
    unfolding dispatch fail
    dispatch-StepAccepts = elim (Bool-cases (is_suspended t)) [
      | inr over ↦ rw (dispatch, over) tt
      | inl live ↦ elim (Option-cases (get_elem? t.program.yields t.next_step)) [
        | inl done ↦ rw (dispatch, live, done) (Accepts.settles found live done)
        | inr (label, more) ↦ rw (dispatch, live, more) (Accepts.yields found live more)
      ]
    ]

    request_cancel-StepAccepts :
        StepAccepts i (StructuredConcurrencyEvent.request_cancel task) o (request_cancel i t o)
    unfolding request_cancel fail
    request_cancel-StepAccepts = elim (Bool-cases (is_suspended t)) [
      | inr over ↦ rw (request_cancel, over) tt
      | inl live ↦ rw (request_cancel, live) (Accepts.requests found live)
    ]

    deliver_cancel-StepAccepts :
        StepAccepts i (StructuredConcurrencyEvent.deliver_cancel task) o (deliver_cancel i t o)
    unfolding deliver_cancel fail
    deliver_cancel-StepAccepts = elim (Bool-cases (is_suspended t)) [
      | inr over ↦ rw (deliver_cancel, over) tt
      | inl live ↦
          rw (deliver_cancel, live)
            (if-StepAccepts i _ o t.cancellation_requested _ _ (Accepts.delivers found live)
              (λ unasked. tt))
    ]

  with_task-StepAccepts :
      (e : StructuredConcurrencyEvent) (task : Text) (act : OracleTask → Oracle → Stepped)
      → ((t : OracleTask) → get_task o.tasks task ≡ some t → StepAccepts i e o (act t o))
      → StepAccepts i e o (with_task i task act o)
  unfolding with_task fail
  with_task-StepAccepts e task act k = elim (Option-cases (get_task o.tasks task)) [
    | inl missing ↦ rw (with_task, missing) tt
    | inr (t, found) ↦ rw (with_task, found) (k t found)
  ]

  exit_scope-StepAccepts :
      (scope : Text)
      → StepAccepts i (StructuredConcurrencyEvent.exit_scope scope) o (exit_scope i scope o)
  unfolding exit_scope fail
  exit_scope-StepAccepts scope = elim (Option-cases (get_scope o.scopes scope)) [
    | inl missing ↦ rw (exit_scope, missing) tt
    | inr (s, found) ↦ elim (Bool-cases (is_open (some s))) [
      | inr shut ↦ rw (exit_scope, found, shut) tt
      | inl opened ↦ rw (exit_scope, found, opened) (Accepts.exits found opened)
    ]
  ]

  step-StepAccepts : (e : StructuredConcurrencyEvent) → StepAccepts i e o (step i e o)
  unfolding step join
  step-StepAccepts (StructuredConcurrencyEvent.open_scope scope parent) =
      open_scope-StepAccepts scope parent
  step-StepAccepts (StructuredConcurrencyEvent.spawn task scope program) =
      spawn-StepAccepts task scope program
  step-StepAccepts (StructuredConcurrencyEvent.transfer task from to) =
      with_task-StepAccepts _ task (λ t. transfer i t from to)
        (λ t found. transfer-StepAccepts task t found from to)
  step-StepAccepts (StructuredConcurrencyEvent.dispatch task) =
      with_task-StepAccepts _ task (dispatch i) (dispatch-StepAccepts task)
  step-StepAccepts (StructuredConcurrencyEvent.request_cancel task) =
      with_task-StepAccepts _ task (request_cancel i) (request_cancel-StepAccepts task)
  step-StepAccepts (StructuredConcurrencyEvent.deliver_cancel task) =
      with_task-StepAccepts _ task (deliver_cancel i) (deliver_cancel-StepAccepts task)
  step-StepAccepts (StructuredConcurrencyEvent.join task) =
      with_task-StepAccepts _ task (join i) (λ t found. Accepts.joins found)
  step-StepAccepts (StructuredConcurrencyEvent.exit_scope scope) = exit_scope-StepAccepts scope

if-right : (b : Bool) (x y : Stepped) → b ≡ true → (if b then x else y) ≡ x
if-right true x y h = refl
if-right false x y h = absurd (true-false (sym h))

Accepts-step :
    (i : ℕ) (o o' : Oracle) (e : StructuredConcurrencyEvent)
    → Accepts i o e o'
    → step i e o ≡ inr o'
unfolding step with_task open_scope spawn transfer dispatch request_cancel deliver_cancel join
    exit_scope
Accepts-step i o o' e (Accepts.opens free opened room) =
    let r : leb maximum_scopes (length o.scopes) ≡ false = ground arith in
    rw (step, open_scope, free, opened, r) refl
Accepts-step i o o' e (Accepts.spawns {program = program} free opened room few) =
    let r : leb maximum_tasks (length o.tasks) ≡ false = ground arith in
    let f : ltb maximum_yields (o.total_yields + length program.yields) ≡ false = ground arith in
    rw (step, spawn, free, opened, r, f) refl
Accepts-step i o o' e (Accepts.transfers found live owned differ source target) =
    rw (step, with_task, found, transfer, live, owned, differ, source, target) refl
Accepts-step i o o' e (Accepts.yields found live more) =
    rw (step, with_task, found, dispatch, live, more) refl
Accepts-step i o o' e (Accepts.settles found live done) =
    rw (step, with_task, found, dispatch, live, done) refl
Accepts-step i o o' e (Accepts.requests found live) =
    rw (step, with_task, found, request_cancel, live) refl
Accepts-step i o o' e (Accepts.delivers {t = t} found live asked) =
    rw (step, with_task, found, deliver_cancel, live) (if-right t.cancellation_requested _ _ asked)
Accepts-step i o o' e (Accepts.joins found) = rw (step, with_task, found, join) refl
Accepts-step i o o' e (Accepts.exits found opened) = rw (step, exit_scope, found, opened) refl

-- An event takes the oracle to another one exactly when the step relation does: the guards of the
-- relation are all that the event needs, and any other event fails.
pub step_iff :
    (i : ℕ) (e : StructuredConcurrencyEvent) (o o' : Oracle)
    → (step i e o ≡ inr o') ↔ Accepts i o e o'
step_iff i e o o' =
    (λ h. subst (StepAccepts i e o) h (step-StepAccepts i o e), Accepts-step i o o' e)

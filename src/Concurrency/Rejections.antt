-- ===== src/Concurrency/Rejections.antt =====
-- src/structured-concurrency/oracle.ts: which scripts the oracle rejects, and with what failure.
use mathlib.Core.Path.{subst}
use mathlib.Core.Sum.{inl-injective, inr-injective}
use semantic_systems.Base.{
  ℕ, ◌+◌, ◌≡◌, ◌↔◌, refl, ◌∙◌, ap, inl, inr, Bool, true, false, ◌&&◌, List, [], ◌∷◌, ◌++◌, Option,
  none, some, arith, length, leb, ltb, get_elem?, if◌then◌else◌,
}
use semantic_systems.Kernel.Row.{Text, text_eq}
use semantic_systems.Concurrency.Schema.{
  StructuredConcurrencyEvent, StructuredConcurrencyScript, StructuredConcurrencyFailure,
  StructuredConcurrencyRun, maximum_scopes, maximum_tasks, maximum_yields,
}
use semantic_systems.Concurrency.Oracle.{
  OracleTask, Oracle, Stepped, get_scope, get_task, is_open, is_suspended, is_owner, fail,
  open_scope, spawn, transfer, dispatch, request_cancel, deliver_cancel, join, exit_scope,
  with_task, step,
}
use semantic_systems.Concurrency.Changes.Keeps.{Stepped-cases}
use semantic_systems.Concurrency.Run.{run_events, initial_oracle, run_oracle}

-- A failure, if there is one, names the event with the index.
abbrev pub FailsAt : ℕ → Stepped → Type 0
FailsAt i (inl failure) = failure.event_index ≡ i
FailsAt i (inr o) = Unit

if-FailsAt :
    (i : ℕ) (b : Bool) (x y : Stepped) → FailsAt i x → FailsAt i y → FailsAt i (if b then x else y)
if-FailsAt i true x y h k = h
if-FailsAt i false x y h k = k

option-FailsAt :
    {A : Type 0} (i : ℕ) (a : Option A) (x : Stepped) (f : A → Stepped)
    → FailsAt i x
    → ((a : A) → FailsAt i (f a))
    → FailsAt i (elim a [ none ↦ x | some b ↦ f b ])
option-FailsAt i none x f h k = h
option-FailsAt i (some a) x f h k = k a

module _ (i : ℕ) (o : Oracle) where
  with_task-FailsAt :
      (task : Text) (act : OracleTask → Oracle → Stepped)
      → ((t : OracleTask) → FailsAt i (act t o))
      → FailsAt i (with_task i task act o)
  unfolding with_task fail
  with_task-FailsAt task act k = option-FailsAt i (get_task o.tasks task) _ (λ t. act t o) refl k

  step-FailsAt : (e : StructuredConcurrencyEvent) → FailsAt i (step i e o)
  unfolding step fail open_scope spawn transfer dispatch request_cancel deliver_cancel join
      exit_scope
  step-FailsAt (StructuredConcurrencyEvent.open_scope scope parent) =
      option-FailsAt i (get_scope o.scopes scope) _ _
        (if-FailsAt i (is_open (get_scope o.scopes parent)) _ _
          (if-FailsAt i (leb maximum_scopes (length o.scopes)) _ _ refl tt) refl)
        (λ used. refl)
  step-FailsAt (StructuredConcurrencyEvent.spawn task scope program) =
      option-FailsAt i (get_task o.tasks task) _ _
        (if-FailsAt i (is_open (get_scope o.scopes scope)) _ _
          (if-FailsAt i (leb maximum_tasks (length o.tasks)) _ _ refl (
            if-FailsAt i (ltb maximum_yields (o.total_yields + length program.yields)) _ _ refl tt))
          refl)
        (λ used. refl)
  step-FailsAt (StructuredConcurrencyEvent.transfer task from to) =
      with_task-FailsAt task (λ t. transfer i t from to)
        (λ t.
          if-FailsAt i (is_suspended t && is_owner t.owner_scope from) _ _
            (if-FailsAt i (text_eq from to) _ _ refl (
              if-FailsAt i (is_open (get_scope o.scopes from) && is_open (get_scope o.scopes to)) _
                _ tt refl))
            refl)
  step-FailsAt (StructuredConcurrencyEvent.dispatch task) =
      with_task-FailsAt task (dispatch i) (λ t.
        if-FailsAt i (is_suspended t) _ _
          (option-FailsAt i (get_elem? t.program.yields t.next_step) _ _ tt (λ label. tt)) refl)
  step-FailsAt (StructuredConcurrencyEvent.request_cancel task) =
      with_task-FailsAt task (request_cancel i) (λ t. if-FailsAt i (is_suspended t) _ _ tt refl)
  step-FailsAt (StructuredConcurrencyEvent.deliver_cancel task) =
      with_task-FailsAt task (deliver_cancel i) (λ t.
        if-FailsAt i (is_suspended t) _ _ (if-FailsAt i t.cancellation_requested _ _ tt refl) refl)
  step-FailsAt (StructuredConcurrencyEvent.join task) = with_task-FailsAt task (join i) (λ t. tt)
  step-FailsAt (StructuredConcurrencyEvent.exit_scope scope) =
      option-FailsAt i (get_scope o.scopes scope) _ _ refl
        (λ s. if-FailsAt i (is_open (some s)) _ _ tt refl)

-- The events split at the first one that fails: those before it are accepted, from the index `i` on
-- and from the oracle `o`, and it fails after them.
pub record FailsFirst (i : ℕ) (o : Oracle) (events : List StructuredConcurrencyEvent)
    (failure : StructuredConcurrencyFailure) : Type 0 where
  pub before : List StructuredConcurrencyEvent
  pub event : StructuredConcurrencyEvent
  pub after : List StructuredConcurrencyEvent
  pub reached : Oracle
  pub split : events ≡ before ++ event ∷ after
  pub accepted : run_events i before o ≡ inr reached
  pub failed : step (i + length before) event reached ≡ inl failure
  pub index : failure.event_index ≡ i + length before

-- A loop that fails has failed first at some event.
run_events-FailsFirst :
    (i : ℕ) (events : List StructuredConcurrencyEvent) (o : Oracle)
    (failure : StructuredConcurrencyFailure)
    → run_events i events o ≡ inl failure
    → FailsFirst i o events failure
unfolding run_events
run_events-FailsFirst i [] o failure h = absurd cc
run_events-FailsFirst i (event ∷ events) o failure h = elim (Stepped-cases (step i event o)) [
  | inl (f, e) ↦
      let now : step (i + 0) event o ≡ inl failure =
        subst (λ n. step n event o ≡ inl failure) (omega arith) (e ∙ (rw (run_events, e) at h)) in
      record {
        before = [];
        event = event;
        after = events;
        reached = o;
        split = refl;
        accepted = refl;
        failed = now;
        index = subst (λ s. FailsAt (i + 0) s) now (step-FailsAt (i + 0) o event);
      }
  | inr (o', e) ↦
      let first = run_events-FailsFirst (i + 1) events o' failure (rw (run_events, e) at h) in
      record {
        before = event ∷ first.before;
        event = first.event;
        after = first.after;
        reached = first.reached;
        split = ap (λ rest. event ∷ rest) first.split;
        accepted = rw (run_events, e) first.accepted;
        failed =
            subst (λ n. step n first.event first.reached ≡ inl failure) (omega arith) first.failed;
        index = omega (arith, first.index);
      }
]

-- A loop over events that an accepted list starts fails as the next event does.
FailsFirst-run_events :
    (before : List StructuredConcurrencyEvent) (i : ℕ) (o reached : Oracle)
    (event : StructuredConcurrencyEvent) (after : List StructuredConcurrencyEvent)
    (failure : StructuredConcurrencyFailure)
    → run_events i before o ≡ inr reached
    → step (i + length before) event reached ≡ inl failure
    → run_events i (before ++ event ∷ after) o ≡ inl failure
unfolding run_events
FailsFirst-run_events [] i o reached event after failure h k =
    let same : o ≡ reached = inr-injective o reached h in
    let now : step i event o ≡ inl failure =
      rw same (subst (λ n. step n event reached ≡ inl failure) (omega arith) k) in
    rw (run_events, now) refl
FailsFirst-run_events (e ∷ before) i o reached event after failure h k =
    elim (Stepped-cases (step i e o)) [
      | inl (f, failed) ↦
          absurd (let clash : inl f ≡ inr reached = rw (run_events, failed) at h in cc)
      | inr (o', goes) ↦
          rw (run_events, goes)
            (FailsFirst-run_events before (i + 1) o' reached event after failure
              (rw (run_events, goes) at h)
              (subst (λ n. step n event reached ≡ inl failure) (omega arith) k))
    ]

accepted-fails :
    {run : StructuredConcurrencyRun} {failure : StructuredConcurrencyFailure}
    → inr run ≡ inl failure
    → ⊥
accepted-fails e = cc

-- A script is rejected with a failure exactly when its events split into events that are accepted
-- and one that the oracle then fails on with this failure, whatever the events after it are; and
-- the failure's event index is the number of the events before.
pub run_oracle-FailsFirst :
    (script : StructuredConcurrencyScript) (failure : StructuredConcurrencyFailure)
    → (run_oracle script ≡ inl failure)
      ↔ FailsFirst 0 (initial_oracle script.root_scope) script.events failure
unfolding run_oracle
run_oracle-FailsFirst script failure = (
  λ h. elim (Stepped-cases (run_events 0 script.events (initial_oracle script.root_scope))) [
    | inl (f, e) ↦
        let same : f ≡ failure = inl-injective f failure (rw (run_oracle, e) at h) in
        run_events-FailsFirst 0 script.events _ failure (e ∙ ap inl same)
    | inr (o, e) ↦ absurd (accepted-fails (rw (run_oracle, e) at h))
  ],
  λ first.
      let fails =
        FailsFirst-run_events first.before 0 _ first.reached first.event first.after failure
          first.accepted first.failed in
      let whole : run_events 0 script.events (initial_oracle script.root_scope) ≡ inl failure =
        rw first.split fails in
      rw (run_oracle, whole) refl,
)

-- ===== src/Concurrency/Progress.antt =====
-- src/structured-concurrency/oracle.ts: oracles that accepted events lead to, one after the other.
pub mod Finish
use mathlib.Core.Path.{subst}
use semantic_systems.Base.{
  ℕ, zero, suc, ◌+◌, ◌≤◌, ◌<◌, ◌≡◌, refl, sym, ◌∙◌, ap, inl, inr, ◌⊎◌, true, false, List, [], ◌∷◌,
  ◌++◌, none, some, arith, All, Bool-cases, Option-cases, none-some, some-injective, length, filter,
  get_elem?, get_elem?-length,
}
use semantic_systems.Kernel.Row.{Text, text_eq}
use semantic_systems.Kernel.Row.Equality.{text_eq_refl}
use semantic_systems.Concurrency.Schema.{
  StructuredConcurrencyEvent, StructuredConcurrencyObservation, DispatchResult,
}
use semantic_systems.Concurrency.Oracle.{
  OracleTask, Oracle, copy_authored_outcome, get_task, put_task, is_suspended, observe, touch_task,
  change_task, schedule_with, settle, step,
}
use semantic_systems.Concurrency.Run.{run_events}
use semantic_systems.Concurrency.Tables.{get_task-put_task, get_task-at}
use semantic_systems.Concurrency.Transitions.{Accepts}
use semantic_systems.Concurrency.Transitions.Decides.{step_iff}
use semantic_systems.Concurrency.Scopes.{OrderedOracle, Accepts-Ordered}
use semantic_systems.Concurrency.Changes.{IsPresent, IsDistinct}
use semantic_systems.Concurrency.Changes.Keeps.{
  Accepts-keeps, run_events-keeps, Stepped-cases, left-right, IfOracle,
}

-- From the oracle `o`, with the events numbered from `i` on, some events are accepted that lead to
-- an oracle with the property.
pub record Leads (P : Oracle → Type 0) (i : ℕ) (o : Oracle) : Type 0 where
  pub events : List StructuredConcurrencyEvent
  pub reached : Oracle
  pub accepted : run_events i events o ≡ inr reached
  pub holds : P reached

pub run_events-append :
    (i : ℕ) (before after : List StructuredConcurrencyEvent) (o reached : Oracle)
    → run_events i before o ≡ inr reached
    → run_events i (before ++ after) o ≡ run_events (i + length before) after reached
unfolding run_events
run_events-append i [] after o reached e =
    subst (IfOracle (λ p. run_events i after o ≡ run_events (i + 0) after p)) e
      (ap (λ n. run_events n after o) (omega arith))
run_events-append i (event ∷ before) after o reached e = elim (Stepped-cases (step i event o)) [
  | inl (failure, f) ↦ absurd (left-right refl (rw (run_events, f) at e))
  | inr (next, f) ↦
      rw (run_events, f)
        (run_events-append (i + 1) before after next reached (rw (run_events, f) at e)
          ∙ ap (λ n. run_events n after reached) (omega arith))
]

-- What every accepted event keeps: the order of the scopes, and the keys of the tasks differ.
pub record Regular (o : Oracle) : Type 0 where
  pub ordered : OrderedOracle o
  pub distinct : IsDistinct o.tasks

Accepts-Regular :
    (i : ℕ) (e : StructuredConcurrencyEvent) (o o' : Oracle)
    → Accepts i o e o'
    → Regular o
    → Regular o'
Accepts-Regular i e o o' accepts h = record {
  ordered = Accepts-Ordered i e o o' accepts h.ordered;
  distinct = (Accepts-keeps (λ o. Unit) (λ i o o' d c u. u) i e o o' accepts (tt, h.distinct)).1;
}

pub run_events-Regular :
    (i : ℕ) (events : List StructuredConcurrencyEvent) (o o' : Oracle)
    → run_events i events o ≡ inr o'
    → Regular o
    → Regular o'
run_events-Regular = run_events-keeps Regular Accepts-Regular

-- What is reached goes on to what it leads to.
pub Leads-then :
    (P Q : Oracle → Type 0) (i : ℕ) (o : Oracle)
    → Regular o
    → Leads P i o
    → ((j : ℕ) (o' : Oracle) → Regular o' → P o' → Leads Q j o')
    → Leads Q i o
Leads-then P Q i o regular first k =
    let second =
      k (i + length first.events) first.reached
        (run_events-Regular i first.events o first.reached first.accepted regular) first.holds in
    record {
      events = first.events ++ second.events;
      reached = second.reached;
      accepted =
          run_events-append i first.events second.events o first.reached first.accepted
          ∙ second.accepted;
      holds = second.holds;
    }

pub Leads-map :
    (P Q : Oracle → Type 0) (i : ℕ) (o : Oracle)
    → ((o' : Oracle) → P o' → Q o')
    → Leads P i o
    → Leads Q i o
Leads-map P Q i o f first = record {
  events = first.events;
  reached = first.reached;
  accepted = first.accepted;
  holds = f first.reached first.holds;
}

-- One accepted event.
pub Leads-one :
    (P : Oracle → Type 0) (i : ℕ) (e : StructuredConcurrencyEvent) (o o' : Oracle)
    → Accepts i o e o'
    → P o'
    → Leads P i o
unfolding run_events
Leads-one P i e o o' accepts h = record {
  events = e ∷ [];
  reached = o';
  accepted = rw (run_events, (step_iff i e o o').1 accepts) refl;
  holds = h;
}

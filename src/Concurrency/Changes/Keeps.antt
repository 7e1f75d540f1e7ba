-- ===== src/Concurrency/Changes/Keeps.antt =====
-- src/structured-concurrency/oracle.ts: what every change keeps, every event and every run keeps.
use mathlib.Core.Path.{subst}
use semantic_systems.Base.{
  ℕ, ◌+◌, ◌≡◌, refl, inl, inr, ◌⊎◌, true, not, List, [], ◌∷◌, map, arith, All, All-filter,
  All-sort_by,
}
use semantic_systems.Kernel.Row.{Text}
use semantic_systems.Concurrency.Schema.{
  StructuredConcurrencyEvent, StructuredConcurrencyObservation, CancelSource, ExitResult,
  StructuredConcurrencyFailure,
}
use semantic_systems.Concurrency.Oracle.{
  OracleScope, OracleTask, Oracle, Stepped, observe, touch_task, change_task, open_children,
  live_tasks, request_each, finish_exit, exit_open, step,
}
use semantic_systems.Concurrency.Run.{run_events, exit_waits}
use semantic_systems.Concurrency.Transitions.{Accepts}
use semantic_systems.Concurrency.Transitions.Decides.{step_iff}
use semantic_systems.Concurrency.Changes.{
  IsPresent, Changes, IsDistinct, IsDistinct-IsPresent, sort_by-Distinct, filter-Distinct,
  Changes-Distinct, IsPresent-key, still-IsPresent,
}

-- The live tasks of a scope are those that the map gives, and their keys differ.
pub live-IsPresent :
    (o : Oracle) (scope : Text)
    → IsDistinct o.tasks
    → All (IsPresent o.tasks) (live_tasks o.tasks scope) × IsDistinct (live_tasks o.tasks scope)
unfolding live_tasks
live-IsPresent o scope d = (
  All-sort_by _ _ _ (All-filter _ _ o.tasks (IsDistinct-IsPresent o.tasks d)),
  sort_by-Distinct _ _ (filter-Distinct _ o.tasks d),
)

-- What every change keeps, with distinct keys, every event keeps.
module _ (P : Oracle → Type 0)
    (keep : (i : ℕ) (o o' : Oracle) → IsDistinct o.tasks → Changes i o o' → P o → P o') where
  one :
      (i : ℕ) (o o' : Oracle)
      → Changes i o o'
      → P o × IsDistinct o.tasks
      → P o' × IsDistinct o'.tasks
  one i o o' c (p, d) = (keep i o o' d c p, Changes-Distinct i o o' c d)

  request_each-keeps :
      (i : ℕ) (live : List OracleTask) (o : Oracle)
      → All (IsPresent o.tasks) live
      → IsDistinct live
      → P o × IsDistinct o.tasks
      → P (request_each i live o) × IsDistinct (request_each i live o).tasks
  unfolding request_each change_task observe touch_task
  request_each-keeps i [] o present distinct h = h
  request_each-keeps i (t ∷ live) o (here, present) (differ, distinct) h =
      let next =
        change_task i (record t { cancellation_requested = true })
          (StructuredConcurrencyObservation.cancel_requested i t.task CancelSource.scope_exit
            (not t.cancellation_requested))
          o in
      request_each-keeps i live next (still-IsPresent o t live here differ present) distinct
        (one i o next (Changes.requested t CancelSource.scope_exit here) h)

  finish_exit-keeps :
      (i : ℕ) (s : OracleScope) (children : List Text) (live : List OracleTask) (o : Oracle)
      → P o × IsDistinct o.tasks
      → P (finish_exit i s children live o) × IsDistinct (finish_exit i s children live o).tasks
  unfolding finish_exit exit_waits
  finish_exit-keeps i s [] [] o h =
      one i o _ (Changes.exited s.scope _ ExitResult.closed [] [] refl) h
  finish_exit-keeps i s [] (t ∷ live) o h =
      one i o _
        (Changes.exited s.scope o.scopes ExitResult.blocked [] (map (λ t. t.task) (t ∷ live))
          (ground arith))
        h
  finish_exit-keeps i s (c ∷ children) live o h =
      one i o _
        (Changes.exited s.scope o.scopes ExitResult.blocked (c ∷ children) (map (λ t. t.task) live)
          (ground arith))
        h

  pub Accepts-keeps :
      (i : ℕ) (e : StructuredConcurrencyEvent) (o o' : Oracle)
      → Accepts i o e o'
      → P o × IsDistinct o.tasks
      → P o' × IsDistinct o'.tasks
  unfolding exit_open
  Accepts-keeps i e o o' (Accepts.opens {scope = scope} {parent = parent} free inside room) h =
      one i o _ (Changes.opened scope parent _) h
  Accepts-keeps i e o o'
        (Accepts.spawns {task = task} {scope = scope} {program = program} free inside room few) h =
      one i o _ (Changes.spawned task scope program _ free) h
  Accepts-keeps i e o o'
        (Accepts.transfers {task = task} {from = from} {to = to} {t = t} found live owned differ
          source target)
        h =
      one i o _ (Changes.moved t from to (IsPresent-key o.tasks task t found)) h
  Accepts-keeps i e o o' (Accepts.yields {task = task} {label = label} {t = t} found live more) h =
      one i o _ (Changes.yielded t label (IsPresent-key o.tasks task t found)) h
  Accepts-keeps i e o o' (Accepts.settles {task = task} {t = t} found live done) h =
      one i o _ (Changes.settled t _ (IsPresent-key o.tasks task t found) live) h
  Accepts-keeps i e o o' (Accepts.requests {task = task} {t = t} found live) h =
      one i o _ (Changes.requested t CancelSource.explicit (IsPresent-key o.tasks task t found)) h
  Accepts-keeps i e o o' (Accepts.delivers {task = task} {t = t} found live asked) h =
      one i o _ (Changes.delivered t _ (IsPresent-key o.tasks task t found) live) h
  Accepts-keeps i e o o' (Accepts.joins {task = task} {t = t} found) h =
      one i o _ (Changes.joined t (IsPresent-key o.tasks task t found)) h
  Accepts-keeps i e o o' (Accepts.exits {s = s} found inside) h =
      let (present, distinct) = live-IsPresent o s.scope h.1 in
      finish_exit-keeps i s (open_children o.scopes s.scope) (live_tasks o.tasks s.scope)
        (request_each i (live_tasks o.tasks s.scope) o)
        (request_each-keeps i (live_tasks o.tasks s.scope) o present distinct h)

abbrev pub IfOracle : (Oracle → Type 0) → Stepped → Type 0
IfOracle P (inl failure) = Unit
IfOracle P (inr o) = P o

pub Stepped-cases :
    (s : Stepped)
    → ((failure : StructuredConcurrencyFailure) × (s ≡ inl failure)) ⊎ ((o : Oracle) × (s ≡ inr o))
Stepped-cases (inl failure) = inl (failure, refl)
Stepped-cases (inr o) = inr (o, refl)

pub left-right :
    {failure : StructuredConcurrencyFailure} {o : Oracle} {s : Stepped}
    → s ≡ inl failure
    → s ≡ inr o
    → ⊥
left-right e f = cc

-- What every event keeps, a run keeps.
pub run_events-keeps :
    (P : Oracle → Type 0)
    → ((i : ℕ) (e : StructuredConcurrencyEvent) (o o' : Oracle) → Accepts i o e o' → P o → P o')
    → (i : ℕ) (events : List StructuredConcurrencyEvent) (o o' : Oracle)
    → run_events i events o ≡ inr o'
    → P o
    → P o'
unfolding run_events
run_events-keeps P keep i [] o o' e h = subst (IfOracle P) e h
run_events-keeps P keep i (event ∷ events) o o' e h = elim (Stepped-cases (step i event o)) [
  | inl (failure, f) ↦ absurd (left-right refl (rw (run_events, f) at e))
  | inr (next, f) ↦
      run_events-keeps P keep (i + 1) events next o' (rw (run_events, f) at e)
        (keep i event o next ((step_iff i event o next).0 f) h)
]

-- ===== src/Concurrency/Ownership.antt =====
-- src/structured-concurrency/oracle.ts: every live task is owned by an open scope, and every open
-- scope stands in an open scope.
pub mod Accepted
use mathlib.Core.Path.{subst}
use semantic_systems.Base.{
  ℕ, ◌+◌, ◌≡◌, refl, sym, inl, inr, Bool, true, false, not, ◌&&◌, List, [], ◌∷◌, ◌++◌, Option, none,
  some, arith, All, All-append, All-map, Bool-cases, Option-cases, All-filter, All-sort_by,
  sort_by-nil, filter-nil, map-nil, ◌⊎◌,
}
use semantic_systems.Kernel.Row.{Text}
use semantic_systems.Concurrency.Schema.{
  TaskProgram, TaskTerminalOutcome, ScheduleDecision, StructuredConcurrencyEvent,
  StructuredConcurrencyObservation, CancelSource, ScopeState, TaskState,
}
use semantic_systems.Concurrency.Oracle.{
  copy_authored_outcome, OracleScope, OracleTask, Oracle, get_scope, put_scope, is_open,
  is_suspended, is_owner, observe, touch_task, change_task, settle, open_children, live_tasks,
  request_each, finish_exit, exit_open,
}
use semantic_systems.Concurrency.Run.{task_report, owner_is_open, is_singly_owned}
use semantic_systems.Concurrency.Tables.{
  true-false, get_task-at, All-put_task, All-put_scope, get_scope-pushed, get_scope-put_scope,
}
use semantic_systems.Concurrency.Transitions.{opened_scope, spawned_task, Accepts}

-- The law `singular_ownership` of one task: a live one has an owner that is open, and a terminal
-- one an outcome and no owner.
abbrev pub IsOwned : List OracleScope → OracleTask → Type 0
IsOwned scopes t = is_singly_owned scopes (task_report t) ≡ true

-- An open scope is the root or stands in an open one.
abbrev pub IsNested : List OracleScope → OracleScope → Type 0
IsNested scopes s =
    is_open (some s) ≡ true → (s.parent ≡ none) ⊎ (owner_is_open scopes s.parent ≡ true)

pub record OwnedOracle (o : Oracle) : Type 0 where
  pub tasks : All (IsOwned o.scopes) o.tasks
  pub scopes : All (IsNested o.scopes) o.scopes

state-suspended : (t : OracleTask) → is_suspended t ≡ true → t.state ≡ TaskState.suspended
unfolding is_suspended
state-suspended t h = go t.state h
  where
    go :
        (s : TaskState)
        → (elim s [ TaskState.suspended ↦ true | TaskState.terminal ↦ false ]) ≡ true
        → s ≡ TaskState.suspended
    go TaskState.suspended h = refl
    go TaskState.terminal h = absurd (true-false (sym h))

pub state-terminal : (t : OracleTask) → is_suspended t ≡ false → t.state ≡ TaskState.terminal
unfolding is_suspended
state-terminal t h = go t.state h
  where
    go :
        (s : TaskState)
        → (elim s [ TaskState.suspended ↦ true | TaskState.terminal ↦ false ]) ≡ false
        → s ≡ TaskState.terminal
    go TaskState.terminal h = refl
    go TaskState.suspended h = absurd (true-false h)

-- What a live task's owner is.
owner-open :
    (scopes : List OracleScope) (t : OracleTask)
    → is_suspended t ≡ true
    → IsOwned scopes t
    → owner_is_open scopes t.owner_scope ≡ true
unfolding is_singly_owned
owner-open scopes t live h = rw (state-suspended t live) at h

pub open-IsOwned :
    (scopes : List OracleScope) (t : OracleTask)
    → is_suspended t ≡ true
    → owner_is_open scopes t.owner_scope ≡ true
    → IsOwned scopes t
unfolding is_singly_owned
open-IsOwned scopes t live h = rw (state-suspended t live) h

pub owner_is_open-pushed :
    (scopes : List OracleScope) (s : OracleScope) (w : Option Text)
    → owner_is_open scopes w ≡ true
    → owner_is_open (scopes ++ s ∷ []) w ≡ true
unfolding owner_is_open is_open
owner_is_open-pushed scopes s none h = h
owner_is_open-pushed scopes s (some w) h = elim (Option-cases (get_scope scopes w)) [
  | inl missing ↦ absurd (true-false (sym (rw (is_open, missing) at h)))
  | inr (t, found) ↦ rw (get_scope-pushed scopes s t w found) (rw found at h)
]

owner_is_open-closed :
    (scopes : List OracleScope) (s : OracleScope) (w : Option Text)
    → is_owner w s.scope ≡ false
    → owner_is_open scopes w ≡ true
    → owner_is_open (put_scope (record s { state = ScopeState.closed }) scopes) w ≡ true
unfolding owner_is_open is_owner
owner_is_open-closed scopes s none other h = h
owner_is_open-closed scopes s (some w) other h =
    rw (get_scope-put_scope scopes (record s { state = ScopeState.closed }) w other) h

terminal-IsOwned :
    (scopes scopes' : List OracleScope) (t : OracleTask)
    → is_suspended t ≡ false
    → IsOwned scopes t
    → IsOwned scopes' t
unfolding is_singly_owned
terminal-IsOwned scopes scopes' t over h =
    rw (state-terminal t over) (rw (state-terminal t over) at h)

-- Ownership under the same scopes passes to a task with the same state, owner and outcome, and to
-- more scopes.
pub IsOwned-map :
    (scopes scopes' : List OracleScope) (t : OracleTask)
    → (owner_is_open scopes t.owner_scope ≡ true → owner_is_open scopes' t.owner_scope ≡ true)
    → IsOwned scopes t
    → IsOwned scopes' t
unfolding is_singly_owned
IsOwned-map scopes scopes' t k h = elim (Bool-cases (is_suspended t)) [
  | inl live ↦ open-IsOwned scopes' t live (k (owner-open scopes t live h))
  | inr over ↦ terminal-IsOwned scopes scopes' t over h
]

pub IsNested-map :
    (scopes scopes' : List OracleScope) (s : OracleScope)
    → (owner_is_open scopes s.parent ≡ true → owner_is_open scopes' s.parent ≡ true)
    → IsNested scopes s
    → IsNested scopes' s
IsNested-map scopes scopes' s k h opened = elim (h opened) [
  | inl root ↦ inl root
  | inr inside ↦ inr (k inside)
]

All-and :
    {A : Type 0} (P Q R : A → Type 0) (xs : List A)
    → ((x : A) → P x → Q x → R x)
    → All P xs
    → All Q xs
    → All R xs
All-and P Q R [] f h k = tt
All-and P Q R (x ∷ xs) f (h, hs) (k, ks) = (f x h k, All-and P Q R xs f hs ks)

and-false : (a b : Bool) → (a && b) ≡ false → b ≡ true → a ≡ false
and-false a b h k = ground arith

pub OwnedOracle-observe :
    (o : Oracle) (x : StructuredConcurrencyObservation) → OwnedOracle o → OwnedOracle (observe x o)
unfolding observe
OwnedOracle-observe o x h = record { tasks = h.tasks; scopes = h.scopes }

pub OwnedOracle-touch :
    (o : Oracle) (task : Text) (i : ℕ) → OwnedOracle o → OwnedOracle (touch_task task i o)
unfolding touch_task
OwnedOracle-touch o task i h = record { tasks = h.tasks; scopes = h.scopes }

pub OwnedOracle-change :
    (o : Oracle) (i : ℕ) (t : OracleTask) (x : StructuredConcurrencyObservation)
    → OwnedOracle o
    → IsOwned o.scopes t
    → OwnedOracle (change_task i t x o)
unfolding change_task observe touch_task
OwnedOracle-change o i t x h owned = record {
  tasks = All-put_task (IsOwned o.scopes) t o.tasks owned h.tasks;
  scopes = h.scopes;
}

-- The requests change no scope and keep the ownership.
request_each-Owned :
    (i : ℕ) (live : List OracleTask) (o : Oracle)
    → All (IsOwned o.scopes) live
    → OwnedOracle o
    → OwnedOracle (request_each i live o)
unfolding request_each change_task observe touch_task is_singly_owned
request_each-Owned i [] o ls h = h
request_each-Owned i (t ∷ live) o (l, ls) h =
    request_each-Owned i live
      (change_task i (record t { cancellation_requested = true })
        (StructuredConcurrencyObservation.cancel_requested i t.task CancelSource.scope_exit
          (not t.cancellation_requested))
        o)
      ls (OwnedOracle-change o i (record t { cancellation_requested = true }) _ h l)

close-Owned :
    (o : Oracle) (s : OracleScope)
    → open_children o.scopes s.scope ≡ []
    → live_tasks o.tasks s.scope ≡ []
    → OwnedOracle o
    → OwnedOracle
        (record o { scopes = put_scope (record s { state = ScopeState.closed }) o.scopes })
unfolding open_children live_tasks is_open
close-Owned o s no_children no_tasks h = record {
  tasks =
      All-and _ _ (IsOwned _) o.tasks
        (λ t idle owned. elim (Bool-cases (is_suspended t)) [
          | inl live ↦
              IsOwned-map o.scopes _ t
                (owner_is_open-closed o.scopes s t.owner_scope
                  (and-false (is_owner t.owner_scope s.scope) (is_suspended t) idle live))
                owned
          | inr over ↦ terminal-IsOwned o.scopes _ t over owned
        ])
        (filter-nil _ o.tasks (sort_by-nil _ _ no_tasks)) h.tasks;
  scopes =
      All-put_scope (IsNested _) (record s { state = ScopeState.closed }) o.scopes
        (λ opened. absurd (true-false (sym opened)))
        (All-and _ _ (IsNested _) o.scopes
          (λ u idle nested opened. elim (nested opened) [
            | inl root ↦ inl root
            | inr inside ↦ inr (
                owner_is_open-closed o.scopes s u.parent
                  (and-false (is_owner u.parent s.scope) (is_open (some u)) idle opened) inside)
          ])
          (filter-nil _ o.scopes (map-nil _ _ (sort_by-nil _ _ no_children))) h.scopes);
}

live_tasks-Owned :
    (o : Oracle) (scope : Text) → OwnedOracle o → All (IsOwned o.scopes) (live_tasks o.tasks scope)
unfolding live_tasks
live_tasks-Owned o scope h =
    All-sort_by (IsOwned o.scopes) _ _ (All-filter (IsOwned o.scopes) _ o.tasks h.tasks)

pub finish_exit-Owned :
    (i : ℕ) (s : OracleScope) (children : List Text) (live : List OracleTask) (o : Oracle)
    → open_children o.scopes s.scope ≡ children
    → live_tasks o.tasks s.scope ≡ live
    → OwnedOracle o
    → OwnedOracle (finish_exit i s children live (request_each i live o))
unfolding finish_exit request_each
finish_exit-Owned i s [] [] o no_children no_tasks h =
    OwnedOracle-observe _ _ (close-Owned o s no_children no_tasks h)
finish_exit-Owned i s [] (t ∷ live) o e f h = OwnedOracle-observe (request_each i (t ∷ live) o) _ (
    request_each-Owned i (t ∷ live) o
      (subst (All (IsOwned o.scopes)) f (live_tasks-Owned o s.scope h)) h)
finish_exit-Owned i s (c ∷ children) live o e f h = OwnedOracle-observe (request_each i live o) _ (
    request_each-Owned i live o (subst (All (IsOwned o.scopes)) f (live_tasks-Owned o s.scope h)) h)

-- ===== src/Concurrency/Requests.antt =====
-- src/structured-concurrency/oracle.ts: which tasks `exit_scope` requests the cancellation of.
use mathlib.Core.Path.{subst}
use semantic_systems.Base.{
  ℕ, ◌≡◌, refl, sym, ◌∙◌, ap, inl, inr, Bool, true, false, ◌&&◌, List, [], ◌∷◌, Option, none, some,
  All, All-sort_by, Bool-cases, Option-cases, none-some, some-injective, filter, sort_by, insert_by,
  if◌then◌else◌, not,
}
use semantic_systems.Kernel.Row.{Text, text_eq}
use semantic_systems.Kernel.Row.Equality.{text_eq→eq, text_eq_refl}
use semantic_systems.Concurrency.Schema.{StructuredConcurrencyObservation, CancelSource}
use semantic_systems.Concurrency.Oracle.{
  OracleTask, Oracle, get_task, is_owner, is_suspended, observe, touch_task, change_task,
  live_tasks, request_each,
}
use semantic_systems.Concurrency.Tables.{true-false, get_task-key, get_task-put_task, get_task-at}
use semantic_systems.Concurrency.Changes.{IsPresent, IsDistinct, still-IsPresent}
use semantic_systems.Concurrency.Changes.Keeps.{live-IsPresent}

-- The task with its cancellation requested if there is one like it in the list.
abbrev pub asked : Option OracleTask → OracleTask → OracleTask
asked none t = t
asked (some u) t = record t { cancellation_requested = true }

asked-asked :
    (u : Option OracleTask) (t : OracleTask)
    → asked u (record t { cancellation_requested = true })
      ≡ record t { cancellation_requested = true }
asked-asked none t = refl
asked-asked (some u) t = refl

-- The requests reach the tasks in the list and no others.
pub request_each-task :
    (i : ℕ) (live : List OracleTask) (o : Oracle) (task : Text) (t : OracleTask)
    → All (IsPresent o.tasks) live
    → IsDistinct live
    → get_task o.tasks task ≡ some t
    → get_task (request_each i live o).tasks task ≡ some (asked (get_task live task) t)
unfolding request_each change_task observe touch_task get_task
request_each-task i [] o task t present distinct found = found
request_each-task i (u ∷ live) o task t (here, present) (differ, distinct) found =
    let next =
      change_task i (record u { cancellation_requested = true })
        (StructuredConcurrencyObservation.cancel_requested i u.task CancelSource.scope_exit
          (not u.cancellation_requested))
        o in
    let put = get_task-put_task o.tasks (record u { cancellation_requested = true }) u task here in
    let rest = still-IsPresent o u live here differ present in
    elim (Bool-cases (text_eq u.task task)) [
      | inr other ↦
          let skipped : get_task (u ∷ live) task ≡ get_task live task = rw (get_task, other) refl in
          request_each-task i live next task t rest distinct (put ∙ rw other found)
          ∙ ap (λ k. some (asked k t)) (sym skipped)
      | inl this ↦
          let same : u ≡ t =
            some-injective
              (sym here ∙ ap (get_task o.tasks) (text_eq→eq u.task task this) ∙ found) in
          let first : get_task (u ∷ live) task ≡ some u = rw (get_task, this) refl in
          let asked_once : some (record u { cancellation_requested = true })
              ≡ some (record t { cancellation_requested = true }) =
            ap (λ (x : OracleTask). some (record x { cancellation_requested = true })) same in
          request_each-task i live next task (record t { cancellation_requested = true }) rest
            distinct (put ∙ rw this asked_once)
          ∙ ap some (asked-asked (get_task live task) t)
          ∙ ap (λ k. some (asked k t)) (sym first)
    ]

All-inserted :
    {A : Type 0} (Q : A → Type 0) (le : A → A → Bool) (x : A) (xs : List A)
    → All Q (insert_by le x xs)
    → Q x × All Q xs
unfolding insert_by
All-inserted Q le x [] (h, hs) = (h, hs)
All-inserted Q le x (y ∷ ys) h = elim (Bool-cases (le x y)) [
  | inl before ↦ rw (insert_by, before) at h
  | inr after ↦
      let (k, ks) = (rw (insert_by, after) at h) in
      let (l, ls) = All-inserted Q le x ys ks in (l, (k, ls))
]

-- What holds of a list that was sorted or filtered, holds of the list, where the test does.
All-sorted :
    {A : Type 0} (Q : A → Type 0) (le : A → A → Bool) (xs : List A)
    → All Q (sort_by le xs)
    → All Q xs
unfolding sort_by
All-sorted Q le [] h = tt
All-sorted Q le (x ∷ xs) h =
    let (k, ks) = All-inserted Q le x (sort_by le xs) h in (k, All-sorted Q le xs ks)

All-filtered :
    {A : Type 0} (Q : A → Type 0) (p : A → Bool) (xs : List A)
    → All Q (filter p xs)
    → All (λ x. p x ≡ true → Q x) xs
unfolding filter
All-filtered Q p [] h = tt
All-filtered Q p (x ∷ xs) h = elim (Bool-cases (p x)) [
  | inl keep ↦ let (k, ks) = (rw (filter, keep) at h) in ((λ e. k), All-filtered Q p xs ks)
  | inr drop ↦
      ((λ e. absurd (true-false (sym e ∙ drop))), All-filtered Q p xs (rw (filter, drop) at h))
]

missing-differs :
    (tasks : List OracleTask) (task : Text)
    → get_task tasks task ≡ none
    → All (λ u. text_eq u.task task ≡ false) tasks
unfolding get_task
missing-differs [] task e = tt
missing-differs (u ∷ tasks) task e = elim (Bool-cases (text_eq u.task task)) [
  | inl this ↦ absurd (none-some (sym (rw (get_task, this) at e)))
  | inr other ↦ (other, missing-differs tasks task (rw (get_task, other) at e))
]

-- A task of the scope that is live.
abbrev pub is_live_in : Text → OracleTask → Bool
is_live_in scope t = is_owner t.owner_scope scope && is_suspended t

-- The live tasks of a scope have a task's name exactly when it is one of them.
pub live_tasks-asked :
    (o : Oracle) (scope task : Text) (t : OracleTask)
    → IsDistinct o.tasks
    → get_task o.tasks task ≡ some t
    → asked (get_task (live_tasks o.tasks scope) task) t
      ≡ (if is_live_in scope t then record t { cancellation_requested = true } else t)
unfolding live_tasks filter
live_tasks-asked o scope task t distinct found =
    let live = live_tasks o.tasks scope in
    let (present, differ) = live-IsPresent o scope distinct in
    let own = get_task-key o.tasks task t found in
    elim (Option-cases (get_task live task)) [
      | inl missing ↦
          let away =
            get_task-at (λ u. is_live_in scope u ≡ true → text_eq u.task task ≡ false) o.tasks task
              t
              (All-filtered (λ u. text_eq u.task task ≡ false) (is_live_in scope) o.tasks
                (All-sorted _ _ _ (missing-differs live task missing)))
              found in
          elim (Bool-cases (is_live_in scope t)) [
            | inl on ↦ absurd (
                true-false
                  (sym (subst (λ k. text_eq t.task k ≡ true) own (text_eq_refl t.task)) ∙ away on))
            | inr off ↦ rw (missing, off) refl
          ]
      | inr (u, there) ↦
          let here = get_task-at (IsPresent o.tasks) live task u present there in
          let same : u ≡ t =
            some-injective
              (sym here ∙ ap (get_task o.tasks) (get_task-key live task u there) ∙ found) in
          let on : is_live_in scope u ≡ true =
            get_task-at (λ u. is_live_in scope u ≡ true) live task u
              (All-sort_by _ _ _ (filter-All (is_live_in scope) o.tasks)) there in
          let on' : is_live_in scope t ≡ true = subst (λ x. is_live_in scope x ≡ true) same on in
          rw (there, on') refl
    ]
  where
    filter-All : {A : Type 0} (p : A → Bool) (xs : List A) → All (λ x. p x ≡ true) (filter p xs)
    filter-All p [] = tt
    filter-All p (x ∷ xs) = elim (Bool-cases (p x)) [
      | inl keep ↦ rw (filter, keep) (keep, filter-All p xs)
      | inr drop ↦ rw (filter, drop) (filter-All p xs)
    ]

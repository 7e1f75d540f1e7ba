-- ===== src/Concurrency/Tables.antt =====
-- src/structured-concurrency/oracle.ts: reading and changing the maps of scopes and tasks.
use mathlib.Core.Path.{subst}
use semantic_systems.Base.{
  ◌≡◌, refl, sym, ◌∙◌, inl, inr, true, false, List, [], ◌∷◌, ◌++◌, none, some, All, Bool-cases,
  some-injective, none-some, ap, if◌then◌else◌,
}
use semantic_systems.Kernel.Row.{Text, text_eq}
use semantic_systems.Kernel.Row.Equality.{text_eq→eq, text_eq_refl}
use semantic_systems.Concurrency.Oracle.{
  OracleScope, OracleTask, get_scope, get_task, put_scope, put_task,
}

pub true-false : true ≡ false → ⊥
true-false e = cc

pub text_eq_flip : (a b : Text) → text_eq a b ≡ false → text_eq b a ≡ false
text_eq_flip a b h = elim (Bool-cases (text_eq b a)) [
  | inr other ↦ other
  | inl same ↦ absurd (
      true-false
        (sym (text_eq_refl a) ∙ (subst (λ x. text_eq a x ≡ false) (text_eq→eq b a same) h)))
]

pub get_task-key :
    (tasks : List OracleTask) (task : Text) (t : OracleTask)
    → get_task tasks task ≡ some t
    → t.task ≡ task
unfolding get_task
get_task-key [] task t e = absurd (none-some e)
get_task-key (u ∷ tasks) task t e = elim (Bool-cases (text_eq u.task task)) [
  | inl here ↦
      subst (λ x. x.task ≡ task) (some-injective (rw here at e)) (text_eq→eq u.task task here)
  | inr there ↦ get_task-key tasks task t (rw there at e)
]

-- After a task is put back, its key gives it, and the other keys give what they gave.
pub get_task-put_task :
    (tasks : List OracleTask) (changed t : OracleTask) (task : Text)
    → get_task tasks changed.task ≡ some t
    → get_task (put_task changed tasks) task
      ≡ (if text_eq changed.task task then some changed else get_task tasks task)
unfolding get_task put_task
get_task-put_task [] changed t task e = absurd (none-some e)
get_task-put_task (u ∷ tasks) changed t task e = elim (Bool-cases (text_eq u.task changed.task)) [
  | inl here ↦
      let same = text_eq→eq u.task changed.task here in
      rw (get_task, here)
        (elim (Bool-cases (text_eq changed.task task)) [
          | inl this ↦ rw this refl
          | inr other ↦ rw (other, same, other) refl
        ])
  | inr there ↦
      let rest = get_task-put_task tasks changed t task (rw there at e) in
      rw (get_task, there)
        (elim (Bool-cases (text_eq u.task task)) [
          | inl this ↦ elim (Bool-cases (text_eq changed.task task)) [
            | inl both ↦
                let a = text_eq→eq u.task task this in
                let b = text_eq→eq changed.task task both in
                absurd (
                  true-false (
                    sym (text_eq_refl changed.task)
                    ∙ (subst (λ x. text_eq x changed.task ≡ false) (a ∙ sym b) there)))
            | inr other ↦ rw (this, other) refl
          ]
          | inr other ↦ rw other rest
        ])
]

pub get_task-at :
    (P : OracleTask → Type 0) (tasks : List OracleTask) (task : Text) (t : OracleTask)
    → All P tasks
    → get_task tasks task ≡ some t
    → P t
unfolding get_task
get_task-at P [] task t h e = absurd (none-some e)
get_task-at P (u ∷ tasks) task t (h, hs) e = elim (Bool-cases (text_eq u.task task)) [
  | inl here ↦ subst P (some-injective (rw (get_task, here) at e)) h
  | inr there ↦ get_task-at P tasks task t hs (rw (get_task, there) at e)
]

pub get_task-pushed :
    (tasks : List OracleTask) (u t : OracleTask) (task : Text)
    → get_task tasks task ≡ some t
    → get_task (tasks ++ u ∷ []) task ≡ some t
unfolding get_task
get_task-pushed [] u t task e = absurd (none-some e)
get_task-pushed (v ∷ tasks) u t task e = elim (Bool-cases (text_eq v.task task)) [
  | inl here ↦ rw (get_task, here) (rw (get_task, here) at e)
  | inr there ↦ rw (get_task, there) (get_task-pushed tasks u t task (rw (get_task, there) at e))
]

pub get_task-new :
    (tasks : List OracleTask) (u : OracleTask) (task : Text)
    → get_task tasks task ≡ none
    → get_task (tasks ++ u ∷ []) task ≡ (if text_eq u.task task then some u else none)
unfolding get_task
get_task-new [] u task e = refl
get_task-new (v ∷ tasks) u task e = elim (Bool-cases (text_eq v.task task)) [
  | inl here ↦ absurd (none-some (sym (rw (get_task, here) at e)))
  | inr there ↦ rw (get_task, there) (get_task-new tasks u task (rw (get_task, there) at e))
]

pub All-put_task :
    (P : OracleTask → Type 0) (changed : OracleTask) (tasks : List OracleTask)
    → P changed
    → All P tasks
    → All P (put_task changed tasks)
unfolding put_task
All-put_task P changed [] h hs = tt
All-put_task P changed (t ∷ tasks) h (k, ks) = elim (Bool-cases (text_eq t.task changed.task)) [
  | inl here ↦ rw (put_task, here) (h, ks)
  | inr there ↦ rw (put_task, there) (k, All-put_task P changed tasks h ks)
]

pub All-put_scope :
    (P : OracleScope → Type 0) (changed : OracleScope) (scopes : List OracleScope)
    → P changed
    → All P scopes
    → All P (put_scope changed scopes)
unfolding put_scope
All-put_scope P changed [] h hs = tt
All-put_scope P changed (s ∷ scopes) h (k, ks) = elim (Bool-cases (text_eq s.scope changed.scope)) [
  | inl here ↦ rw (put_scope, here) (h, ks)
  | inr there ↦ rw (put_scope, there) (k, All-put_scope P changed scopes h ks)
]

pub get_scope-pushed :
    (scopes : List OracleScope) (u s : OracleScope) (scope : Text)
    → get_scope scopes scope ≡ some s
    → get_scope (scopes ++ u ∷ []) scope ≡ some s
unfolding get_scope
get_scope-pushed [] u s scope e = absurd (none-some e)
get_scope-pushed (v ∷ scopes) u s scope e = elim (Bool-cases (text_eq v.scope scope)) [
  | inl here ↦ rw (get_scope, here) (rw (get_scope, here) at e)
  | inr there ↦
      rw (get_scope, there) (get_scope-pushed scopes u s scope (rw (get_scope, there) at e))
]

pub get_scope-put_scope :
    (scopes : List OracleScope) (changed : OracleScope) (scope : Text)
    → text_eq scope changed.scope ≡ false
    → get_scope (put_scope changed scopes) scope ≡ get_scope scopes scope
unfolding get_scope put_scope
get_scope-put_scope [] changed scope other = refl
get_scope-put_scope (s ∷ scopes) changed scope other =
    elim (Bool-cases (text_eq s.scope changed.scope)) [
      | inl here ↦
          let same = text_eq→eq s.scope changed.scope here in
          let a : text_eq changed.scope scope ≡ false = text_eq_flip scope changed.scope other in
          rw (put_scope, here, get_scope, same, a) refl
      | inr there ↦
          rw (put_scope, there, get_scope)
            (ap (λ rest. if text_eq s.scope scope then some s else rest)
              (get_scope-put_scope scopes changed scope other))
    ]

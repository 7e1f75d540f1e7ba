-- ===== src/Concurrency/Scopes.antt =====
-- src/structured-concurrency/oracle.ts: every event keeps the order of the scopes, in which a scope
-- stands after its parent.
pub mod Innermost
use mathlib.Core.Path.{subst}
use semantic_systems.Base.{
  ℕ, ◌≡◌, refl, sym, ◌∙◌, ap, inl, inr, ◌⊎◌, Bool, true, false, ◌&&◌, List, [], ◌∷◌, ◌++◌, Option,
  none, some, arith, All, All-append, All-map, Bool-cases, Option-cases, none-some, some-injective,
}
use semantic_systems.Kernel.Row.{Text, text_eq}
use semantic_systems.Kernel.Row.Equality.{text_eq→eq, text_eq_refl}
use semantic_systems.Concurrency.Schema.{StructuredConcurrencyEvent, ScopeState}
use semantic_systems.Concurrency.Oracle.{
  OracleScope, OracleTask, Oracle, get_scope, put_scope, is_open, is_owner, observe, touch_task,
  change_task, open_children, live_tasks, request_each, finish_exit, exit_open,
}
use semantic_systems.Concurrency.Tables.{true-false}
use semantic_systems.Concurrency.Transitions.{opened_scope, Accepts}

-- A scope's name and parent, which no event changes.
abbrev pub Key : Type 0
Key = Text × Option Text

abbrev pub keys : List OracleScope → List Key
keys [] = []
keys (s ∷ scopes) = (s.scope, s.parent) ∷ keys scopes

-- The names differ, and no parent is the scope itself or a later one.
abbrev pub IsOrdered : List Key → Type 0
IsOrdered [] = Unit
IsOrdered ((scope, parent) ∷ rest) =
    ((is_owner parent scope ≡ false) × All (λ k. is_owner parent k.0 ≡ false) rest)
    × (All (λ k. text_eq scope k.0 ≡ false) rest × IsOrdered rest)

-- The parent is the name of some scope.
abbrev pub IsRooted : List Key → Key → Type 0
IsRooted ks k = (p : Text) → k.1 ≡ some p → All (λ j. text_eq j.0 p ≡ false) ks → ⊥

pub record OrderedOracle (o : Oracle) : Type 0 where
  pub ordered : IsOrdered (keys o.scopes)
  pub rooted : All (IsRooted (keys o.scopes)) (keys o.scopes)

keys-pushed :
    (scopes : List OracleScope) (u : OracleScope)
    → keys (scopes ++ u ∷ []) ≡ keys scopes ++ (u.scope, u.parent) ∷ []
keys-pushed [] u = refl
keys-pushed (s ∷ scopes) u = ap (λ ks. (s.scope, s.parent) ∷ ks) (keys-pushed scopes u)

All-front : (P : Key → Type 0) (xs ys : List Key) → All P (xs ++ ys) → All P xs
All-front P [] ys h = tt
All-front P (x ∷ xs) ys (h, hs) = (h, All-front P xs ys hs)

-- A name that is not found differs from all names, and one that is found does not.
missing-differs :
    (scopes : List OracleScope) (scope : Text)
    → get_scope scopes scope ≡ none
    → All (λ k. text_eq k.0 scope ≡ false) (keys scopes)
unfolding get_scope
missing-differs [] scope e = tt
missing-differs (s ∷ scopes) scope e = elim (Bool-cases (text_eq s.scope scope)) [
  | inl this ↦ absurd (none-some (sym (rw (get_scope, this) at e)))
  | inr other ↦ (other, missing-differs scopes scope (rw (get_scope, other) at e))
]

found-same :
    (scopes : List OracleScope) (scope : Text) (s : OracleScope)
    → get_scope scopes scope ≡ some s
    → All (λ k. text_eq k.0 scope ≡ false) (keys scopes)
    → ⊥
unfolding get_scope
found-same [] scope s e h = none-some e
found-same (u ∷ scopes) scope s e (h, hs) = found-same scopes scope s (rw (get_scope, h) at e) hs

-- A scope that is put back with its parent leaves the keys.
keys-put_scope :
    (scopes : List OracleScope) (changed s : OracleScope)
    → get_scope scopes changed.scope ≡ some s
    → s.parent ≡ changed.parent
    → keys (put_scope changed scopes) ≡ keys scopes
unfolding get_scope put_scope
keys-put_scope [] changed s e same = refl
keys-put_scope (u ∷ scopes) changed s e same = elim (Bool-cases (text_eq u.scope changed.scope)) [
  | inr other ↦
      rw (put_scope, other)
        (ap (λ ks. (u.scope, u.parent) ∷ ks)
          (keys-put_scope scopes changed s (rw (get_scope, other) at e) same))
  | inl this ↦
      let found : u ≡ s = some-injective (rw (get_scope, this) at e) in
      rw (put_scope, this)
        (ap (λ k. k ∷ keys scopes)
          (ap (λ p. (changed.scope, p)) (sym same ∙ ap (λ x. x.parent) (sym found))
            ∙ ap (λ n. (n, u.parent)) (sym (text_eq→eq u.scope changed.scope this))))
]

IsOrdered-pushed :
    (ks : List Key) (scope parent : Text)
    → All (λ k. text_eq k.0 scope ≡ false) ks
    → All (λ k. is_owner k.1 scope ≡ false) ks
    → text_eq parent scope ≡ false
    → IsOrdered ks
    → IsOrdered (ks ++ (scope, some parent) ∷ [])
unfolding is_owner
IsOrdered-pushed [] scope parent new free other h = ((other, tt), (tt, tt))
IsOrdered-pushed ((s, p) ∷ ks) scope parent (n, new) (f, free) other ((own, later), (differ, h)) = (
  (own, All-append _ ks _ later (f, tt)),
  (All-append _ ks _ differ (n, tt), IsOrdered-pushed ks scope parent new free other h),
)

-- No scope stands in one whose name is new.
unused-parent :
    (ks : List Key) (scope : Text) (k : Key)
    → All (λ j. text_eq j.0 scope ≡ false) ks
    → IsRooted ks k
    → is_owner k.1 scope ≡ false
unfolding is_owner
unused-parent ks scope (name, none) new rooted = refl
unused-parent ks scope (name, some p) new rooted = elim (Bool-cases (text_eq p scope)) [
  | inr other ↦ other
  | inl this ↦ absurd (
      rooted p refl
        (subst (λ x. All (λ j. text_eq j.0 x ≡ false) ks) (sym (text_eq→eq p scope this)) new))
]

open-found :
    (scopes : List OracleScope) (scope : Text)
    → is_open (get_scope scopes scope) ≡ true
    → (s : OracleScope) × (get_scope scopes scope ≡ some s)
unfolding is_open
open-found scopes scope h = elim (Option-cases (get_scope scopes scope)) [
  | inl missing ↦ absurd (true-false (sym (rw (is_open, missing) at h)))
  | inr found ↦ found
]

opens-Ordered :
    (o : Oracle) (scope parent : Text)
    → get_scope o.scopes scope ≡ none
    → is_open (get_scope o.scopes parent) ≡ true
    → OrderedOracle o
    → OrderedOracle (record o { scopes = o.scopes ++ opened_scope scope parent ∷ [] })
opens-Ordered o scope parent free opened h =
    let ks = keys o.scopes in
    let new = missing-differs o.scopes scope free in
    let (p, present) = open-found o.scopes parent opened in
    let grown = ks ++ (scope, some parent) ∷ [] in
    let pushed = sym (keys-pushed o.scopes (opened_scope scope parent)) in
    let other : text_eq parent scope ≡ false = elim (Bool-cases (text_eq parent scope)) [
      | inr differ ↦ differ
      | inl this ↦ absurd (
          none-some (
            sym free
            ∙ subst (λ k. get_scope o.scopes k ≡ some p) (text_eq→eq parent scope this) present))
    ] in
    record {
      ordered = subst IsOrdered pushed (
          IsOrdered-pushed ks scope parent new
            (All-map _ _ ks (λ k. unused-parent ks scope k new) h.rooted) other h.ordered);
      rooted =
          subst (λ js. All (IsRooted js) js) pushed
            (All-append (IsRooted grown) ks _
              (All-map _ _ ks (λ k r q e d. r q e (All-front _ ks _ d)) h.rooted)
              (
                (λ q e d. found-same o.scopes parent p present (
                    All-front _ ks _ (
                      subst (λ x. All (λ j. text_eq j.0 x ≡ false) grown) (sym (some-injective e))
                        d))),
                tt,
              ));
    }

pub get_scope-key :
    (scopes : List OracleScope) (scope : Text) (s : OracleScope)
    → get_scope scopes scope ≡ some s
    → s.scope ≡ scope
unfolding get_scope
get_scope-key [] scope s e = absurd (none-some e)
get_scope-key (u ∷ scopes) scope s e = elim (Bool-cases (text_eq u.scope scope)) [
  | inl this ↦
      sym (ap (λ x. x.scope) (some-injective (rw (get_scope, this) at e)))
      ∙ text_eq→eq u.scope scope this
  | inr other ↦ get_scope-key scopes scope s (rw (get_scope, other) at e)
]

pub get_scope-own :
    (scopes : List OracleScope) (scope : Text) (s : OracleScope)
    → get_scope scopes scope ≡ some s
    → get_scope scopes s.scope ≡ some s
get_scope-own scopes scope s e =
    subst (λ x. get_scope scopes x ≡ some s) (sym (get_scope-key scopes scope s e)) e

pub request_each-scopes :
    (i : ℕ) (live : List OracleTask) (o : Oracle) → (request_each i live o).scopes ≡ o.scopes
unfolding request_each change_task observe touch_task
request_each-scopes i [] o = refl
request_each-scopes i (t ∷ live) o = request_each-scopes i live _

finish_exit-keys :
    (i : ℕ) (s : OracleScope) (children : List Text) (live : List OracleTask) (o : Oracle)
    → get_scope o.scopes s.scope ≡ some s
    → keys (finish_exit i s children live o).scopes ≡ keys o.scopes
unfolding finish_exit observe
finish_exit-keys i s [] [] o e =
    keys-put_scope o.scopes (record s { state = ScopeState.closed }) s e refl
finish_exit-keys i s [] (t ∷ live) o e = refl
finish_exit-keys i s (c ∷ children) live o e = refl

same-keys : (o o' : Oracle) → keys o'.scopes ≡ keys o.scopes → OrderedOracle o → OrderedOracle o'
same-keys o o' e h = record {
  ordered = subst IsOrdered (sym e) h.ordered;
  rooted = subst (λ ks. All (IsRooted ks) ks) (sym e) h.rooted;
}

-- An accepted event keeps the order of the scopes.
pub Accepts-Ordered :
    (i : ℕ) (e : StructuredConcurrencyEvent) (o o' : Oracle)
    → Accepts i o e o'
    → OrderedOracle o
    → OrderedOracle o'
unfolding exit_open observe touch_task change_task
Accepts-Ordered i e o o' (Accepts.opens {scope = scope} {parent = parent} free opened room) h =
    same-keys (record o { scopes = o.scopes ++ opened_scope scope parent ∷ [] }) o' refl
      (opens-Ordered o scope parent free opened h)
Accepts-Ordered i e o o' (Accepts.spawns free opened room few) h = same-keys o o' refl h
Accepts-Ordered i e o o' (Accepts.transfers found live owned differ source target) h =
    same-keys o o' refl h
Accepts-Ordered i e o o' (Accepts.yields found live more) h = same-keys o o' refl h
Accepts-Ordered i e o o' (Accepts.settles found live done) h = same-keys o o' refl h
Accepts-Ordered i e o o' (Accepts.requests found live) h = same-keys o o' refl h
Accepts-Ordered i e o o' (Accepts.delivers found live asked) h = same-keys o o' refl h
Accepts-Ordered i e o o' (Accepts.joins found) h = same-keys o o' refl h
Accepts-Ordered i e o o' (Accepts.exits {scope = scope} {s = s} found opened) h =
    let live = live_tasks o.tasks s.scope in
    let requested = request_each-scopes i live o in
    same-keys o o'
      (finish_exit-keys i s (open_children o.scopes s.scope) live (request_each i live o) (
          subst (λ us. get_scope us s.scope ≡ some s) (sym requested)
            (get_scope-own o.scopes scope s found))
        ∙ ap keys requested)
      h

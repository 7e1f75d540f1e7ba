-- ===== src/Concurrency/Scopes/Innermost.antt =====
-- src/structured-concurrency/oracle.ts: an open scope that holds no open scope.
use mathlib.Core.Path.{subst}
use semantic_systems.Base.{
  ◌≡◌, refl, inl, inr, ◌⊎◌, Bool, true, false, ◌&&◌, List, [], ◌∷◌, some, arith, All, All-map,
  Bool-cases, none-some, some-injective,
}
use semantic_systems.Kernel.Row.{Text, text_eq}
use semantic_systems.Kernel.Row.Equality.{text_eq_refl}
use semantic_systems.Concurrency.Oracle.{OracleScope, get_scope, is_open, is_owner}
use semantic_systems.Concurrency.Scopes.{Key, keys, IsOrdered}

-- An open scope with no open scope in it.
pub record IsInnermost (scopes : List OracleScope) (s : OracleScope) : Type 0 where
  pub found : get_scope scopes s.scope ≡ some s
  pub opened : is_open (some s) ≡ true
  pub childless : All (λ u. (is_owner u.parent s.scope && is_open (some u)) ≡ false) scopes

name-at :
    (P : Key → Type 0) (scopes : List OracleScope) (scope : Text) (s : OracleScope)
    → get_scope scopes scope ≡ some s
    → All P (keys scopes)
    → P (s.scope, s.parent)
unfolding get_scope
name-at P [] scope s e h = absurd (none-some e)
name-at P (u ∷ scopes) scope s e (h, hs) = elim (Bool-cases (text_eq u.scope scope)) [
  | inl this ↦ subst (λ x. P (x.scope, x.parent)) (some-injective (rw (get_scope, this) at e)) h
  | inr other ↦ name-at P scopes scope s (rw (get_scope, other) at e) hs
]

closed-childless :
    (scope : Text) (scopes : List OracleScope)
    → All (λ u. is_open (some u) ≡ false) scopes
    → All (λ u. (is_owner u.parent scope && is_open (some u)) ≡ false) scopes
closed-childless scope scopes h =
    All-map _ _ scopes (λ u shut. and-closed (is_owner u.parent scope) (is_open (some u)) shut) h
  where
    and-closed : (a b : Bool) → b ≡ false → (a && b) ≡ false
    and-closed a b h = ground arith

-- All scopes are closed, or one that is open has no open scope in it.
pub innermost :
    (scopes : List OracleScope)
    → IsOrdered (keys scopes)
    → All (λ u. is_open (some u) ≡ false) scopes ⊎ ((s : OracleScope) × IsInnermost scopes s)
unfolding get_scope
innermost [] h = inl tt
innermost (u ∷ scopes) ((own, later), (differ, h)) = elim (innermost scopes h) [
  | inr (s, inner) ↦
      let other : text_eq u.scope s.scope ≡ false =
        name-at (λ k. text_eq u.scope k.0 ≡ false) scopes s.scope s inner.found differ in
      let outside : is_owner u.parent s.scope ≡ false =
        name-at (λ k. is_owner u.parent k.0 ≡ false) scopes s.scope s inner.found later in
      inr (
        s,
        record {
          found = rw (get_scope, other) inner.found;
          opened = inner.opened;
          childless = (rw outside refl, inner.childless);
        },
      )
  | inl shut ↦ elim (Bool-cases (is_open (some u))) [
    | inr closed ↦ inl (closed, shut)
    | inl opened ↦ inr (
      u,
      record {
        found = rw (get_scope, text_eq_refl u.scope) refl;
        opened = opened;
        childless = (rw own refl, closed-childless u.scope scopes shut);
      },
    )
  ]
]

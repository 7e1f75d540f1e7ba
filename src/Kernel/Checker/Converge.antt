-- ===== src/Kernel/Checker/Converge.antt =====
-- The loop of `handler` on effects in src/kernel-calculus/checker.ts reaches a fixed point within
-- its bound on rounds.
use mathlib.Core.Path.{subst}
use semantic_systems.Base.{ℕ, zero, suc, ◌≡◌, refl, ap, List, [], ◌∷◌, arith, Bool-cases, inl, inr}
use semantic_systems.Kernel.Row.{EffectRow, includes, union_effect_rows, effect_rows_equal}
use semantic_systems.Kernel.Row.Equality.{effect_rows_equal→eq, effect_rows_equal_refl}
use semantic_systems.Kernel.Row.Order.{increasing_unique}
use semantic_systems.Kernel.Row.Laws.{union_effect_rows-IsIncreasing, includes-union_effect_rows}
use semantic_systems.Kernel.Diagnostic.{Result, ok, err}
use semantic_systems.Kernel.Diagnostic.Ensures.{Ensures, returns, fails, ◌⟫◌}
use semantic_systems.Kernel.Checker.{CheckedComputation, CheckedClauses, Round, settle, effects_of}
use semantic_systems.Kernel.Checker.Below.{Within, EffectsBelow, Both, of_both, some_row-Within}

-- A round at the row `assumed` gives the clauses, whose effects with the other two rows are that row.
pub record IsFixed (round : Round) (residual returned : EffectRow) (assumed : EffectRow)
    (checked : CheckedClauses) : Type 0 where
  pub settled : round assumed ≡ ok checked
  pub row : union_effect_rows (residual ∷ returned ∷ effects_of checked.clauses) ≡ assumed

-- Clauses checked at a row that is larger by `extra` have effects that are larger by it.
abbrev pub IsMonotone : Round → Type 0
IsMonotone round =
    (extra e f : EffectRow)
    → Within extra e f
    → Both (λ c d. EffectsBelow extra c.clauses d.clauses) (round e) (round f)

-- The second round's row is the first's.
second_row :
    (residual returned : EffectRow) (c d : CheckedClauses)
    → EffectsBelow
        (union_effect_rows (residual ∷ returned ∷ effects_of c.clauses))
        c.clauses
        d.clauses
    → EffectsBelow [] d.clauses c.clauses
    → union_effect_rows (residual ∷ returned ∷ effects_of d.clauses)
      ≡ union_effect_rows (residual ∷ returned ∷ effects_of c.clauses)
unfolding includes
second_row residual returned c d up down =
    increasing_unique _ _ (union_effect_rows-IsIncreasing _) (union_effect_rows-IsIncreasing _)
      (λ z.
        let l = includes-union_effect_rows (residual ∷ returned ∷ effects_of d.clauses) z in
        let r = includes-union_effect_rows (residual ∷ returned ∷ effects_of c.clauses) z in
        let p = some_row-Within _ c.clauses d.clauses z up in
        let q = some_row-Within [] d.clauses c.clauses z down in ground (arith, l, r, p, q))

remember {ℓ} : {A : Type ℓ} (r : Result A) → Ensures (λ a. r ≡ ok a) r
remember (ok a) = returns refl
remember (err e) = fails

both_ok :
    {A : Type 0} {P : A → A → Type 0} {r s : Result A} {a b : A}
    → Both P r s
    → r ≡ ok a
    → s ≡ ok b
    → P a b
both_ok {P} {r} {b} h p q = of_both (subst (λ x. Both P x (ok b)) p (subst (λ y. Both P r y) q h))

-- The row of the first round is in that of the second, which has nothing more than itself.
row-grows :
    (residual returned : EffectRow) (cs : List CheckedComputation)
    → Within []
        (union_effect_rows (residual ∷ returned ∷ effects_of cs))
        (union_effect_rows (residual ∷ returned ∷ []))
row-grows residual returned cs z m =
    let l = includes-union_effect_rows (residual ∷ returned ∷ effects_of cs) z in
    let r = includes-union_effect_rows (residual ∷ returned ∷ []) z in ground (arith, l, r)

row_self : (a b : EffectRow) → Within b a b
row_self a b z m = ground arith

module _ (round : Round) (residual returned : EffectRow) (monotone : IsMonotone round) where
  pub settle-IsFixed :
      (n : ℕ) (last : CheckedClauses)
      → Ensures
          (λ (assumed, checked). IsFixed round residual returned assumed checked)
          (settle
            (suc (suc n))
            round
            residual
            returned
            (union_effect_rows (residual ∷ returned ∷ []))
            last)
  unfolding settle
  settle-IsFixed n last =
      let first = union_effect_rows (residual ∷ returned ∷ []) in
      remember (round first) ⟫ λ c e.
      let next = union_effect_rows (residual ∷ returned ∷ effects_of c.clauses) in
      elim (Bool-cases (effect_rows_equal next first)) [
        | inl same ↦ rw same (returns (record { settled = e; row = effect_rows_equal→eq _ _ same }))
        | inr differ ↦ rw differ (
            remember (round next) ⟫ λ d e'.
            let again =
              second_row residual returned c d
                (both_ok (monotone next first next (row_self first next)) e e')
                (both_ok (monotone [] next first (row-grows residual returned c.clauses)) e' e) in
            rw (again, effect_rows_equal_refl next)
              (returns (record { settled = e'; row = again })))
      ]

-- A loop at larger rows stays within the fixed point of the other loop.
module _ (extra : EffectRow) (round round' : Round)
    (residual returned residual' returned' : EffectRow) (fixed : EffectRow)
    (checked : CheckedClauses) (is_fixed : IsFixed round residual returned fixed checked)
    (larger : (e f : EffectRow)
      → Within extra e f
      → Both (λ c d. EffectsBelow extra c.clauses d.clauses) (round e) (round' f))
    (p : Within extra residual residual') (q : Within extra returned returned') where
  next-Within :
      (d : CheckedClauses)
      → EffectsBelow extra checked.clauses d.clauses
      → Within extra fixed (union_effect_rows (residual' ∷ returned' ∷ effects_of d.clauses))
  next-Within d h z m =
      let row = is_fixed.row in
      let l = includes-union_effect_rows (residual ∷ returned ∷ effects_of checked.clauses) z in
      let r = includes-union_effect_rows (residual' ∷ returned' ∷ effects_of d.clauses) z in
      let i = ap (λ x. includes x z) row in
      ground (arith, l, r, i, p z, q z, some_row-Within extra checked.clauses d.clauses z h)

  settle-Within :
      (n : ℕ) (assumed : EffectRow) (last : CheckedClauses)
      → Within extra fixed assumed
      → EffectsBelow extra checked.clauses last.clauses
      → Ensures
          (λ (e, d). Within extra fixed e × EffectsBelow extra checked.clauses d.clauses)
          (settle n round' residual' returned' assumed last)
  unfolding settle
  settle-Within zero assumed last w h = returns (w, h)
  settle-Within (suc n) assumed last w h = remember (round' assumed) ⟫ λ d e.
      let h' = both_ok (larger fixed assumed w) is_fixed.settled e in
      elim (Bool-cases (
        effect_rows_equal (union_effect_rows (residual' ∷ returned' ∷ effects_of d.clauses))
          assumed)) [
            | inl same ↦ rw same (returns (w, h'))
            | inr differ ↦ rw differ (settle-Within n _ d (next-Within d h') h')
          ]

  base-Within : Within extra fixed (union_effect_rows (residual' ∷ returned' ∷ []))
  base-Within z m =
      let row = is_fixed.row in
      let l = includes-union_effect_rows (residual ∷ returned ∷ effects_of checked.clauses) z in
      let r = includes-union_effect_rows (residual' ∷ returned' ∷ []) z in
      let i = ap (λ x. includes x z) row in ground (arith, l, r, i, p z, q z)

  pub settle-suc-Within :
      (n : ℕ) (last : CheckedClauses)
      → Ensures
          (λ (e, d). Within extra fixed e × EffectsBelow extra checked.clauses d.clauses)
          (settle
            (suc n)
            round'
            residual'
            returned'
            (union_effect_rows (residual' ∷ returned' ∷ []))
            last)
  unfolding settle
  settle-suc-Within n last =
      remember (round' (union_effect_rows (residual' ∷ returned' ∷ []))) ⟫ λ d e.
      let h = both_ok (larger fixed _ base-Within) is_fixed.settled e in
      elim (Bool-cases (
        effect_rows_equal (union_effect_rows (residual' ∷ returned' ∷ effects_of d.clauses))
          (union_effect_rows (residual' ∷ returned' ∷ [])))) [
            | inl same ↦ rw same (returns (base-Within, h))
            | inr differ ↦ rw differ (settle-Within n _ d (next-Within d h) h)
          ]

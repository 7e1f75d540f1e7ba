-- ===== src/Kernel/Checker/Effects.antt =====
-- `checkEffectAssertion`: which claimed rows are accepted.
use semantic_systems.Base.{
  ◌≡◌, sym, ◌∙◌, ap, ◌↔◌, true, false, List, [], ◌∷◌, String, Bool-cases, inl, inr,
}
use semantic_systems.Kernel.Row.{
  Text, EffectRow, effect_row, includes, effect_row_is_subset, effect_rows_equal,
}
use semantic_systems.Kernel.Row.Equality.{effect_rows_equal→eq, effect_rows_equal_refl}
use semantic_systems.Kernel.Row.Order.{IsIncreasing, HasSameLabels, increasing_unique}
use semantic_systems.Kernel.Row.Laws.{
  includes-effect_row, effect_row-IsIncreasing, effect_row_is_subset_iff, IsSubset,
}
use semantic_systems.Kernel.Diagnostic.{Segment, Result, ok, err, Diagnostic, ◌>>=◌, fail}
use semantic_systems.Kernel.Term.{ComputationTerm, OperationSignature}
use semantic_systems.Kernel.Checker.Normal.{check-IsNormal}
use semantic_systems.Kernel.Checker.{check, Accepted, check_effect_assertion, require}

abbrev pub row_diagnostic : String → String → Diagnostic
row_diagnostic code rule = record { code = code; rule = rule; path = Segment.claimed_effects ∷ [] }

assertion_accepts :
    (program : Accepted) (claimed : List Text)
    → effect_row claimed ≡ program.effects
    → check_effect_assertion program claimed ≡ ok program.effects
unfolding check_effect_assertion ◌>>=◌ require
assertion_accepts program claimed e = rw (
  e,
  (effect_row_is_subset_iff program.effects program.effects).1 (λ z m. m),
  effect_rows_equal_refl program.effects,
)

assertion_tunnels :
    (program : Accepted) (claimed : List Text)
    → effect_row_is_subset program.effects (effect_row claimed) ≡ false
    → check_effect_assertion program claimed
      ≡ err (row_diagnostic "effect.foreign-tunneling" "handler.output-row")
unfolding check_effect_assertion ◌>>=◌ require fail
assertion_tunnels program claimed e = rw e

assertion_mismatches :
    (program : Accepted) (claimed : List Text)
    → effect_row_is_subset program.effects (effect_row claimed) ≡ true
    → effect_rows_equal program.effects (effect_row claimed) ≡ false
    → check_effect_assertion program claimed
      ≡ err (row_diagnostic "effect.row-mismatch" "checker.effect-assertion")
unfolding check_effect_assertion ◌>>=◌ require fail
assertion_mismatches program claimed e f = rw (e, f)

effect_row-eq :
    (program : Accepted) (claimed : List Text)
    → IsIncreasing program.effects
    → HasSameLabels program.effects claimed
    → effect_row claimed ≡ program.effects
effect_row-eq program claimed inc same =
    increasing_unique (effect_row claimed) program.effects (effect_row-IsIncreasing claimed) inc
      (λ z. includes-effect_row claimed z ∙ sym (same z))

true-false : true ≡ false → ⊥
true-false e = cc

-- The two rejections differ.
row_codes :
    {r : Result EffectRow}
    → r ≡ err (row_diagnostic "effect.row-mismatch" "checker.effect-assertion")
    → r ≡ err (row_diagnostic "effect.foreign-tunneling" "handler.output-row")
    → ⊥
row_codes e f = cc (e, f)

equal_rows :
    (program : Accepted) (claimed : List Text)
    → IsIncreasing program.effects
    → HasSameLabels program.effects claimed
    → effect_rows_equal program.effects (effect_row claimed) ≡ true
equal_rows program claimed inc same =
    rw (effect_row-eq program claimed inc same) (effect_rows_equal_refl program.effects)

lacks_label :
    (program : Accepted) (claimed : List Text)
    → effect_row_is_subset program.effects (effect_row claimed) ≡ false
    → ¬ IsSubset program.effects claimed
lacks_label program claimed outside sub =
    let inside =
      (effect_row_is_subset_iff program.effects (effect_row claimed)).1
        (λ z m. includes-effect_row claimed z ∙ sub z m) in
    true-false (sym inside ∙ outside)

differs :
    (program : Accepted) (claimed : List Text)
    → IsIncreasing program.effects
    → effect_rows_equal program.effects (effect_row claimed) ≡ false
    → ¬ HasSameLabels program.effects claimed
differs program claimed inc unequal same =
    true-false (sym (equal_rows program claimed inc same) ∙ unequal)

has_labels :
    (program : Accepted) (claimed : List Text)
    → effect_row_is_subset program.effects (effect_row claimed) ≡ true
    → IsSubset program.effects claimed
has_labels program claimed inside z m =
    sym (includes-effect_row claimed z)
    ∙ (effect_row_is_subset_iff program.effects (effect_row claimed)).0 inside z m

assertion_same :
    (program : Accepted) (claimed : List Text)
    → effect_row_is_subset program.effects (effect_row claimed) ≡ true
    → effect_rows_equal program.effects (effect_row claimed) ≡ true
    → HasSameLabels program.effects claimed
assertion_same program claimed e f =
    λ z. ap (λ r. includes r z) (effect_rows_equal→eq _ _ f) ∙ includes-effect_row claimed z

-- `checkEffectAssertion` on a program that `check` accepted: it returns the inferred row exactly
-- when the claim has the labels of the row, in any order; it is a row mismatch exactly when the claim
-- has all the labels of the row and others; it is foreign tunneling exactly when the claim lacks a
-- label of the row. Both rejections have the path `$.claimedEffects`.
pub check_effect_assertion_lem :
    (signature : OperationSignature) (term : ComputationTerm (Unit {0})) (program : Accepted)
    (claimed : List Text)
    → check signature term ≡ ok program
    → ((check_effect_assertion program claimed ≡ ok program.effects)
        ↔ HasSameLabels program.effects claimed)
      × ((check_effect_assertion program claimed
            ≡ err (row_diagnostic "effect.row-mismatch" "checker.effect-assertion"))
          ↔ (IsSubset program.effects claimed × ¬ HasSameLabels program.effects claimed))
      × ((check_effect_assertion program claimed
            ≡ err (row_diagnostic "effect.foreign-tunneling" "handler.output-row"))
          ↔ ¬ IsSubset program.effects claimed)
check_effect_assertion_lem signature term program claimed accepted =
    let inc = (check-IsNormal signature term program accepted).1 in
    let claim = effect_row claimed in
    elim (Bool-cases (effect_row_is_subset program.effects claim)) [
      | inr outside ↦
          let result = assertion_tunnels program claimed outside in
          let lacks = lacks_label program claimed outside in
          (
            ((λ e. absurd (cc (e, result))), (λ same. absurd (lacks (λ z m. sym (same z) ∙ m)))),
            ((λ e. absurd (row_codes e result)), (λ (sub, _). absurd (lacks sub))),
            ((λ _. lacks), (λ _. result)),
          )
      | inl inside ↦
          let sub = has_labels program claimed inside in
          elim (Bool-cases (effect_rows_equal program.effects claim)) [
            | inl equal ↦
                let same = assertion_same program claimed inside equal in
                let result =
                  assertion_accepts program claimed (effect_row-eq program claimed inc same) in
                (
                  ((λ _. same), (λ _. result)),
                  ((λ e. absurd (cc (e, result))), (λ (_, differ). absurd (differ same))),
                  ((λ e. absurd (cc (e, result))), (λ lacks. absurd (lacks sub))),
                )
            | inr unequal ↦
                let result = assertion_mismatches program claimed inside unequal in
                let differ = differs program claimed inc unequal in
                (
                  ((λ e. absurd (cc (e, result))), (λ same. absurd (differ same))),
                  ((λ _. (sub, differ)), (λ _. result)),
                  ((λ e. absurd (row_codes result e)), (λ lacks. absurd (lacks sub))),
                )
          ]
    ]

-- ===== src/Kernel/Checker/Below.antt =====
-- How two checked terms can differ when their contexts differ in effects only: types of one shape
-- whose rows grow by labels of one row, and two results of the checker, each of which may fail.
use semantic_systems.Base.{◌≡◌, true, ◌||◌, List, [], ◌∷◌, arith}
use semantic_systems.Kernel.Row.{Text, EffectRow, includes, union_effect_rows, remove_effect_label}
use semantic_systems.Kernel.Row.Laws.{
  some_row_includes, includes-union_effect_rows, includes-remove_effect_label,
}
use semantic_systems.Kernel.Types.{ValueType, ComputationType}
use semantic_systems.Kernel.Diagnostic.{Diagnostic, Result, ok, err, ◌>>=◌}
use semantic_systems.Kernel.Checker.{
  Context, Resumptions, ResumptionExpectation, CheckedComputation, effects_of,
}

-- The labels of `s` are labels of `r` or of `extra`.
abbrev pub Within : EffectRow → EffectRow → EffectRow → Type 0
Within extra r s = (z : Text) → includes s z ≡ true → (includes r z || includes extra z) ≡ true

abbrev mutual
  pub ValueBelow : EffectRow → ValueType → ValueType → Type 0
  ValueBelow extra ValueType.unit ValueType.unit = Unit
  ValueBelow extra ValueType.bool ValueType.bool = Unit
  ValueBelow extra ValueType.int ValueType.int = Unit
  ValueBelow extra (ValueType.pair a b) (ValueType.pair c d) =
      ValueBelow extra a c × ValueBelow extra b d
  ValueBelow extra (ValueType.thunk e c) (ValueType.thunk f d) =
      Within extra e f × ComputationBelow extra c d
  ValueBelow extra _ _ = ⊥

  pub ComputationBelow : EffectRow → ComputationType → ComputationType → Type 0
  ComputationBelow extra (ComputationType.return g a) (ComputationType.return h b) =
      ValueBelow extra a b
  ComputationBelow extra (ComputationType.function a g e c) (ComputationType.function b h f d) =
      ValueBelow extra a b × Within extra e f × ComputationBelow extra c d
  ComputationBelow extra _ _ = ⊥

pub Within-refl : (extra r : EffectRow) → Within extra r r
Within-refl extra r z m = ground arith

mutual
  pub ValueBelow-refl : (extra : EffectRow) (a : ValueType) → ValueBelow extra a a
  ValueBelow-refl extra ValueType.unit = tt
  ValueBelow-refl extra ValueType.bool = tt
  ValueBelow-refl extra ValueType.int = tt
  ValueBelow-refl extra (ValueType.pair a b) = (ValueBelow-refl extra a, ValueBelow-refl extra b)
  ValueBelow-refl extra (ValueType.thunk e c) = (Within-refl extra e, ComputationBelow-refl extra c)

  pub ComputationBelow-refl : (extra : EffectRow) (c : ComputationType) → ComputationBelow extra c c
  ComputationBelow-refl extra (ComputationType.return g a) = ValueBelow-refl extra a
  ComputationBelow-refl extra (ComputationType.function a g e c) =
      (ValueBelow-refl extra a, Within-refl extra e, ComputationBelow-refl extra c)

abbrev pub ContextBelow : EffectRow → Context → Context → Type 0
ContextBelow extra [] [] = Unit
ContextBelow extra (a ∷ Γ) (b ∷ Δ) = ValueBelow extra a b × ContextBelow extra Γ Δ
ContextBelow extra _ _ = ⊥

abbrev pub ExpectationBelow : EffectRow → ResumptionExpectation → ResumptionExpectation → Type 0
ExpectationBelow extra x y =
    ValueBelow extra x.input y.input
    × ComputationBelow extra x.output y.output
    × Within extra x.effects y.effects

abbrev pub ResumptionsBelow : EffectRow → Resumptions → Resumptions → Type 0
ResumptionsBelow extra [] [] = Unit
ResumptionsBelow extra (x ∷ R) (y ∷ S) = ExpectationBelow extra x y × ResumptionsBelow extra R S
ResumptionsBelow extra _ _ = ⊥

pub ContextBelow-refl : (extra : EffectRow) (Γ : Context) → ContextBelow extra Γ Γ
ContextBelow-refl extra [] = tt
ContextBelow-refl extra (a ∷ Γ) = (ValueBelow-refl extra a, ContextBelow-refl extra Γ)

pub ResumptionsBelow-refl : (extra : EffectRow) (R : Resumptions) → ResumptionsBelow extra R R
ResumptionsBelow-refl extra [] = tt
ResumptionsBelow-refl extra (x ∷ R) = (
  (
    ValueBelow-refl extra x.input,
    ComputationBelow-refl extra x.output,
    Within-refl extra x.effects,
  ),
  ResumptionsBelow-refl extra R,
)

abbrev pub CheckedBelow : EffectRow → CheckedComputation → CheckedComputation → Type 0
CheckedBelow extra c d = ComputationBelow extra c.type d.type × Within extra c.effects d.effects

abbrev pub EffectsBelow : EffectRow → List CheckedComputation → List CheckedComputation → Type 0
EffectsBelow extra [] [] = Unit
EffectsBelow extra (c ∷ cs) (d ∷ ds) = Within extra c.effects d.effects × EffectsBelow extra cs ds
EffectsBelow extra _ _ = ⊥

-- Two results that are related by `P` if both are there.
pub data Both {A : Type 0} (P : A → A → Type 0) : Result A → Result A → Type 0 where
  both : {a b : A} → P a b → Both P (ok a) (ok b)
  fails_first : {e : Diagnostic} {s : Result A} → Both P (err e) s
  fails_second : {e : Diagnostic} {r : Result A} → Both P r (err e)

infixl 1 ◌⊗◌
pub ◌⊗◌ :
    {A B : Type 0} {P : A → A → Type 0} {Q : B → B → Type 0} {r s : Result A} {f g : A → Result B}
    → Both P r s
    → ((a b : A) → P a b → Both Q (f a) (g b))
    → Both Q (r >>= f) (s >>= g)
unfolding ◌>>=◌
both h ⊗ k = k _ _ h
fails_first ⊗ k = fails_first
fails_second ⊗ k = fails_second

pub of_both : {A : Type 0} {P : A → A → Type 0} {a b : A} → Both P (ok a) (ok b) → P a b
of_both (both h) = h

pub whatever : {A : Type 0} (r s : Result A) → Both (λ _ _. Unit) r s
whatever (ok a) (ok b) = both tt
whatever (ok a) (err e) = fails_second
whatever (err e) s = fails_first

-- Rows of unions and of removals.
pub some_row-Within :
    (extra : EffectRow) (cs ds : List CheckedComputation) (z : Text)
    → EffectsBelow extra cs ds
    → some_row_includes (effects_of ds) z ≡ true
    → (some_row_includes (effects_of cs) z || includes extra z) ≡ true
some_row-Within extra [] [] z h m = absurd (cc)
some_row-Within extra (c ∷ cs) (d ∷ ds) z (w, h) m =
    ground (arith, w z, some_row-Within extra cs ds z h)
some_row-Within extra [] (d ∷ ds) z h m = absurd h
some_row-Within extra (c ∷ cs) [] z h m = absurd h

pub union-Within :
    (extra a b c d : EffectRow)
    → Within extra a c
    → Within extra b d
    → Within extra (union_effect_rows (a ∷ b ∷ [])) (union_effect_rows (c ∷ d ∷ []))
union-Within extra a b c d p q z m =
    let l = includes-union_effect_rows (a ∷ b ∷ []) z in
    let r = includes-union_effect_rows (c ∷ d ∷ []) z in ground (arith, l, r, p z, q z)

pub remove-Within :
    (extra a b : EffectRow) (label : Text)
    → Within extra a b
    → Within extra (remove_effect_label a label) (remove_effect_label b label)
remove-Within extra a b label p z m =
    let l = includes-remove_effect_label a label z in
    let r = includes-remove_effect_label b label z in ground (arith, l, r, p z)

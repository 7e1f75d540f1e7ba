-- ===== src/Kernel/Types/Equality.antt =====
-- `valueTypesEqual` and `computationTypesEqual` decide equality of types.
use semantic_systems.Base.{◌≡◌, refl, ◌↔◌, true, and-eq-true, arith}
use semantic_systems.Kernel.Grade.{Grade, grade_eq}
use semantic_systems.Kernel.Row.Equality.{effect_rows_equal→eq, effect_rows_equal_refl}
use semantic_systems.Kernel.Types.{
  ValueType, ComputationType, value_types_equal, computation_types_equal,
}

pub grade_eq→eq : (g h : Grade) → grade_eq g h ≡ true → g ≡ h
unfolding grade_eq
grade_eq→eq g h e = ground arith

grade_eq_refl : (g : Grade) → grade_eq g g ≡ true
unfolding grade_eq
grade_eq_refl g = ground arith

mutual
  unfolding value_types_equal computation_types_equal

  pub value_types_equal→eq : (a b : ValueType) → value_types_equal a b ≡ true → a ≡ b
  value_types_equal→eq (ValueType.pair a b) (ValueType.pair c d) h =
      let (p, q) = and-eq-true _ _ h in cc (value_types_equal→eq a c p, value_types_equal→eq b d q)
  value_types_equal→eq (ValueType.thunk e c) (ValueType.thunk f d) h =
      let (p, q) = and-eq-true _ _ h in
      cc (effect_rows_equal→eq e f p, computation_types_equal→eq c d q)
  value_types_equal→eq ValueType.unit ValueType.unit h = refl
  value_types_equal→eq ValueType.bool ValueType.bool h = refl
  value_types_equal→eq ValueType.int ValueType.int h = refl
  value_types_equal→eq _ _ h = cc

  pub computation_types_equal→eq :
      (c d : ComputationType) → computation_types_equal c d ≡ true → c ≡ d
  computation_types_equal→eq (ComputationType.return g a) (ComputationType.return h b) e =
      let (p, q) = and-eq-true _ _ e in cc (grade_eq→eq g h p, value_types_equal→eq a b q)
  computation_types_equal→eq (ComputationType.function a g e c) (ComputationType.function b h f d)
        p =
      let (p₁, q) = and-eq-true _ _ p in
      let (p₂, r) = and-eq-true _ _ q in
      let (p₃, p₄) = and-eq-true _ _ r in
      cc (
        value_types_equal→eq a b p₁,
        grade_eq→eq g h p₂,
        effect_rows_equal→eq e f p₃,
        computation_types_equal→eq c d p₄,
      )
  computation_types_equal→eq _ _ h = cc

mutual
  unfolding value_types_equal computation_types_equal

  pub value_types_equal_refl : (a : ValueType) → value_types_equal a a ≡ true
  value_types_equal_refl ValueType.unit = refl
  value_types_equal_refl ValueType.bool = refl
  value_types_equal_refl ValueType.int = refl
  value_types_equal_refl (ValueType.pair a b) =
      rw (value_types_equal_refl a) (value_types_equal_refl b)
  value_types_equal_refl (ValueType.thunk e c) =
      rw (effect_rows_equal_refl e) (computation_types_equal_refl c)

  pub computation_types_equal_refl : (c : ComputationType) → computation_types_equal c c ≡ true
  computation_types_equal_refl (ComputationType.return g a) =
      rw (grade_eq_refl g) (value_types_equal_refl a)
  computation_types_equal_refl (ComputationType.function a g e c) =
      rw (value_types_equal_refl a, grade_eq_refl g, effect_rows_equal_refl e)
        (computation_types_equal_refl c)

-- `valueTypesEqual` and `computationTypesEqual` return true exactly when the types are equal.
pub types_equal_iff :
    (a b : ValueType) (c d : ComputationType)
    → ((value_types_equal a b ≡ true) ↔ (a ≡ b)) × ((computation_types_equal c d ≡ true) ↔ (c ≡ d))
types_equal_iff a b c d = (
  (value_types_equal→eq a b, λ e. rw e (value_types_equal_refl b)),
  (computation_types_equal→eq c d, λ e. rw e (computation_types_equal_refl d)),
)

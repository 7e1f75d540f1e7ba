-- ===== src/Kernel/Types.antt =====
-- src/kernel-calculus/ast.ts: value types and computation types; checker.ts: their equality.
pub mod Equality
use semantic_systems.Base.{Bool, true, false, ◌&&◌}
use semantic_systems.Kernel.Grade.{Grade, grade_eq}
use semantic_systems.Kernel.Row.{EffectRow, effect_row, effect_rows_equal}

mutual
  pub data ValueType : Type 0 where
    unit bool int : ValueType
    pair : ValueType → ValueType → ValueType
    thunk : EffectRow → ComputationType → ValueType

  pub data ComputationType : Type 0 where
    return : Grade → ValueType → ComputationType
    function : ValueType → Grade → EffectRow → ComputationType → ComputationType

unfoldable mutual
  unfolding grade_eq effect_rows_equal

  pub value_types_equal : ValueType → ValueType → Bool
  value_types_equal ValueType.unit ValueType.unit = true
  value_types_equal ValueType.bool ValueType.bool = true
  value_types_equal ValueType.int ValueType.int = true
  value_types_equal (ValueType.pair a b) (ValueType.pair c d) =
      value_types_equal a c && value_types_equal b d
  value_types_equal (ValueType.thunk e c) (ValueType.thunk f d) =
      effect_rows_equal e f && computation_types_equal c d
  value_types_equal _ _ = false

  pub computation_types_equal : ComputationType → ComputationType → Bool
  computation_types_equal (ComputationType.return g a) (ComputationType.return h b) =
      grade_eq g h && value_types_equal a b
  computation_types_equal (ComputationType.function a g e c) (ComputationType.function b h f d) =
      value_types_equal a b
      && (grade_eq g h && (effect_rows_equal e f && computation_types_equal c d))
  computation_types_equal _ _ = false

-- `cloneValueType` and `cloneComputationType`: a copy whose rows are normalized.
unfoldable mutual
  pub clone_value_type : ValueType → ValueType
  clone_value_type ValueType.unit = ValueType.unit
  clone_value_type ValueType.bool = ValueType.bool
  clone_value_type ValueType.int = ValueType.int
  clone_value_type (ValueType.pair a b) = ValueType.pair (clone_value_type a) (clone_value_type b)
  clone_value_type (ValueType.thunk e c) = ValueType.thunk (effect_row e) (clone_computation_type c)

  pub clone_computation_type : ComputationType → ComputationType
  clone_computation_type (ComputationType.return g a) =
      ComputationType.return g (clone_value_type a)
  clone_computation_type (ComputationType.function a g e c) =
      ComputationType.function (clone_value_type a) g (effect_row e) (clone_computation_type c)

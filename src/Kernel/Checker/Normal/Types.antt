-- ===== src/Kernel/Checker/Normal/Types.antt =====
-- Types and terms whose rows are sorted and without repetitions, as copies are.
use semantic_systems.Kernel.Row.Order.{IsIncreasing}
use semantic_systems.Kernel.Row.Laws.{effect_row-IsIncreasing}
use semantic_systems.Kernel.Types.{
  ValueType, ComputationType, clone_value_type, clone_computation_type,
}
use semantic_systems.Kernel.Term.{ValueTerm, ComputationTerm}
use semantic_systems.Kernel.Term.Clone.{clone_value_term, clone_computation_term}

abbrev mutual
  pub IsNormalValue : ValueType → Type 0
  IsNormalValue (ValueType.pair a b) = IsNormalValue a × IsNormalValue b
  IsNormalValue (ValueType.thunk e c) = IsIncreasing e × IsNormal c
  IsNormalValue _ = Unit

  pub IsNormal : ComputationType → Type 0
  IsNormal (ComputationType.return g a) = IsNormalValue a
  IsNormal (ComputationType.function a g e c) = IsNormalValue a × IsIncreasing e × IsNormal c

mutual
  unfolding clone_value_type clone_computation_type

  pub clone_value_type-IsNormal : (a : ValueType) → IsNormalValue (clone_value_type a)
  clone_value_type-IsNormal ValueType.unit = tt
  clone_value_type-IsNormal ValueType.bool = tt
  clone_value_type-IsNormal ValueType.int = tt
  clone_value_type-IsNormal (ValueType.pair a b) =
      (clone_value_type-IsNormal a, clone_value_type-IsNormal b)
  clone_value_type-IsNormal (ValueType.thunk e c) =
      (effect_row-IsIncreasing e, clone_computation_type-IsNormal c)

  pub clone_computation_type-IsNormal : (c : ComputationType) → IsNormal (clone_computation_type c)
  clone_computation_type-IsNormal (ComputationType.return g a) = clone_value_type-IsNormal a
  clone_computation_type-IsNormal (ComputationType.function a g e c) =
      (clone_value_type-IsNormal a, effect_row-IsIncreasing e, clone_computation_type-IsNormal c)

-- The types of the binders of a term, outside the clauses of its handlers.
abbrev mutual
  pub HasNormalValue : ValueTerm (Unit {0}) → Type 0
  HasNormalValue (ValueTerm.pair a b) = HasNormalValue a × HasNormalValue b
  HasNormalValue (ValueTerm.thunk _ c) = HasNormal c
  HasNormalValue _ = Unit

  pub HasNormal : ComputationTerm (Unit {0}) → Type 0
  HasNormal (ComputationTerm.return g v) = HasNormalValue v
  HasNormal (ComputationTerm.let_in c d) = HasNormal c × HasNormal d
  HasNormal (ComputationTerm.force v) = HasNormalValue v
  HasNormal (ComputationTerm.lambda a g c) = IsNormalValue a × HasNormal c
  HasNormal (ComputationTerm.apply c v) = HasNormal c × HasNormalValue v
  HasNormal (ComputationTerm.operation g label name v) = HasNormalValue v
  HasNormal (ComputationTerm.handle label c r clauses) = HasNormal c × HasNormal r
  HasNormal (ComputationTerm.resume i v) = HasNormalValue v

mutual
  unfolding clone_value_term clone_computation_term

  pub clone_value_term-HasNormal : (v : ValueTerm (Unit {0})) → HasNormalValue (clone_value_term v)
  clone_value_term-HasNormal (ValueTerm.variable i) = tt
  clone_value_term-HasNormal ValueTerm.unit = tt
  clone_value_term-HasNormal (ValueTerm.bool b) = tt
  clone_value_term-HasNormal (ValueTerm.int n) = tt
  clone_value_term-HasNormal (ValueTerm.pair a b) =
      (clone_value_term-HasNormal a, clone_value_term-HasNormal b)
  clone_value_term-HasNormal (ValueTerm.thunk _ c) = clone_computation_term-HasNormal c
  clone_value_term-HasNormal (ValueTerm.resumption i) = tt

  pub clone_computation_term-HasNormal :
      (c : ComputationTerm (Unit {0})) → HasNormal (clone_computation_term c)
  clone_computation_term-HasNormal (ComputationTerm.return g v) = clone_value_term-HasNormal v
  clone_computation_term-HasNormal (ComputationTerm.let_in c d) =
      (clone_computation_term-HasNormal c, clone_computation_term-HasNormal d)
  clone_computation_term-HasNormal (ComputationTerm.force v) = clone_value_term-HasNormal v
  clone_computation_term-HasNormal (ComputationTerm.lambda a g c) =
      (clone_value_type-IsNormal a, clone_computation_term-HasNormal c)
  clone_computation_term-HasNormal (ComputationTerm.apply c v) =
      (clone_computation_term-HasNormal c, clone_value_term-HasNormal v)
  clone_computation_term-HasNormal (ComputationTerm.operation g label name v) =
      clone_value_term-HasNormal v
  clone_computation_term-HasNormal (ComputationTerm.handle label c r clauses) =
      (clone_computation_term-HasNormal c, clone_computation_term-HasNormal r)
  clone_computation_term-HasNormal (ComputationTerm.resume i v) = clone_value_term-HasNormal v

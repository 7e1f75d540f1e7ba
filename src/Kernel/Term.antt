-- ===== src/Kernel/Term.antt =====
-- src/kernel-calculus/ast.ts: value terms, computation terms and operation signatures.
-- `A` is what a thunk term carries: nothing in a source term, and in a checked term the type that
-- the checker's table `valueTypes` holds for the thunk.
pub mod Clone
use semantic_systems.Base.{ℕ, ◌≤◌, Bool, true, false, List, ◌^◌, ltb}
use semantic_systems.Kernel.Grade.{Grade}
use semantic_systems.Kernel.Row.{Text}
use semantic_systems.Kernel.Types.{ValueType}

-- A JavaScript number: an integer, `negsuc n` being -(n + 1), or any other number.
pub data Number : Type 0 where
  pos negsuc : ℕ → Number
  fractional : Number

-- `Number.isSafeInteger`.
unfoldable pub is_safe_integer : Number → Bool
is_safe_integer (Number.pos n) = ltb n (2 ^ 53)
is_safe_integer (Number.negsuc n) = ltb (ℕ.suc n) (2 ^ 53)
is_safe_integer Number.fractional = false

mutual
  pub data ValueTerm (A : Type 0) : Type 0 where
    variable : ℕ → ValueTerm A
    unit : ValueTerm A
    bool : Bool → ValueTerm A
    int : Number → ValueTerm A
    pair : ValueTerm A → ValueTerm A → ValueTerm A
    thunk : A → ComputationTerm A → ValueTerm A
    resumption : ℕ → ValueTerm A

  pub data ComputationTerm (A : Type 0) : Type 0 where
    return : Grade → ValueTerm A → ComputationTerm A
    let_in : ComputationTerm A → ComputationTerm A → ComputationTerm A
    force : ValueTerm A → ComputationTerm A
    lambda : ValueType → Grade → ComputationTerm A → ComputationTerm A
    apply : ComputationTerm A → ValueTerm A → ComputationTerm A
    operation : Grade → Text → Text → ValueTerm A → ComputationTerm A
    handle : Text → ComputationTerm A → ComputationTerm A → Clauses A → ComputationTerm A
    resume : ℕ → ValueTerm A → ComputationTerm A

  pub data Clauses (A : Type 0) : Type 0 where
    clauses_end : Clauses A
    clause : Text → ComputationTerm A → Clauses A → Clauses A

-- `term.operationClauses.map((clause) => clause.operation)`.
unfoldable pub clause_operations : {A : Type 0} → Clauses A → List Text
clause_operations Clauses.clauses_end = List.[]
clause_operations (Clauses.clause name body rest) = List.◌∷◌ name (clause_operations rest)

pub record OperationDeclaration : Type 0 where
  pub label : Text
  pub operation : Text
  pub argument_type : ValueType
  pub result_type : ValueType

abbrev pub OperationSignature : Type 0
OperationSignature = List OperationDeclaration

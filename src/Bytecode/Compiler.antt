-- ===== src/Bytecode/Compiler.antt =====
-- src/kernel-bytecode/compiler.ts: from a checked term to an instruction graph. The state of the
-- source's `Builder` is passed along, and an exception is a result with its code.
pub mod Invariant
pub mod WellFormed
use semantic_systems.Base.{
  ℕ, zero, suc, ◌+◌, ◌⊎◌, inl, inr, String, List, [], ◌∷◌, ◌++◌, Option, none, some, leb, length,
  get_elem?, if◌then◌else◌,
}
use semantic_systems.Kernel.Types.{ValueType, ComputationType}
use semantic_systems.Kernel.Term.{ValueTerm, ComputationTerm, Clauses, OperationSignature}
use semantic_systems.Kernel.Signature.{operation_declaration}
use semantic_systems.Bytecode.Instruction.{
  ObservableValueType, ObservableComputationType, HandlerClause, Instruction, Constant,
  InstructionGraph, KernelBytecodeBounds,
}

unfoldable mutual
  pub observable_value_type : ValueType → ObservableValueType
  observable_value_type ValueType.unit = ObservableValueType.unit
  observable_value_type ValueType.bool = ObservableValueType.bool
  observable_value_type ValueType.int = ObservableValueType.int
  observable_value_type (ValueType.pair first second) =
      ObservableValueType.pair (observable_value_type first) (observable_value_type second)
  observable_value_type (ValueType.thunk effects computation) =
      ObservableValueType.thunk effects (observable_computation_type computation)

  pub observable_computation_type : ComputationType → ObservableComputationType
  observable_computation_type (ComputationType.return grade value) =
      ObservableComputationType.return grade (observable_value_type value)
  observable_computation_type (ComputationType.function parameter grade effects result) =
      ObservableComputationType.function (observable_value_type parameter) grade effects
        (observable_computation_type result)

pub record CompileContext : Type 0 where
  pub value_slots : List ℕ
  pub resumption_slots : List ℕ

pub record Builder : Type 0 where
  pub blocks : List (List Instruction)
  pub constants : List Constant
  pub instruction_count : ℕ
  pub next_slot : ℕ

pub data Built {ℓ} (A : Type ℓ) : Type ℓ where
  built : A → Builder → Built A
  failed : String → Built A

abbrev pub Build {ℓ} : Type ℓ → Type ℓ
Build A = Builder → Built A

infixl 5 ◌>>=◌ ◌>>◌
unfoldable pub ◌>>=◌ {ℓ κ} : {A : Type ℓ} {B : Type κ} → Build A → (A → Build B) → Build B
(act >>= next) builder = elim (act builder) [
  | Built.failed code ↦ Built.failed code
  | Built.built a builder' ↦ next a builder'
]

abbrev pub ◌>>◌ {ℓ} : {B : Type ℓ} → Build (Unit {0}) → Build B → Build B
act >> next = act >>= λ _. next

abbrev pub pure {ℓ} : {A : Type ℓ} → A → Build A
pure a builder = Built.built a builder

abbrev pub fails {ℓ} : {A : Type ℓ} → String → Build A
fails code builder = Built.failed code

-- The list with an element pushed to its list number `n`.
unfoldable pub push_at : List (List Instruction) → ℕ → Instruction → List (List Instruction)
push_at [] n instruction = []
push_at (block ∷ blocks) zero instruction = (block ++ instruction ∷ []) ∷ blocks
push_at (block ∷ blocks) (suc n) instruction = block ∷ push_at blocks n instruction

-- `slot`.
unfoldable pub new_slot : Build ℕ
new_slot builder =
    Built.built builder.next_slot (record builder { next_slot = builder.next_slot + 1 })

unfoldable pub invalid_custody {ℓ} : {A : Type ℓ} → Build A
invalid_custody builder = Built.failed "bytecode.compile.invalid-checked-custody"

-- An element of a list of slots that checking has resolved.
unfoldable pub resolve {ℓ} : {A : Type ℓ} → Option A → Build A
unfolding invalid_custody
resolve none = invalid_custody
resolve (some slot) = pure slot

abbrev pub empty_context : CompileContext
empty_context = record { value_slots = []; resumption_slots = [] }

abbrev pub empty_builder : Builder
empty_builder = record { blocks = []; constants = []; instruction_count = 0; next_slot = 0 }

-- The graph whose blocks and constants the builder has.
abbrev pub graph_of : Built ℕ → String ⊎ InstructionGraph
graph_of (Built.failed code) = inl code
graph_of (Built.built entry_block builder) =
    inr
      (record { entry_block = entry_block; blocks = builder.blocks; constants = builder.constants })

module _ (bounds : KernelBytecodeBounds) where
  -- `constant`.
  unfoldable pub new_constant : Constant → Build ℕ
  new_constant c builder =
      if leb bounds.maximum_constants (length builder.constants)
      then Built.failed "bytecode.compile.constants-exceeded"
      else Built.built (length builder.constants)
          (record builder { constants = builder.constants ++ c ∷ [] })

  -- `block`.
  unfoldable pub new_block : Build ℕ
  new_block builder =
      if leb bounds.maximum_blocks (length builder.blocks)
      then Built.failed "bytecode.compile.blocks-exceeded"
      else Built.built (length builder.blocks)
          (record builder { blocks = builder.blocks ++ [] ∷ [] })

  unfoldable pub emit : ℕ → Instruction → Build (Unit {0})
  emit block instruction builder =
      if leb bounds.maximum_instructions builder.instruction_count
      then Built.failed "bytecode.compile.instructions-exceeded"
      else elim (get_elem? builder.blocks block) [
        | none ↦ Built.failed "bytecode.compile.invalid-block"
        | some instructions ↦ Built.built tt (record builder {
          blocks = push_at builder.blocks block instruction;
          instruction_count = builder.instruction_count + 1;
        })
      ]

  -- A new block with the code that `compile` emits and a `Return`.
  unfoldable pub closed_block : (ℕ → Build (Unit {0})) → Build ℕ
  unfolding ◌>>=◌ new_block emit
  closed_block compile = do
    block ← new_block
    compile block
    emit block Instruction.return
    pure block

  module _ (signature : OperationSignature) where
    unfoldable mutual
      unfolding ◌>>=◌ resolve new_slot new_constant emit closed_block invalid_custody

      pub compile_value : ℕ → ValueTerm ValueType → CompileContext → Build (Unit {0})
      compile_value block (ValueTerm.variable index) context = do
        slot ← resolve (get_elem? context.value_slots index)
        emit block (Instruction.load_slot slot)
      compile_value block ValueTerm.unit context = emit block Instruction.push_unit
      compile_value block (ValueTerm.bool b) context = do
        constant_slot ← new_constant (Constant.bool_constant b)
        emit block (Instruction.push_bool constant_slot)
      compile_value block (ValueTerm.int n) context = do
        constant_slot ← new_constant (Constant.int_constant n)
        emit block (Instruction.push_int constant_slot)
      compile_value block (ValueTerm.pair first second) context = do
        compile_value block first context
        compile_value block second context
        emit block Instruction.make_pair
      compile_value block (ValueTerm.thunk type body) context = do
        entry_block ← closed_block (λ inner. compile_computation inner body context)
        emit block
            (Instruction.make_thunk entry_block (context.value_slots ++ context.resumption_slots))
      compile_value block (ValueTerm.resumption index) context = invalid_custody

      pub compile_computation : ℕ → ComputationTerm ValueType → CompileContext → Build (Unit {0})
      compile_computation block (ComputationTerm.return grade v) context =
          compile_value block v context
      compile_computation block (ComputationTerm.let_in bound body) context = do
        compile_computation block bound context
        slot ← new_slot
        emit block (Instruction.bind_slot slot)
        compile_computation block body (record context { value_slots = slot ∷ context.value_slots })
      compile_computation block (ComputationTerm.force v) context = do
        compile_value block v context
        emit block Instruction.force
      compile_computation block (ComputationTerm.lambda type grade body) context = do
        parameter_slot ← new_slot
        entry_block ← closed_block (λ inner.
            compile_computation inner body
              (record context { value_slots = parameter_slot ∷ context.value_slots }))
        emit block (
            Instruction.make_function entry_block parameter_slot
              (context.value_slots ++ context.resumption_slots))
      compile_computation block (ComputationTerm.apply computation argument) context = do
        compile_computation block computation context
        compile_value block argument context
        emit block Instruction.call
      compile_computation block (ComputationTerm.operation grade label name argument) context = do
        compile_value block argument context
        declaration ← resolve (operation_declaration signature label name)
        label_constant_slot ← new_constant (Constant.text_constant label)
        operation_constant_slot ← new_constant (Constant.text_constant name)
        result_type_constant_slot ←
            new_constant
              (Constant.value_type_constant (observable_value_type declaration.result_type))
        emit block (
            Instruction.request label_constant_slot operation_constant_slot
              result_type_constant_slot)
      compile_computation block (ComputationTerm.handle label computation return_body clauses)
            context =
          do
            return_slot ← new_slot
            return_block ← closed_block (λ inner.
                compile_computation inner return_body
                  (record context { value_slots = return_slot ∷ context.value_slots }))
            compiled ← compile_clauses clauses context
            label_constant_slot ← new_constant (Constant.text_constant label)
            emit block
                (Instruction.enter_handler label_constant_slot return_block return_slot compiled)
            compile_computation block computation context
            emit block Instruction.leave_handler
      compile_computation block (ComputationTerm.resume index v) context = do
        resumption_slot ← resolve (get_elem? context.resumption_slots index)
        compile_value block v context
        emit block (Instruction.resume_slot resumption_slot)

      -- `term.operationClauses.map(…)`.
      pub compile_clauses : Clauses ValueType → CompileContext → Build (List HandlerClause)
      compile_clauses Clauses.clauses_end context = pure []
      compile_clauses (Clauses.clause name body rest) context = do
        argument_slot ← new_slot
        resumption_slot ← new_slot
        operation_constant_slot ← new_constant (Constant.text_constant name)
        entry_block ← closed_block (λ inner. compile_computation inner body (record {
          value_slots = argument_slot ∷ context.value_slots;
          resumption_slots = resumption_slot ∷ context.resumption_slots;
        }))
        compiled ← compile_clauses rest context
        pure (
            record {
              operation_constant_slot = operation_constant_slot;
              entry_block = entry_block;
              argument_slot = argument_slot;
              resumption_slot = resumption_slot;
            }
            ∷ compiled)

    -- `graph`, which reads the builder's lists when the entry block is closed.
    unfoldable pub compile_graph : ComputationTerm ValueType → String ⊎ InstructionGraph
    unfolding closed_block compile_computation
    compile_graph term =
        graph_of
          (closed_block (λ block. compile_computation block term empty_context) empty_builder)

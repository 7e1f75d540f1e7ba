-- ===== src/Bytecode/Graph.antt =====
-- src/kernel-bytecode/instruction.ts: instruction graphs whose references resolve.
use semantic_systems.Base.{
  ℕ, zero, suc, ◌+◌, ◌<◌, ◌≡◌, ◌≢◌, refl, Bool, List, [], ◌∷◌, ◌++◌, some, length, get_elem?, All,
  none-some,
}
use semantic_systems.Kernel.Row.{Text}
use semantic_systems.Kernel.Term.{Number}
use semantic_systems.Bytecode.Instruction.{
  ObservableValueType, HandlerClause, Instruction, Constant, InstructionGraph,
}

-- The instructions end with a `Return`.
abbrev pub IsClosed : List Instruction → Type 0
IsClosed [] = ⊥
IsClosed (i ∷ []) = i ≡ Instruction.return
IsClosed (i ∷ j ∷ rest) = IsClosed (j ∷ rest)

abbrev pub HasText : List Constant → ℕ → Type 0
HasText constants slot = (t : Text) × (get_elem? constants slot ≡ some (Constant.text_constant t))

abbrev pub ClauseResolves : ℕ → List Constant → HandlerClause → Type 0
ClauseResolves blocks constants clause =
    HasText constants clause.operation_constant_slot × (clause.entry_block < blocks)

-- The blocks and the constants that an instruction names are there, each constant of its kind.
abbrev pub Resolves : ℕ → List Constant → Instruction → Type 0
Resolves blocks constants (Instruction.push_bool slot) =
    (b : Bool) × (get_elem? constants slot ≡ some (Constant.bool_constant b))
Resolves blocks constants (Instruction.push_int slot) =
    (n : Number) × (get_elem? constants slot ≡ some (Constant.int_constant n))
Resolves blocks constants (Instruction.make_thunk entry_block slots) = entry_block < blocks
Resolves blocks constants (Instruction.make_function entry_block slot slots) = entry_block < blocks
Resolves blocks constants (Instruction.jump target_block) = target_block < blocks
Resolves blocks constants (Instruction.enter_handler label block slot clauses) =
    HasText constants label × (block < blocks) × All (ClauseResolves blocks constants) clauses
Resolves blocks constants (Instruction.request label operation type) =
    HasText constants label
    × HasText constants operation
    × ((t : ObservableValueType) × (get_elem? constants type
          ≡ some (Constant.value_type_constant t)))
Resolves blocks constants _ = Unit

-- Every block ends with a `Return`, and everything that its instructions name is there.
pub record WellFormed (graph : InstructionGraph) : Type 0 where
  pub entry : graph.entry_block < length graph.blocks
  pub blocks :
      (n : ℕ) (instructions : List Instruction)
      → get_elem? graph.blocks n ≡ some instructions
      → All (Resolves (length graph.blocks) graph.constants) instructions × IsClosed instructions

-- The number of instructions in the blocks.
abbrev pub instruction_total : List (List Instruction) → ℕ
instruction_total [] = 0
instruction_total (block ∷ blocks) = length block + instruction_total blocks

pub IsClosed-snoc : (xs : List Instruction) → IsClosed (xs ++ Instruction.return ∷ [])
IsClosed-snoc [] = refl
IsClosed-snoc (i ∷ []) = refl
IsClosed-snoc (i ∷ j ∷ rest) = IsClosed-snoc (j ∷ rest)

-- After an instruction that is not the `Return` at the end another one follows.
pub IsClosed-next :
    (xs : List Instruction) (n : ℕ) (i : Instruction)
    → IsClosed xs
    → get_elem? xs n ≡ some i
    → i ≢ Instruction.return
    → (j : Instruction) × (get_elem? xs (suc n) ≡ some j)
IsClosed-next [] n i closed e other = absurd closed
IsClosed-next (x ∷ []) zero i closed e other = absurd (other cc)
IsClosed-next (x ∷ []) (suc n) i closed e other = absurd (none-some e)
IsClosed-next (x ∷ y ∷ rest) zero i closed e other = (y, refl)
IsClosed-next (x ∷ y ∷ rest) (suc n) i closed e other = IsClosed-next (y ∷ rest) n i closed e other

pub IsClosed-first :
    (xs : List Instruction) → IsClosed xs → (i : Instruction) × (get_elem? xs 0 ≡ some i)
IsClosed-first [] closed = absurd closed
IsClosed-first (x ∷ []) closed = (x, refl)
IsClosed-first (x ∷ y ∷ rest) closed = (x, refl)

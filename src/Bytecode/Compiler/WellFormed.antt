-- ===== src/Bytecode/Compiler/WellFormed.antt =====
-- src/kernel-bytecode/compiler.ts: the graph of a term is well-formed and within its bounds.
use mathlib.Core.Path.{subst}
use semantic_systems.Base.{
  ℕ, ◌≤◌, ◌<◌, ◌≡◌, refl, ◌⊎◌, inl, inr, String, [], ◌∷◌, ◌++◌, arith, length, get_elem?, All,
  All-map, none-some,
}
use semantic_systems.Kernel.Types.{ValueType}
use semantic_systems.Kernel.Term.{ValueTerm, ComputationTerm, Clauses, OperationSignature}
use semantic_systems.Kernel.Signature.{operation_declaration}
use semantic_systems.Bytecode.Instruction.{
  Instruction, Constant, InstructionGraph, KernelBytecodeBounds,
}
use semantic_systems.Bytecode.Graph.{ClauseResolves, WellFormed, instruction_total}
use semantic_systems.Bytecode.Compiler.{
  CompileContext, Builder, Build, Built, observable_value_type, resolve, closed_block,
  compile_value, compile_computation, compile_clauses, empty_context, empty_builder, graph_of,
  compile_graph,
}
use semantic_systems.Bytecode.Compiler.Invariant.{
  Builds, Kept, Keeps, ◌⟫◌, Fine, ClauseResolves-Grows, pure-Keeps, new_slot-Keeps, resolve-Keeps,
  invalid_custody-Keeps, new_constant-Keeps,
}
use semantic_systems.Bytecode.Compiler.Invariant.Blocks.{emit-Keeps, closed_block-Keeps, AndOpen}

module _ (bounds : KernelBytecodeBounds) (signature : OperationSignature) where
  mutual
    unfolding compile_value compile_computation compile_clauses

    compile_value-Keeps :
        (is_open : ℕ → Type 0) (b : Builder) (block : ℕ) (term : ValueTerm ValueType)
        (context : CompileContext)
        → Builds bounds is_open b
        → is_open block
        → Keeps bounds is_open Fine b (compile_value bounds signature block term context)
    compile_value-Keeps is_open b block (ValueTerm.variable i) context h o =
        resolve-Keeps bounds is_open b h (get_elem? context.value_slots i) ⟫ λ slot c hc gc q.
        emit-Keeps bounds is_open c hc block (Instruction.load_slot slot) o tt
    compile_value-Keeps is_open b block ValueTerm.unit context h o =
        emit-Keeps bounds is_open b h block Instruction.push_unit o tt
    compile_value-Keeps is_open b block (ValueTerm.bool v) context h o =
        new_constant-Keeps bounds is_open b h (Constant.bool_constant v) ⟫ λ slot c hc gc q.
        emit-Keeps bounds is_open c hc block (Instruction.push_bool slot) o (v, q)
    compile_value-Keeps is_open b block (ValueTerm.int n) context h o =
        new_constant-Keeps bounds is_open b h (Constant.int_constant n) ⟫ λ slot c hc gc q.
        emit-Keeps bounds is_open c hc block (Instruction.push_int slot) o (n, q)
    compile_value-Keeps is_open b block (ValueTerm.pair first second) context h o =
        compile_value-Keeps is_open b block first context h o ⟫ λ t c hc gc q.
        compile_value-Keeps is_open c block second context hc o ⟫ λ t d hd gd r.
        emit-Keeps bounds is_open d hd block Instruction.make_pair o tt
    compile_value-Keeps is_open b block (ValueTerm.thunk type body) context h o =
        closed_block-Keeps bounds is_open b
          (λ inner. compile_computation bounds signature inner body context) h
          (λ n c hc. compile_computation-Keeps (AndOpen n is_open) c n body context hc (inl refl))
        ⟫ λ entry c hc gc lt.
            emit-Keeps bounds is_open c hc block
              (Instruction.make_thunk entry (context.value_slots ++ context.resumption_slots)) o lt
    compile_value-Keeps is_open b block (ValueTerm.resumption i) context h o =
        invalid_custody-Keeps bounds is_open b h

    compile_computation-Keeps :
        (is_open : ℕ → Type 0) (b : Builder) (block : ℕ) (term : ComputationTerm ValueType)
        (context : CompileContext)
        → Builds bounds is_open b
        → is_open block
        → Keeps bounds is_open Fine b (compile_computation bounds signature block term context)
    compile_computation-Keeps is_open b block (ComputationTerm.return grade v) context h o =
        compile_value-Keeps is_open b block v context h o
    compile_computation-Keeps is_open b block (ComputationTerm.let_in bound body) context h o =
        compile_computation-Keeps is_open b block bound context h o ⟫ λ t c hc gc q.
        new_slot-Keeps bounds is_open c hc ⟫ λ slot d hd gd r.
        emit-Keeps bounds is_open d hd block (Instruction.bind_slot slot) o tt ⟫ λ t e he ge s.
        compile_computation-Keeps is_open e block body
          (record context { value_slots = slot ∷ context.value_slots }) he o
    compile_computation-Keeps is_open b block (ComputationTerm.force v) context h o =
        compile_value-Keeps is_open b block v context h o ⟫ λ t c hc gc q.
        emit-Keeps bounds is_open c hc block Instruction.force o tt
    compile_computation-Keeps is_open b block (ComputationTerm.lambda type grade body) context h o =
        new_slot-Keeps bounds is_open b h ⟫ λ slot c hc gc q.
        closed_block-Keeps bounds is_open c
          (λ inner.
            compile_computation bounds signature inner body
              (record context { value_slots = slot ∷ context.value_slots }))
          hc
          (λ n d hd.
            compile_computation-Keeps (AndOpen n is_open) d n body
              (record context { value_slots = slot ∷ context.value_slots }) hd (inl refl))
        ⟫ λ entry d hd gd lt.
            emit-Keeps bounds is_open d hd block
              (Instruction.make_function entry slot
                (context.value_slots ++ context.resumption_slots))
              o lt
    compile_computation-Keeps is_open b block (ComputationTerm.apply m v) context h o =
        compile_computation-Keeps is_open b block m context h o ⟫ λ t c hc gc q.
        compile_value-Keeps is_open c block v context hc o ⟫ λ t d hd gd r.
        emit-Keeps bounds is_open d hd block Instruction.call o tt
    compile_computation-Keeps is_open b block (ComputationTerm.operation grade label name v) context
          h o =
        compile_value-Keeps is_open b block v context h o ⟫ λ t c hc gc q.
        resolve-Keeps bounds is_open c hc (operation_declaration signature label name)
        ⟫ λ declaration d hd gd r.
            new_constant-Keeps bounds is_open d hd (Constant.text_constant label)
            ⟫ λ l e he ge at_l.
                new_constant-Keeps bounds is_open e he (Constant.text_constant name)
                ⟫ λ n f hf gf at_n.
                    new_constant-Keeps bounds is_open f hf
                      (Constant.value_type_constant (observable_value_type declaration.result_type))
                    ⟫ λ t k hk gk at_t.
                        emit-Keeps bounds is_open k hk block (Instruction.request l n t) o (
                          (label, gk.constants l _ (gf.constants l _ at_l)),
                          (name, gk.constants n _ at_n),
                          (_, at_t),
                        )
    compile_computation-Keeps is_open b block (ComputationTerm.handle label m r clauses) context h
          o =
        new_slot-Keeps bounds is_open b h ⟫ λ slot c hc gc q.
        closed_block-Keeps bounds is_open c
          (λ inner.
            compile_computation bounds signature inner r
              (record context { value_slots = slot ∷ context.value_slots }))
          hc
          (λ n d hd.
            compile_computation-Keeps (AndOpen n is_open) d n r
              (record context { value_slots = slot ∷ context.value_slots }) hd (inl refl))
        ⟫ λ entry d hd gd lt.
            compile_clauses-Keeps is_open d clauses context hd ⟫ λ compiled e he ge cs.
            new_constant-Keeps bounds is_open e he (Constant.text_constant label)
            ⟫ λ l f hf gf at_l.
                emit-Keeps bounds is_open f hf block
                  (Instruction.enter_handler l entry slot compiled) o
                  (
                    (label, at_l),
                    omega (arith, ge.blocks, gf.blocks, lt),
                    All-map _ _ compiled (ClauseResolves-Grows e f gf) cs,
                  )
                ⟫ λ t k hk gk s.
                    compile_computation-Keeps is_open k block m context hk o ⟫ λ t j hj gj s.
                    emit-Keeps bounds is_open j hj block Instruction.leave_handler o tt
    compile_computation-Keeps is_open b block (ComputationTerm.resume i v) context h o =
        resolve-Keeps bounds is_open b h (get_elem? context.resumption_slots i) ⟫ λ slot c hc gc q.
        compile_value-Keeps is_open c block v context hc o ⟫ λ t d hd gd r.
        emit-Keeps bounds is_open d hd block (Instruction.resume_slot slot) o tt

    compile_clauses-Keeps :
        (is_open : ℕ → Type 0) (b : Builder) (clauses : Clauses ValueType)
        (context : CompileContext)
        → Builds bounds is_open b
        → Keeps bounds is_open
            (λ compiled after. All (ClauseResolves (length after.blocks) after.constants) compiled)
            b
            (compile_clauses bounds signature clauses context)
    compile_clauses-Keeps is_open b Clauses.clauses_end context h =
        pure-Keeps bounds is_open b h [] tt
    compile_clauses-Keeps is_open b (Clauses.clause name body rest) context h =
        new_slot-Keeps bounds is_open b h ⟫ λ argument c hc gc q.
        new_slot-Keeps bounds is_open c hc ⟫ λ resumption d hd gd r.
        new_constant-Keeps bounds is_open d hd (Constant.text_constant name)
        ⟫ λ operation e he ge at_name.
            closed_block-Keeps bounds is_open e
              (λ inner. compile_computation bounds signature inner body (record {
                value_slots = argument ∷ context.value_slots;
                resumption_slots = resumption ∷ context.resumption_slots;
              }))
              he
              (λ n f hf.
                compile_computation-Keeps (AndOpen n is_open) f n body
                  (record {
                    value_slots = argument ∷ context.value_slots;
                    resumption_slots = resumption ∷ context.resumption_slots;
                  })
                  hf (inl refl))
            ⟫ λ entry f hf gf lt.
                compile_clauses-Keeps is_open f rest context hf ⟫ λ compiled k hk gk cs.
                pure-Keeps bounds is_open k hk
                  (record {
                    operation_constant_slot = operation;
                    entry_block = entry;
                    argument_slot = argument;
                    resumption_slot = resumption;
                  }
                    ∷ compiled)
                  (
                    (
                      (name, gk.constants operation _ (gf.constants operation _ at_name)),
                      omega (arith, gk.blocks, lt),
                    ),
                    cs,
                  )

-- The graph is well-formed, and has no more instructions, blocks and constants than its bounds.
pub record Fits (bounds : KernelBytecodeBounds) (graph : InstructionGraph) : Type 0 where
  pub well_formed : WellFormed graph
  pub instructions : instruction_total graph.blocks ≤ bounds.maximum_instructions
  pub blocks : length graph.blocks ≤ bounds.maximum_blocks
  pub constants : length graph.constants ≤ bounds.maximum_constants

result_of :
    {bounds : KernelBytecodeBounds} {is_open : ℕ → Type 0} {Q : ℕ → Builder → Type 0} {b : Builder}
    {act : Build ℕ}
    → Keeps bounds is_open Q b act
    → Kept bounds is_open Q b (act b)
result_of (Keeps.keeps k) = k

abbrev IfGraph : (InstructionGraph → Type 0) → String ⊎ InstructionGraph → Type 0
IfGraph P (inl code) = Unit
IfGraph P (inr graph) = P graph

-- The graph of a builder in which no block is open.
Kept-Fits :
    (bounds : KernelBytecodeBounds) (r : Built ℕ)
    → Kept bounds (λ n. ⊥) (λ n after. n < length after.blocks) empty_builder r
    → IfGraph (Fits bounds) (graph_of r)
Kept-Fits bounds (Built.failed code) k = tt
Kept-Fits bounds (Built.built entry builder) (Kept.kept h g lt) = record {
  well_formed = record {
    entry = lt;
    blocks = λ n is found.
        let (resolve, closed) = h.blocks n is found in
        (resolve, elim closed [ inl is_open ↦ absurd is_open | inr c ↦ c ]);
  };
  instructions = omega (arith, h.counted, h.instruction_room);
  blocks = h.block_room;
  constants = h.constant_room;
}

-- A graph that the compiler makes, of whatever term, is well-formed: every block ends with a
-- `Return` and every block and constant that an instruction names is there, the constant of the
-- right kind; and the graph has no more instructions, blocks and constants than the bounds allow.
pub compile_graph-Fits :
    (bounds : KernelBytecodeBounds) (signature : OperationSignature)
    (term : ComputationTerm ValueType) (graph : InstructionGraph)
    → compile_graph bounds signature term ≡ inr graph
    → Fits bounds graph
unfolding compile_graph
compile_graph-Fits bounds signature term graph e =
    let start : Builds bounds (λ n. ⊥) empty_builder = record {
      blocks = λ n is found. absurd (none-some found);
      counted = refl;
      instruction_room = omega arith;
      block_room = omega arith;
      constant_room = omega arith;
    } in
    subst (IfGraph (Fits bounds)) e (
      Kept-Fits bounds
        (closed_block bounds
          (λ block. compile_computation bounds signature block term empty_context) empty_builder)
        (result_of (
          closed_block-Keeps bounds (λ n. ⊥) empty_builder
            (λ block. compile_computation bounds signature block term empty_context) start
            (λ n c hc.
              compile_computation-Keeps bounds signature (AndOpen n (λ m. ⊥)) c n term empty_context
                hc (inl refl)))))

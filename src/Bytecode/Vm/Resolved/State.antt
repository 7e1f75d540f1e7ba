-- ===== src/Bytecode/Vm/Resolved/State.antt =====
-- src/kernel-bytecode/vm.ts: machines whose references to a graph resolve.
use mathlib.Core.Path.{subst}
use semantic_systems.Base.{
  ℕ, ◌≤◌, ◌<◌, ◌≡◌, refl, sym, Bool, true, false, List, [], ◌∷◌, some, arith, length, get_elem?,
  find, All, Bool-cases, Option-cases, inl, inr, some-injective, none-some, get_elem?-length, ltb,
  ◌==◌, ◌^◌, String,
}
use semantic_systems.Kernel.Row.{Text, text_eq}
use semantic_systems.Bytecode.Instruction.{HandlerClause, Instruction, Constant, InstructionGraph}
use semantic_systems.Bytecode.Graph.{HasText, ClauseResolves}
use semantic_systems.Bytecode.Vm.State.{
  FrameClause, RuntimeValue, RuntimeResult, RuntimeBinding, Locals, Operands, ReturnFrame,
  HandlerFrame, Frame, Frames, InternalResumption, Machine, append_frames, get_local, set_local,
  capture_onto, captured_locals, constant_at, text_of_constant, text_constant_at, text_clauses,
  handler_label, Split, push_captured, find_handler,
}
use semantic_systems.Bytecode.Vm.Step.{BytecodeVmError, InternalResult, StepResult}
use semantic_systems.Bytecode.Vm.Run.{instruction_at}
use Prim.Native.String.{compare}
use Prim.Native.Nat.{Ordering}

-- The code of a failure that is the graph's fault.
abbrev pub blames_graph : String → Bool
blames_graph code = elim (compare code "bytecode.vm.invalid-program-counter") [
  | Ordering.eq ↦ true
  | _ ↦ elim (compare code "bytecode.vm.invalid-constant") [ Ordering.eq ↦ true | _ ↦ false ]
]

-- There is an instruction at the place.
abbrev pub IsPoint : InstructionGraph → ℕ → ℕ → Type 0
IsPoint graph block counter = (i : Instruction) × (instruction_at graph block counter ≡ some i)

-- The blocks that the parts of a machine refer to are blocks of the graph, and the places that it
-- returns to are places of it.
module _ (graph : InstructionGraph) where
  abbrev pub FrameClauseResolves : FrameClause → Type 0
  FrameClauseResolves clause = clause.entry_block < length graph.blocks

  abbrev mutual
    pub ValueResolves : RuntimeValue → Type 0
    ValueResolves RuntimeValue.unit = Unit
    ValueResolves (RuntimeValue.bool b) = Unit
    ValueResolves (RuntimeValue.int n) = Unit
    ValueResolves (RuntimeValue.pair v w) = ValueResolves v × ValueResolves w
    ValueResolves (RuntimeValue.thunk entry locals) =
        (entry < length graph.blocks) × LocalsResolve locals

    pub ResultResolves : RuntimeResult → Type 0
    ResultResolves (RuntimeResult.value v) = ValueResolves v
    ResultResolves (RuntimeResult.function entry slot locals) =
        (entry < length graph.blocks) × LocalsResolve locals

    pub BindingResolves : RuntimeBinding → Type 0
    BindingResolves (RuntimeBinding.bound v) = ValueResolves v
    BindingResolves (RuntimeBinding.token t) = TokenResolves t

    pub LocalsResolve : Locals → Type 0
    LocalsResolve Locals.locals_end = Unit
    LocalsResolve (Locals.local slot b rest) = BindingResolves b × LocalsResolve rest

    pub OperandsResolve : Operands → Type 0
    OperandsResolve Operands.operands_end = Unit
    OperandsResolve (Operands.operand r rest) = ResultResolves r × OperandsResolve rest

    pub ReturnResolves : ReturnFrame → Type 0
    ReturnResolves (ReturnFrame.return_frame block counter locals operands) =
        IsPoint graph block counter × LocalsResolve locals × OperandsResolve operands

    pub HandlerResolves : HandlerFrame → Type 0
    HandlerResolves (HandlerFrame.handler_frame label block slot clauses locals operands) =
        (block < length graph.blocks)
        × All FrameClauseResolves clauses
        × LocalsResolve locals
        × OperandsResolve operands

    pub FrameResolves : Frame → Type 0
    FrameResolves (Frame.return r) = ReturnResolves r
    FrameResolves (Frame.handler h) = HandlerResolves h

    pub FramesResolve : Frames → Type 0
    FramesResolve Frames.frames_end = Unit
    FramesResolve (Frames.frame f rest) = FrameResolves f × FramesResolve rest

    pub TokenResolves : InternalResumption → Type 0
    TokenResolves (InternalResumption.resumption id type continuation handler captured) =
        ReturnResolves continuation × HandlerResolves handler × FramesResolve captured

  pub record MachineResolves (machine : Machine) : Type 0 where
    pub point : IsPoint graph machine.block machine.program_counter
    pub locals : LocalsResolve machine.locals
    pub operands : OperandsResolve machine.operand_stack
    pub frames : FramesResolve machine.continuation_stack

  -- A result that is not a failure for which the graph is to blame.
  abbrev pub ResultBlameless : InternalResult → Type 0
  ResultBlameless (InternalResult.returned v) = Unit
  ResultBlameless (InternalResult.suspended q token) =
      (token.graph ≡ graph) × MachineResolves token.machine
  ResultBlameless (InternalResult.failed (BytecodeVmError.vm_failure code)) =
      blames_graph code ≡ false
  ResultBlameless (InternalResult.failed (BytecodeVmError.vm_inconclusive reason)) = Unit

  abbrev pub StepBlameless : StepResult → Type 0
  StepBlameless (StepResult.next machine store) = MachineResolves machine
  StepBlameless (StepResult.stop result store) = ResultBlameless result

  pub get_local-BindingResolves :
      (locals : Locals) (slot : ℕ) (b : RuntimeBinding)
      → LocalsResolve locals
      → get_local locals slot ≡ some b
      → BindingResolves b
  unfolding get_local
  get_local-BindingResolves Locals.locals_end slot b h e = absurd (none-some e)
  get_local-BindingResolves (Locals.local key c rest) slot b (h, hs) e =
      elim (Bool-cases (key == slot)) [
        | inl here ↦ subst BindingResolves (some-injective (rw here at e)) h
        | inr there ↦ get_local-BindingResolves rest slot b hs (rw there at e)
      ]

  capture_onto-LocalsResolve :
      (captured : Locals) (slots : List ℕ) (locals found : Locals)
      → LocalsResolve captured
      → LocalsResolve locals
      → capture_onto captured slots locals ≡ some found
      → LocalsResolve found
  unfolding capture_onto
  capture_onto-LocalsResolve captured [] locals found c h e =
      subst LocalsResolve (some-injective e) c
  capture_onto-LocalsResolve captured (slot ∷ slots) locals found c h e =
      elim (Option-cases (get_local locals slot)) [
        | inl out ↦ absurd (none-some (rw (capture_onto, out) at e))
        | inr (b, here) ↦
            capture_onto-LocalsResolve (set_local slot b captured) slots locals found
              (get_local-BindingResolves locals slot b h here, c) h (rw (capture_onto, here) at e)
      ]

  pub captured_locals-LocalsResolve :
      (slots : List ℕ) (locals found : Locals)
      → LocalsResolve locals
      → captured_locals slots locals ≡ some found
      → LocalsResolve found
  unfolding captured_locals
  captured_locals-LocalsResolve slots locals found h e =
      capture_onto-LocalsResolve Locals.locals_end slots locals found tt h e

  pub append_frames-FramesResolve :
      (upper lower : Frames)
      → FramesResolve upper
      → FramesResolve lower
      → FramesResolve (append_frames upper lower)
  unfolding append_frames
  append_frames-FramesResolve Frames.frames_end lower h k = k
  append_frames-FramesResolve (Frames.frame f upper) lower (h, hs) k =
      (h, append_frames-FramesResolve upper lower hs k)

  pub find_handler-Resolves :
      (label : Text) (frames : Frames) (s : Split)
      → FramesResolve frames
      → find_handler label frames ≡ some s
      → FramesResolve s.captured × HandlerResolves s.handler × FramesResolve s.outer
  unfolding find_handler push_captured
  find_handler-Resolves label Frames.frames_end s h e = absurd (none-some e)
  find_handler-Resolves label (Frames.frame (Frame.return r) outer) s (h, hs) e =
      elim (Option-cases (find_handler label outer)) [
        | inl out ↦ absurd (none-some (rw out at e))
        | inr (below, found) ↦
            let (c, k, o) = find_handler-Resolves label outer below hs found in
            rw (sym (some-injective (rw found at e))) ((h, c), k, o)
      ]
  find_handler-Resolves label (Frames.frame (Frame.handler k) outer) s (h, hs) e =
      elim (Bool-cases (text_eq (handler_label k) label)) [
        | inl here ↦ rw (sym (some-injective (rw here at e))) (tt, h, hs)
        | inr there ↦ elim (Option-cases (find_handler label outer)) [
          | inl out ↦ absurd (none-some (rw (there, out) at e))
          | inr (below, found) ↦
              let (c, k', o) = find_handler-Resolves label outer below hs found in
              rw (sym (some-injective (rw (there, found) at e))) ((h, c), k', o)
        ]
      ]

  pub find-FrameClauseResolves :
      (p : FrameClause → Bool) (clauses : List FrameClause) (c : FrameClause)
      → All FrameClauseResolves clauses
      → find p clauses ≡ some c
      → FrameClauseResolves c
  unfolding find
  find-FrameClauseResolves p [] c h e = absurd (none-some e)
  find-FrameClauseResolves p (x ∷ clauses) c (h, hs) e = elim (Bool-cases (p x)) [
    | inl here ↦ subst FrameClauseResolves (some-injective (rw here at e)) h
    | inr there ↦ find-FrameClauseResolves p clauses c hs (rw there at e)
  ]

  module _ (small : length graph.constants ≤ 2 ^ 53) where
    pub constant_at_lem :
        (slot : ℕ) (c : Constant)
        → get_elem? graph.constants slot ≡ some c
        → constant_at graph slot ≡ some c
    unfolding constant_at
    constant_at_lem slot c e =
        let lt = get_elem?-length graph.constants slot c e in
        let inside : ltb slot (2 ^ 53) ≡ true = ground arith in rw inside e

    pub text_constant_at_lem :
        (slot : ℕ)
        → HasText graph.constants slot
        → (t : Text) × (text_constant_at graph slot ≡ some t)
    unfolding text_constant_at text_of_constant
    text_constant_at_lem slot (t, e) = (t, rw (constant_at_lem slot _ e) refl)

    pub text_clauses-FrameClauseResolves :
        (clauses : List HandlerClause)
        → All (ClauseResolves (length graph.blocks) graph.constants) clauses
        → (found : List FrameClause) × ((text_clauses graph clauses ≡ some found)
            × All FrameClauseResolves found)
    unfolding text_clauses
    text_clauses-FrameClauseResolves [] h = ([], (refl, tt))
    text_clauses-FrameClauseResolves (c ∷ clauses) ((text, lt), hs) =
        let (t, e) = text_constant_at_lem c.operation_constant_slot text in
        let (found, (e', r)) = text_clauses-FrameClauseResolves clauses hs in
        (
          record {
            operation = t;
            entry_block = c.entry_block;
            argument_slot = c.argument_slot;
            resumption_slot = c.resumption_slot;
          }
              ∷ found,
          (rw (text_clauses, e, e') refl, (lt, r)),
        )

-- ===== src/Kernel/Machine/OneShot.antt =====
-- src/kernel-calculus/machine.ts: what it is that a trace uses each resumption token at most once.
pub mod Step
pub mod Run
use Prim.Native.String.{compare}
use Prim.Native.Nat.{Ordering}
use mathlib.Core.Path.{subst}
use semantic_systems.Base.{
  ℕ, zero, suc, ◌+◌, ◌≤◌, ◌<◌, ◌≡◌, ◌≢◌, ◌⊎◌, refl, sym, ◌∙◌, ap, Bool, true, false, String, List,
  [], ◌∷◌, ◌++◌, Option, none, some, some-injective, arith, length, leb, Bool-cases, inl, inr,
  if◌then◌else◌, All, get_elem?, ◌==◌,
}
use semantic_systems.Kernel.Row.{Text}
use semantic_systems.Kernel.Types.{ValueType}
use semantic_systems.Kernel.Term.{ValueTerm, ComputationTerm, Clauses, OperationDeclaration}
use semantic_systems.Kernel.Diagnostic.{TermPath}
use semantic_systems.Kernel.Signature.{operation_declaration}
use semantic_systems.Kernel.Typing.{find_clause}
use semantic_systems.Kernel.Checker.{Accepted}
use semantic_systems.Kernel.Machine.{
  RuntimeValue, Environment, InternalResumption, HandlerFrame, Frame, Frames, RuntimeResult,
  Control, Machine, Outcome, Transition, evaluate_value, get_token, runtime_value_has_type, Split,
  find_handler, handler_clauses, is_live, consume, enter_function, return_to, result_step,
  return_step, force_step, suspend, enter_clause, perform, operation_step, use_token, resume_step,
  term_step, step_control, transition, MachineTraceEntry, Trace, EvaluationBounds, EvaluationResult,
  entry_of, run_loop, bound_of, run_within, run_machine, initial_machine, evaluate,
}
use semantic_systems.Kernel.Machine.Bounds.{trace_of, after, extended, run_loop-suc}
use semantic_systems.Kernel.Machine.Resume.Laws.{is_live-consume}

-- `rule === "resumption.consume"`.
abbrev pub is_consume : String → Bool
is_consume rule = elim (compare rule "resumption.consume") [ Ordering.eq ↦ true | _ ↦ false ]

-- The entry is the use of the token `id`.
abbrev pub Consumes : ℕ → MachineTraceEntry → Type 0
Consumes id e = (is_consume e.rule ≡ true) × (e.resumption ≡ some id)

abbrev pub Unused : ℕ → Trace → Type 0
Unused id trace = All (λ e. ¬ Consumes id e) trace

-- After the use of a token there is no other.
abbrev pub IsOneShot : Trace → Type 0
IsOneShot [] = Unit
IsOneShot (e ∷ trace) = ((id : ℕ) → Consumes id e → Unused id trace) × IsOneShot trace

pub Unused-snoc :
    (id : ℕ) (trace : Trace) (e : MachineTraceEntry)
    → Unused id trace
    → ¬ Consumes id e
    → Unused id (trace ++ e ∷ [])
Unused-snoc id [] e u h = (h, tt)
Unused-snoc id (d ∷ trace) e (u, us) h = (u, Unused-snoc id trace e us h)

pub IsOneShot-snoc :
    (trace : Trace) (e : MachineTraceEntry)
    → IsOneShot trace
    → ((id : ℕ) → Consumes id e → Unused id trace)
    → IsOneShot (trace ++ e ∷ [])
IsOneShot-snoc [] e o h = (λ id c. tt, tt)
IsOneShot-snoc (d ∷ trace) e (o, os) h = (
  λ id c. Unused-snoc id trace e (o id c) (λ c'. (h id c').0 c),
  IsOneShot-snoc trace e os (λ id c. (h id c).1),
)

Unused-at :
    (id : ℕ) (trace : Trace) (j : ℕ) (d : MachineTraceEntry)
    → Unused id trace
    → get_elem? trace j ≡ some d
    → ¬ Consumes id d
Unused-at id [] j d u h = absurd (cc)
Unused-at id (e ∷ trace) zero d (u, us) h = subst (λ y. ¬ Consumes id y) (some-injective h) u
Unused-at id (e ∷ trace) (suc j) d (u, us) h = Unused-at id trace j d us h

pub IsOneShot-at :
    (trace : Trace) (i j id : ℕ) (e d : MachineTraceEntry)
    → IsOneShot trace
    → i < j
    → get_elem? trace i ≡ some e
    → get_elem? trace j ≡ some d
    → Consumes id e
    → ¬ Consumes id d
IsOneShot-at [] i j id e d o lt p q c = absurd (cc)
IsOneShot-at (x ∷ trace) zero zero id e d o lt p q c = absurd (omega arith)
IsOneShot-at (x ∷ trace) zero (suc j) id e d (o, os) lt p q c =
    Unused-at id trace j d (o id (subst (Consumes id) (sym (some-injective p)) c)) q
IsOneShot-at (x ∷ trace) (suc i) zero id e d o lt p q c = absurd (omega arith)
IsOneShot-at (x ∷ trace) (suc i) (suc j) id e d (o, os) lt p q c =
    IsOneShot-at trace i j id e d os (omega arith) p q c

-- The token is live, or is one that the machine has not made yet.
abbrev pub IsAvailable : ℕ → Machine → Type 0
IsAvailable id machine = (is_live id machine.live ≡ true) ⊎ (machine.next_identity ≤ id)

-- The live tokens are made.
abbrev pub LiveBelow : Machine → Type 0
LiveBelow machine = (id : ℕ) → is_live id machine.live ≡ true → id < machine.next_identity

-- No token that is available was used in the trace.
pub record Invariant (machine : Machine) (trace : Trace) : Type 0 where
  pub below : LiveBelow machine
  pub one_shot : IsOneShot trace
  pub unused : (id : ℕ) → IsAvailable id machine → Unused id trace

-- ===== src/Kernel/Machine/Safety.antt =====
-- Type safety of the machine: a step of a typed machine is safe.
pub mod Run
use mathlib.Core.Path.{subst}
use semantic_systems.Base.{
  ℕ, zero, suc, ◌+◌, ◌≡◌, refl, sym, ◌∙◌, ap, Bool, true, false, ◌&&◌, List, [], ◌∷◌, Option, none,
  some, arith, get_elem?, Bool-cases, Option-cases, inl, inr, if◌then◌else◌,
}
use semantic_systems.Kernel.Grade.{Grade}
use semantic_systems.Kernel.Row.{Text, EffectRow}
use semantic_systems.Kernel.Types.{ValueType, ComputationType}
use semantic_systems.Kernel.Term.{
  ValueTerm, ComputationTerm, Clauses, OperationDeclaration, OperationSignature,
}
use semantic_systems.Kernel.Diagnostic.{TermPath}
use semantic_systems.Kernel.Signature.{operation_declaration}
use semantic_systems.Kernel.Checker.{Context, Resumptions, ResumptionExpectation}
use semantic_systems.Kernel.Typing.{
  find_clause, Covers, ValueTyping, ComputationTyping, ClausesTyping,
}
use semantic_systems.Kernel.Machine.{
  RuntimeValue, Environment, Values, Tokens, InternalResumption, HandlerFrame, Frame, Frames,
  RuntimeResult, Control, Machine, OperationRequest, ExternalSuspension, Outcome, Transition,
  evaluate_value, Split, find_handler, handler_label, is_live, consume, enter_function, return_to,
  result_step, return_step, force_step, suspend, enter_clause, perform, operation_step, use_token,
  resume_step, term_step, step_control, transition,
}
use semantic_systems.Kernel.Machine.Typing.{
  HasType, EnvironmentTyping, TokensTyping, TokenTyping, HandlerTyping, StackTyping, ResultTyping,
  ControlTyping, MachineTyping, SuspensionTyping, IsSafe,
}
use semantic_systems.Kernel.Machine.Parts.{
  get_token_typed, evaluate_value_typed, runtime_value_has_type_typed, append_frames_typed,
  bind_value_typed, bind_token_typed, SplitTyping, find_handler_typed, handler_clause_typed,
}

module _ {sig : OperationSignature} {d : ComputationType} (machine : Machine)
    (same : machine.signature ≡ sig) where
  return_to-IsSafe :
      {f : Frame} {r : RuntimeResult} {outer : Frames} {b : ComputationType}
      → ResultTyping sig r b
      → StackTyping sig (Frames.frame f outer) b d
      → IsSafe sig d (return_to f r outer machine).outcome
  unfolding return_to enter_function
  return_to-IsSafe (ResultTyping.value h) (StackTyping.let_frame env m st) = record {
    same_signature = same;
    type = _;
    control = ControlTyping.term (bind_value_typed h env) m;
    stack = st;
  }
  return_to-IsSafe (ResultTyping.function env m) (StackTyping.apply_frame env' v st) =
      let (w, p, h) = evaluate_value_typed env' v in
      rw p (record {
        same_signature = same;
        type = _;
        control = ControlTyping.term (bind_value_typed h env) m;
        stack = st;
      })
  return_to-IsSafe (ResultTyping.value h)
        (StackTyping.handler_frame (HandlerTyping.handler env r cs cov) st) =
      record {
        same_signature = same;
        type = _;
        control = ControlTyping.term (bind_value_typed h env) r;
        stack = st;
      }
  return_to-IsSafe (ResultTyping.function env m) (StackTyping.handler_frame h st) = elim h [ ]

  result_step-IsSafe :
      {r : RuntimeResult} {b : ComputationType} (path : TermPath) (fs : Frames)
      → ResultTyping sig r b
      → StackTyping sig fs b d
      → IsSafe sig d (result_step r path fs machine).outcome
  unfolding result_step
  result_step-IsSafe {r} path Frames.frames_end h (StackTyping.frames_end e) =
      subst (ResultTyping sig r) e h
  result_step-IsSafe path (Frames.frame f outer) h st = return_to-IsSafe h st

  suspend-IsSafe :
      {g : Grade} (label name : Text) (v : RuntimeValue) (decl : OperationDeclaration)
      (path : TermPath)
      → operation_declaration sig label name ≡ some decl
      → HasType sig v decl.argument_type
      → StackTyping sig machine.frames (ComputationType.return g decl.result_type) d
      → IsSafe sig d (suspend label name v decl path machine).outcome
  unfolding suspend
  suspend-IsSafe label name v decl path declared h st = record {
    declaration = decl;
    declared = declared;
    argument = h;
    result_type = refl;
    goes_on = λ w hw. record {
      same_signature = same;
      type = _;
      control = ControlTyping.result (ResultTyping.value hw);
      stack = st;
    };
  }

  perform-IsSafe :
      {g : Grade} (s : Split) (label name : Text) (v : RuntimeValue) (decl : OperationDeclaration)
      (path : TermPath)
      → SplitTyping sig label s (ComputationType.return g decl.result_type) d
      → operation_declaration sig label name ≡ some decl
      → HasType sig v decl.argument_type
      → IsSafe sig d (perform (some s) label name v decl path machine).outcome
  unfolding perform enter_clause
  perform-IsSafe s label name v decl path split declared h =
      let clause =
        handler_clause_typed name decl split.handles
          (ap (λ l. operation_declaration sig l name) split.same_label ∙ declared) in
      rw clause.found (record {
        same_signature = same;
        type = split.out;
        control =
            ControlTyping.term
              (bind_token_typed (TokenTyping.resumption split.above split.handles)
                (bind_value_typed h clause.env))
              clause.typed;
        stack = split.below;
      })

  use_token-IsSafe :
      {a : ValueType} {c : ComputationType} (t : InternalResumption) (v : RuntimeValue)
      (path : TermPath)
      → TokenTyping sig t a c
      → HasType sig v a
      → StackTyping sig machine.frames c d
      → IsSafe sig d (use_token t v path machine).outcome
  unfolding use_token
  use_token-IsSafe (InternalResumption.resumption id a h captured) v path
        (TokenTyping.resumption up dh) hv st =
      rw (runtime_value_has_type_typed hv) (elim (Bool-cases (is_live id machine.live)) [
        | inl live ↦ rw live (record {
          same_signature = same;
          type = _;
          control = ControlTyping.result (ResultTyping.value hv);
          stack = append_frames_typed up (StackTyping.handler_frame dh st);
        })
        | inr used ↦ rw used refl
      ])

  force_step-IsSafe :
      {v : RuntimeValue} {e : EffectRow} {c : ComputationType} (path : TermPath)
      → HasType sig v (ValueType.thunk e c)
      → StackTyping sig machine.frames c d
      → IsSafe sig d (force_step (some v) path machine).outcome
  unfolding force_step
  force_step-IsSafe path (HasType.thunk env dm) st = record {
    same_signature = same;
    type = _;
    control = ControlTyping.term env dm;
    stack = st;
  }

  -- A typed term makes a safe step.
  term_step-IsSafe :
      {m : ComputationTerm ValueType} {env : Environment} {Γ : Context} {R : Resumptions}
      {c : ComputationType} (path : TermPath)
      → EnvironmentTyping sig env Γ R
      → ComputationTyping sig Γ R m c
      → StackTyping sig machine.frames c d
      → IsSafe sig d (term_step m env path machine).outcome
  unfolding term_step return_step force_step operation_step resume_step perform
  term_step-IsSafe path env (ComputationTyping.return dv) st =
      let (v, p, h) = evaluate_value_typed env dv in
      rw p (record {
        same_signature = same;
        type = _;
        control = ControlTyping.result (ResultTyping.value h);
        stack = st;
      })
  term_step-IsSafe path env (ComputationTyping.let_in dm dn) st = record {
    same_signature = same;
    type = _;
    control = ControlTyping.term env dm;
    stack = StackTyping.let_frame env dn st;
  }
  term_step-IsSafe path env (ComputationTyping.force dv) st =
      let (v, p, h) = evaluate_value_typed env dv in rw p (force_step-IsSafe path h st)
  term_step-IsSafe path env (ComputationTyping.lambda dm) st = record {
    same_signature = same;
    type = _;
    control = ControlTyping.result (ResultTyping.function env dm);
    stack = st;
  }
  term_step-IsSafe path env (ComputationTyping.apply dm dv) st = record {
    same_signature = same;
    type = _;
    control = ControlTyping.term env dm;
    stack = StackTyping.apply_frame env dv st;
  }
  term_step-IsSafe path env (ComputationTyping.operation {g} {label} {name} decl declared dv e) st =
      let (v, p, h) = evaluate_value_typed env dv in
      rw (p, ap (λ s. operation_declaration s label name) same ∙ declared)
        (elim (Option-cases (find_handler label machine.frames)) [
          | inl outside ↦ rw outside (
              suspend-IsSafe label name v decl path declared h
                (subst (λ b. StackTyping sig machine.frames (ComputationType.return g b) d) e st))
          | inr (s, inside) ↦ rw inside (
              perform-IsSafe s label name v decl path
                (find_handler_typed label s
                  (subst (λ b. StackTyping sig machine.frames (ComputationType.return g b) d) e st)
                  inside)
                declared h)
        ])
  term_step-IsSafe path env (ComputationTyping.handle dm dr cs covers) st = record {
    same_signature = same;
    type = _;
    control = ControlTyping.term env dm;
    stack = StackTyping.handler_frame (HandlerTyping.handler env dr cs covers) st;
  }
  term_step-IsSafe path (EnvironmentTyping.environment vs ts)
        (ComputationTyping.resume {i} found dv) st =
      let (t, p, ht) = get_token_typed i ts found in
      let (v, q, hv) = evaluate_value_typed (EnvironmentTyping.environment vs ts) dv in
      rw (p, q) (use_token-IsSafe t v path ht hv st)

  step_control-IsSafe :
      {k : Control} {c : ComputationType}
      → ControlTyping sig k c
      → StackTyping sig machine.frames c d
      → IsSafe sig d (step_control k machine).outcome
  unfolding step_control
  step_control-IsSafe (ControlTyping.term {path} env m) st = term_step-IsSafe path env m st
  step_control-IsSafe (ControlTyping.result {path} h) st =
      result_step-IsSafe path machine.frames h st

-- A step of a machine whose control and stack are typed at `d` goes on to such a machine, returns a
-- result of the type `d`, suspends at a declared operation with an argument of its type and a
-- machine that goes on at `d` with any value of the result type, or rejects a second use of a token.
pub transition-IsSafe :
    {sig : OperationSignature} {d : ComputationType} (machine : Machine)
    → MachineTyping sig machine d
    → IsSafe sig d (transition machine).outcome
unfolding transition
transition-IsSafe machine typed =
    step_control-IsSafe machine typed.same_signature typed.control typed.stack

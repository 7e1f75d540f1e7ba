-- ===== src/Kernel/Machine/OneShot/Step.antt =====
-- src/kernel-calculus/machine.ts: a step uses a live token only, and no token twice.
use mathlib.Core.Path.{subst}
use semantic_systems.Base.{
  ℕ, ◌+◌, ◌≤◌, ◌<◌, ◌≡◌, ◌≢◌, ◌⊎◌, refl, sym, ◌∙◌, true, false, List, ◌∷◌, Option, none, some,
  some-injective, arith, Bool-cases, inl, inr,
}
use semantic_systems.Kernel.Row.{Text}
use semantic_systems.Kernel.Types.{ValueType}
use semantic_systems.Kernel.Term.{ComputationTerm, OperationDeclaration}
use semantic_systems.Kernel.Diagnostic.{TermPath}
use semantic_systems.Kernel.Signature.{operation_declaration}
use semantic_systems.Kernel.Typing.{find_clause}
use semantic_systems.Kernel.Machine.{
  RuntimeValue, Environment, InternalResumption, HandlerFrame, Frame, Frames, RuntimeResult,
  Control, Machine, Outcome, Transition, evaluate_value, get_token, runtime_value_has_type, Split,
  find_handler, handler_clauses, is_live, consume, enter_function, return_to, result_step,
  return_step, force_step, suspend, enter_clause, perform, operation_step, use_token, resume_step,
  term_step, step_control, transition,
}
use semantic_systems.Kernel.Machine.Resume.Laws.{is_live-consume}
use semantic_systems.Kernel.Machine.OneShot.{is_consume, IsAvailable, LiveBelow}

abbrev pub Fires : ℕ → Transition → Type 0
Fires id t = (is_consume t.rule ≡ true) × (t.resumption ≡ some id)

-- The machine that the outcome leaves behind has the property.
abbrev pub Leaves : (Machine → Type 0) → Outcome → Type 0
Leaves P (Outcome.next machine) = P machine
Leaves P (Outcome.suspended request token) = P token.machine
Leaves P _ = Unit

true-false : true ≡ false → ⊥
true-false e = cc

-- A step uses a live token, and what is available after it was so before and is not the one used.
pub record UsesOnce (machine : Machine) (t : Transition) : Type 0 where
  pub below : Leaves LiveBelow t.outcome
  pub uses : (id : ℕ) → Fires id t → is_live id machine.live ≡ true
  pub leaves :
      (id : ℕ) → Leaves (λ m. IsAvailable id m → IsAvailable id machine × ¬ Fires id t) t.outcome

-- A step that uses and makes no token.
abbrev Quiet : Machine → Transition → Type 0
Quiet machine t =
    (is_consume t.rule ≡ false)
    × Leaves (λ m. (m.live ≡ machine.live) × (machine.next_identity ≤ m.next_identity)) t.outcome

IsAvailable-same :
    (machine m : Machine) (id : ℕ)
    → m.live ≡ machine.live
    → machine.next_identity ≤ m.next_identity
    → IsAvailable id m
    → IsAvailable id machine
IsAvailable-same machine m id same le (inl live) = inl (subst (λ l. is_live id l ≡ true) same live)
IsAvailable-same machine m id same le (inr fresh) = inr (omega arith)

Leaves-same :
    (machine : Machine) (o : Outcome) (id : ℕ) (F : Type 0)
    → ¬ F
    → Leaves (λ m. (m.live ≡ machine.live) × (machine.next_identity ≤ m.next_identity)) o
    → Leaves (λ m. IsAvailable id m → IsAvailable id machine × ¬ F) o
Leaves-same machine (Outcome.next m) id F n (same, le) =
    λ h. (IsAvailable-same machine m id same le h, n)
Leaves-same machine (Outcome.suspended q t) id F n (same, le) =
    λ h. (IsAvailable-same machine t.machine id same le h, n)
Leaves-same machine (Outcome.returned r) id F n h = tt
Leaves-same machine (Outcome.rejected d) id F n h = tt

LiveBelow-same :
    (machine m : Machine)
    → LiveBelow machine
    → m.live ≡ machine.live
    → machine.next_identity ≤ m.next_identity
    → LiveBelow m
LiveBelow-same machine m below same le id live =
    omega (arith, below id (subst (λ l. is_live id l ≡ true) same live))

Leaves-below :
    (machine : Machine) (o : Outcome)
    → LiveBelow machine
    → Leaves (λ m. (m.live ≡ machine.live) × (machine.next_identity ≤ m.next_identity)) o
    → Leaves LiveBelow o
Leaves-below machine (Outcome.next m) below (same, le) = LiveBelow-same machine m below same le
Leaves-below machine (Outcome.suspended q t) below (same, le) =
    LiveBelow-same machine t.machine below same le
Leaves-below machine (Outcome.returned r) below h = tt
Leaves-below machine (Outcome.rejected d) below h = tt

Quiet-UsesOnce :
    (machine : Machine) (t : Transition) → LiveBelow machine → Quiet machine t → UsesOnce machine t
Quiet-UsesOnce machine t below (other, same) = record {
  below = Leaves-below machine t.outcome below same;
  uses = λ id (r, _). absurd (true-false (sym r ∙ other));
  leaves = λ id.
      Leaves-same machine t.outcome id (Fires id t) (λ (r, _). true-false (sym r ∙ other)) same;
}

module _ (machine : Machine) where
  enter_function-Quiet :
      (o : Option RuntimeValue) (m : ComputationTerm ValueType) (env : Environment)
      (path : TermPath) (outer : Frames)
      → Quiet machine (enter_function o m env path outer machine)
  unfolding enter_function
  enter_function-Quiet none m env path outer = (refl, tt)
  enter_function-Quiet (some v) m env path outer = (refl, (refl, omega arith))

  return_to-Quiet :
      (f : Frame) (r : RuntimeResult) (outer : Frames) → Quiet machine (return_to f r outer machine)
  unfolding return_to
  return_to-Quiet (Frame.let_frame m env p) (RuntimeResult.value v) outer =
      (refl, (refl, omega arith))
  return_to-Quiet (Frame.let_frame m env p) (RuntimeResult.function b e) outer = (refl, tt)
  return_to-Quiet (Frame.apply_frame a env p) (RuntimeResult.value v) outer = (refl, tt)
  return_to-Quiet (Frame.apply_frame a env p) (RuntimeResult.function b e) outer =
      enter_function-Quiet (evaluate_value a env) b e p outer
  return_to-Quiet (Frame.handler_frame (HandlerFrame.handler l r cs env p)) (RuntimeResult.value v)
        outer =
      (refl, (refl, omega arith))
  return_to-Quiet (Frame.handler_frame (HandlerFrame.handler l r cs env p))
        (RuntimeResult.function b e) outer =
      (refl, tt)

  result_step-Quiet :
      (r : RuntimeResult) (path : TermPath) (fs : Frames)
      → Quiet machine (result_step r path fs machine)
  unfolding result_step
  result_step-Quiet r path Frames.frames_end = (refl, tt)
  result_step-Quiet r path (Frames.frame f outer) = return_to-Quiet f r outer

  return_step-Quiet :
      (o : Option RuntimeValue) (path : TermPath) → Quiet machine (return_step o path machine)
  unfolding return_step
  return_step-Quiet none path = (refl, tt)
  return_step-Quiet (some v) path = (refl, (refl, omega arith))

  force_step-Quiet :
      (o : Option RuntimeValue) (path : TermPath) → Quiet machine (force_step o path machine)
  unfolding force_step
  force_step-Quiet (some (RuntimeValue.thunk m env e c)) path = (refl, (refl, omega arith))
  force_step-Quiet _ path = (refl, tt)

is_live-cons :
    (id next : ℕ) (live : List ℕ)
    → is_live id (next ∷ live) ≡ true
    → (next ≡ id) ⊎ (is_live id live ≡ true)
unfolding is_live
is_live-cons id next live h = ground arith

is_live-consumed :
    (other id : ℕ) (live : List ℕ)
    → is_live other (consume id live) ≡ true
    → (is_live other live ≡ true) × (other ≢ id)
is_live-consumed other id live h = let e = is_live-consume other id live in ground arith

lt_irrefl : {id other next : ℕ} → id ≡ other → id < next → next ≤ other → ⊥
lt_irrefl same lt le = omega arith

-- What is available after a step that made a token or used one.
IsAvailable-made :
    (machine : Machine) (id : ℕ)
    → (is_live id (machine.next_identity ∷ machine.live) ≡ true) ⊎ (machine.next_identity + 1 ≤ id)
    → IsAvailable id machine
IsAvailable-made machine id (inl live) =
    elim (is_live-cons id machine.next_identity machine.live live) [
      | inl new ↦ inr (omega arith)
      | inr old ↦ inl old
    ]
IsAvailable-made machine id (inr fresh) = inr (omega arith)

IsAvailable-used :
    (machine : Machine) (id other : ℕ)
    → LiveBelow machine
    → is_live id machine.live ≡ true
    → (is_live other (consume id machine.live) ≡ true) ⊎ (machine.next_identity ≤ other)
    → IsAvailable other machine × ¬ ((true ≡ true) × (some id ≡ some other))
IsAvailable-used machine id other below live (inl h) =
    let (old, differ) = is_live-consumed other id machine.live h in
    (inl old, λ (_, same). differ (sym (some-injective same)))
IsAvailable-used machine id other below live (inr fresh) =
    (inr fresh, λ (_, same). lt_irrefl (some-injective same) (below id live) fresh)

module _ (machine : Machine) (below : LiveBelow machine) where
  enter_clause-UsesOnce :
      (o : Option (ComputationTerm ValueType)) (s : Split) (label name : Text) (v : RuntimeValue)
      (d : OperationDeclaration) (path : TermPath)
      → UsesOnce machine (enter_clause o s label name v d path machine)
  unfolding enter_clause is_live
  enter_clause-UsesOnce none s label name v d path = Quiet-UsesOnce machine _ below (refl, tt)
  enter_clause-UsesOnce (some m) s label name v d path = record {
    below = λ id live. elim (is_live-cons id machine.next_identity machine.live live) [
      | inl new ↦ omega arith
      | inr old ↦ omega (arith, below id old)
    ];
    uses = λ id (r, _). absurd (true-false (sym r));
    leaves = λ id h. (IsAvailable-made machine id h, λ (r, _). true-false (sym r));
  }

  perform-UsesOnce :
      (o : Option Split) (label name : Text) (v : RuntimeValue) (d : OperationDeclaration)
      (path : TermPath)
      → UsesOnce machine (perform o label name v d path machine)
  unfolding perform suspend
  perform-UsesOnce none label name v d path =
      Quiet-UsesOnce machine _ below (refl, (refl, omega arith))
  perform-UsesOnce (some s) label name v d path =
      enter_clause-UsesOnce (find_clause name (handler_clauses s.handler)) s label name v d path

  operation_step-UsesOnce :
      (o : Option RuntimeValue) (q : Option OperationDeclaration) (label name : Text)
      (path : TermPath)
      → UsesOnce machine (operation_step o q label name path machine)
  unfolding operation_step
  operation_step-UsesOnce (some v) (some d) label name path =
      perform-UsesOnce (find_handler label machine.frames) label name v d path
  operation_step-UsesOnce (some v) none label name path = Quiet-UsesOnce machine _ below (refl, tt)
  operation_step-UsesOnce none q label name path = Quiet-UsesOnce machine _ below (refl, tt)

  use_token-UsesOnce :
      (t : InternalResumption) (v : RuntimeValue) (path : TermPath)
      → UsesOnce machine (use_token t v path machine)
  unfolding use_token
  use_token-UsesOnce (InternalResumption.resumption id a h captured) v path =
      elim (Bool-cases (runtime_value_has_type v a)) [
        | inr misfit ↦ rw misfit (Quiet-UsesOnce machine _ below (refl, tt))
        | inl fits ↦ rw fits (elim (Bool-cases (is_live id machine.live)) [
          | inr used ↦ rw used (Quiet-UsesOnce machine _ below (refl, tt))
          | inl live ↦ rw live (record {
            below = λ other h. below other (is_live-consumed other id machine.live h).0;
            uses = λ other (_, same).
                subst (λ i. is_live i machine.live ≡ true) (some-injective same) live;
            leaves = λ other. IsAvailable-used machine id other below live;
          })
        ])
      ]

  resume_step-UsesOnce :
      (o : Option InternalResumption) (q : Option RuntimeValue) (path : TermPath)
      → UsesOnce machine (resume_step o q path machine)
  unfolding resume_step
  resume_step-UsesOnce (some t) (some v) path = use_token-UsesOnce t v path
  resume_step-UsesOnce (some t) none path = Quiet-UsesOnce machine _ below (refl, tt)
  resume_step-UsesOnce none q path = Quiet-UsesOnce machine _ below (refl, tt)

  term_step-UsesOnce :
      (m : ComputationTerm ValueType) (env : Environment) (path : TermPath)
      → UsesOnce machine (term_step m env path machine)
  unfolding term_step
  term_step-UsesOnce (ComputationTerm.return g v) env path =
      Quiet-UsesOnce machine _ below (return_step-Quiet machine (evaluate_value v env) path)
  term_step-UsesOnce (ComputationTerm.let_in m n) env path =
      Quiet-UsesOnce machine _ below (refl, (refl, omega arith))
  term_step-UsesOnce (ComputationTerm.force v) env path =
      Quiet-UsesOnce machine _ below (force_step-Quiet machine (evaluate_value v env) path)
  term_step-UsesOnce (ComputationTerm.lambda a g m) env path =
      Quiet-UsesOnce machine _ below (refl, (refl, omega arith))
  term_step-UsesOnce (ComputationTerm.apply m v) env path =
      Quiet-UsesOnce machine _ below (refl, (refl, omega arith))
  term_step-UsesOnce (ComputationTerm.operation g label name v) env path =
      operation_step-UsesOnce (evaluate_value v env)
        (operation_declaration machine.signature label name) label name path
  term_step-UsesOnce (ComputationTerm.handle label m r cs) env path =
      Quiet-UsesOnce machine _ below (refl, (refl, omega arith))
  term_step-UsesOnce (ComputationTerm.resume i v) (Environment.environment vs ts) path =
      resume_step-UsesOnce (get_token ts i) (evaluate_value v (Environment.environment vs ts)) path

  step_control-UsesOnce : (c : Control) → UsesOnce machine (step_control c machine)
  unfolding step_control
  step_control-UsesOnce (Control.term m env path) = term_step-UsesOnce m env path
  step_control-UsesOnce (Control.result r path) =
      Quiet-UsesOnce machine _ below (result_step-Quiet machine r path machine.frames)

pub transition-UsesOnce :
    (machine : Machine) → LiveBelow machine → UsesOnce machine (transition machine)
unfolding transition
transition-UsesOnce machine below = step_control-UsesOnce machine below machine.control

-- ===== src/Kernel/Machine/Parts.antt =====
-- Typed parts of a machine: lookups, values of terms, stacks and their splits.
use mathlib.Core.Path.{subst, subst₂}
use semantic_systems.Base.{
  ℕ, zero, suc, ◌≡◌, refl, sym, ◌∙◌, ap, some-injective, true, ◌∷◌, Option, none, some, get_elem?,
  Bool-cases, inl, inr,
}
use semantic_systems.Kernel.Row.{Text, EffectRow, text_eq}
use semantic_systems.Kernel.Row.Equality.{text_eq→eq}
use semantic_systems.Kernel.Types.{ValueType, ComputationType}
use semantic_systems.Kernel.Types.Equality.{value_types_equal_refl}
use semantic_systems.Kernel.Term.{
  ValueTerm, ComputationTerm, Clauses, OperationDeclaration, OperationSignature,
}
use semantic_systems.Kernel.Signature.{operation_declaration}
use semantic_systems.Kernel.Checker.{Context, Resumptions, ResumptionExpectation}
use semantic_systems.Kernel.Typing.{find_clause, ValueTyping, ComputationTyping, ClausesTyping}
use semantic_systems.Kernel.Machine.{
  RuntimeValue, Environment, Values, Tokens, InternalResumption, HandlerFrame, Frame, Frames,
  get_value, get_token, bind_value, bind_token, evaluate_value, pair_values, make_thunk,
  runtime_value_has_type, append_frames, Split, find_handler, push_captured, handler_label,
  handler_clauses, handler_environment,
}
use semantic_systems.Kernel.Machine.Typing.{
  HasType, EnvironmentTyping, ValuesTyping, TokensTyping, TokenTyping, HandlerTyping, StackTyping,
}

module _ {sig : OperationSignature} where
  pub get_value_typed :
      {vs : Values} {Γ : Context} {a : ValueType} (i : ℕ)
      → ValuesTyping sig vs Γ
      → get_elem? Γ i ≡ some a
      → (v : RuntimeValue) × (get_value vs i ≡ some v) × HasType sig v a
  unfolding get_value
  get_value_typed i ValuesTyping.values_end e = absurd (cc)
  get_value_typed zero (ValuesTyping.value_typed {v} h hs) e =
      (v, refl, subst (HasType sig v) (some-injective e) h)
  get_value_typed (suc i) (ValuesTyping.value_typed h hs) e = get_value_typed i hs e

  pub get_token_typed :
      {ts : Tokens} {R : Resumptions} {x : ResumptionExpectation} (i : ℕ)
      → TokensTyping sig ts R
      → get_elem? R i ≡ some x
      → (t : InternalResumption) × (get_token ts i ≡ some t) × TokenTyping sig t x.input x.output
  unfolding get_token
  get_token_typed i TokensTyping.tokens_end e = absurd (cc)
  get_token_typed zero (TokensTyping.token_typed {t} h hs) e =
      (t, refl, subst (λ y. TokenTyping sig t y.input y.output) (some-injective e) h)
  get_token_typed (suc i) (TokensTyping.token_typed h hs) e = get_token_typed i hs e

  -- A typed value term has a value of its type.
  pub evaluate_value_typed :
      {env : Environment} {Γ : Context} {R : Resumptions} {t : ValueTerm ValueType} {a : ValueType}
      → EnvironmentTyping sig env Γ R
      → ValueTyping sig Γ R t a
      → (v : RuntimeValue) × (evaluate_value t env ≡ some v) × HasType sig v a
  unfolding evaluate_value make_thunk pair_values
  evaluate_value_typed (EnvironmentTyping.environment vs ts) (ValueTyping.variable {i} e) =
      get_value_typed i vs e
  evaluate_value_typed env ValueTyping.unit = (RuntimeValue.unit, refl, HasType.unit)
  evaluate_value_typed env (ValueTyping.bool {b}) = (RuntimeValue.bool b, refl, HasType.bool)
  evaluate_value_typed env (ValueTyping.int {n} e) = (RuntimeValue.int n, refl, HasType.int e)
  evaluate_value_typed env (ValueTyping.pair d e) =
      let (v, p, hv) = evaluate_value_typed env d in
      let (w, q, hw) = evaluate_value_typed env e in
      (RuntimeValue.pair v w, rw (p, q), HasType.pair hv hw)
  evaluate_value_typed {env} denv (ValueTyping.thunk {m} {e} {c} d) =
      (RuntimeValue.thunk m env e c, refl, HasType.thunk denv d)

  -- `runtimeValueHasType` accepts a value of the type.
  pub runtime_value_has_type_typed :
      {v : RuntimeValue} {a : ValueType} → HasType sig v a → runtime_value_has_type v a ≡ true
  unfolding runtime_value_has_type
  runtime_value_has_type_typed HasType.unit = refl
  runtime_value_has_type_typed HasType.bool = refl
  runtime_value_has_type_typed (HasType.int e) = e
  runtime_value_has_type_typed (HasType.pair h k) =
      rw (runtime_value_has_type_typed h) (runtime_value_has_type_typed k)
  runtime_value_has_type_typed (HasType.thunk {e} {c} env d) =
      value_types_equal_refl (ValueType.thunk e c)

  pub append_frames_typed :
      {upper lower : Frames} {b c d : ComputationType}
      → StackTyping sig upper b c
      → StackTyping sig lower c d
      → StackTyping sig (append_frames upper lower) b d
  unfolding append_frames
  append_frames_typed {lower} {d} (StackTyping.frames_end e) s =
      subst (λ x. StackTyping sig lower x d) (sym e) s
  append_frames_typed (StackTyping.let_frame env m s) t =
      StackTyping.let_frame env m (append_frames_typed s t)
  append_frames_typed (StackTyping.apply_frame env v s) t =
      StackTyping.apply_frame env v (append_frames_typed s t)
  append_frames_typed (StackTyping.handler_frame h s) t =
      StackTyping.handler_frame h (append_frames_typed s t)

  pub bind_value_typed :
      {v : RuntimeValue} {env : Environment} {a : ValueType} {Γ : Context} {R : Resumptions}
      → HasType sig v a
      → EnvironmentTyping sig env Γ R
      → EnvironmentTyping sig (bind_value v env) (a ∷ Γ) R
  bind_value_typed h (EnvironmentTyping.environment vs ts) =
      EnvironmentTyping.environment (ValuesTyping.value_typed h vs) ts

  pub bind_token_typed :
      {t : InternalResumption} {env : Environment} {x : ResumptionExpectation} {Γ : Context}
      {R : Resumptions}
      → TokenTyping sig t x.input x.output
      → EnvironmentTyping sig env Γ R
      → EnvironmentTyping sig (bind_token t env) Γ (x ∷ R)
  bind_token_typed h (EnvironmentTyping.environment vs ts) =
      EnvironmentTyping.environment vs (TokensTyping.token_typed h ts)

-- The parts of a stack that is split at a handler for the label.
pub record SplitTyping (sig : OperationSignature) (label : Text) (s : Split) (c d : ComputationType)
    : Type 0 where
  pub hole : ComputationType
  pub out : ComputationType
  pub above : StackTyping sig s.captured c hole
  pub handles : HandlerTyping sig s.handler hole out
  pub below : StackTyping sig s.outer out d
  pub same_label : handler_label s.handler ≡ label

push_captured-some :
    (f : Frame) (o : Option Split) (s : Split)
    → push_captured f o ≡ some s
    → (t : Split) × (o ≡ some t) × (record t { captured = Frames.frame f t.captured } ≡ s)
unfolding push_captured
push_captured-some f none s e = absurd (cc)
push_captured-some f (some t) s e = (t, refl, some-injective e)

module _ {sig : OperationSignature} where
  -- The split of a typed stack is typed.
  pub find_handler_typed :
      {fs : Frames} {b d : ComputationType} (label : Text) (s : Split)
      → StackTyping sig fs b d
      → find_handler label fs ≡ some s
      → SplitTyping sig label s b d
  unfolding find_handler
  find_handler_typed label s (StackTyping.frames_end e) found = absurd (cc)
  find_handler_typed {d} label s (StackTyping.let_frame {m} {env} {path} {g} {a} {c} denv dm st)
        found =
      let (t, p, q) = push_captured-some (Frame.let_frame m env path) _ s found in
      let split = find_handler_typed label t st p in
      subst (λ x. SplitTyping sig label x (ComputationType.return g a) d) q
        (record {
          hole = split.hole;
          out = split.out;
          above = StackTyping.let_frame denv dm split.above;
          handles = split.handles;
          below = split.below;
          same_label = split.same_label;
        })
  find_handler_typed {d} label s
        (StackTyping.apply_frame {v} {env} {path} {g} {e} {a} {c} denv dv st) found =
      let (t, p, q) = push_captured-some (Frame.apply_frame v env path) _ s found in
      let split = find_handler_typed label t st p in
      subst (λ x. SplitTyping sig label x (ComputationType.function a g e c) d) q
        (record {
          hole = split.hole;
          out = split.out;
          above = StackTyping.apply_frame denv dv split.above;
          handles = split.handles;
          below = split.below;
          same_label = split.same_label;
        })
  find_handler_typed {b} {d} label s (StackTyping.handler_frame {h} {outer} {c} dh st) found =
      elim (Bool-cases (text_eq (handler_label h) label)) [
        | inl here ↦
            subst (λ x. SplitTyping sig label x b d) (some-injective (rw here at found))
              (record {
                hole = b;
                out = c;
                above = StackTyping.frames_end refl;
                handles = dh;
                below = st;
                same_label = text_eq→eq _ _ here;
              })
        | inr further ↦
            let (t, p, q) = push_captured-some (Frame.handler_frame h) _ s (rw further at found) in
            let split = find_handler_typed label t st p in
            subst (λ x. SplitTyping sig label x b d) q
              (record {
                hole = split.hole;
                out = split.out;
                above = StackTyping.handler_frame dh split.above;
                handles = split.handles;
                below = split.below;
                same_label = split.same_label;
              })
      ]

  -- The clause that a typed handler finds for a declared operation.
  pub find_clause_typed :
      {label : Text} {c : ComputationType} {Γ : Context} {R : Resumptions}
      {clauses : Clauses ValueType} (name : Text) (d : OperationDeclaration)
      (m : ComputationTerm ValueType)
      → ClausesTyping sig label c Γ R clauses
      → operation_declaration sig label name ≡ some d
      → find_clause name clauses ≡ some m
      → (e : EffectRow) × ComputationTyping sig
          (d.argument_type ∷ Γ)
          (record { input = d.result_type; output = c; effects = e } ∷ R)
          m
          c
  unfolding find_clause
  find_clause_typed name d m ClausesTyping.clauses_end declared found = absurd (cc)
  find_clause_typed {label} {c} {Γ} {R} name d m
        (ClausesTyping.clause {name = other} {m = n} d' e declared' dm rest) declared found =
      elim (Bool-cases (text_eq other name)) [
        | inl here ↦
            let same : d' ≡ d = some-injective (
              sym declared'
              ∙ ap (operation_declaration sig label) (text_eq→eq other name here)
              ∙ declared) in
            let body : n ≡ m = some-injective (rw here at found) in
            (
              e,
              subst₂
                  (λ x t.
                    ComputationTyping sig (x.argument_type ∷ Γ)
                      (record { input = x.result_type; output = c; effects = e } ∷ R) t c)
                  same body dm,
            )
        | inr further ↦ find_clause_typed name d m rest declared (rw further at found)
      ]

-- What a typed handler gives for a declared operation of its label.
pub record ClauseTyping (sig : OperationSignature) (h : HandlerFrame) (name : Text)
    (d : OperationDeclaration) (c : ComputationType) : Type 0 where
  pub body : ComputationTerm ValueType
  pub found : find_clause name (handler_clauses h) ≡ some body
  pub Γ : Context
  pub R : Resumptions
  pub effects : EffectRow
  pub env : EnvironmentTyping sig (handler_environment h) Γ R
  pub typed :
      ComputationTyping sig
        (d.argument_type ∷ Γ)
        (record { input = d.result_type; output = c; effects = effects } ∷ R)
        body
        c

pub handler_clause_typed :
    {sig : OperationSignature} {h : HandlerFrame} {b c : ComputationType} (name : Text)
    (d : OperationDeclaration)
    → HandlerTyping sig h b c
    → operation_declaration sig (handler_label h) name ≡ some d
    → ClauseTyping sig h name d c
handler_clause_typed name d (HandlerTyping.handler env r cs covers) declared =
    let (m, found) = covers name d declared in
    let (e, typed) = find_clause_typed name d m cs declared found in
    record { body = m; found = found; Γ = _; R = _; effects = e; env = env; typed = typed }

-- ===== src/Kernel/Machine/Resume/Laws.antt =====
-- `resume`: a token is used once, a refused value changes nothing, and a typed run stays typed.
use semantic_systems.Base.{
  ℕ, zero, suc, ◌≡◌, refl, ◌∙◌, true, false, List, [], ◌∷◌, ◌++◌, some, length, get_elem?,
  Bool-cases, inl, inr, arith, and-eq-true, if◌then◌else◌, ◌==◌, ◌<◌,
}
use semantic_systems.Kernel.Types.{ValueType, ComputationType}
use semantic_systems.Kernel.Term.{OperationSignature}
use semantic_systems.Kernel.Machine.{
  RuntimeValue, runtime_value_has_type, is_live, consume, EvaluationBounds, EvaluationResult,
  ExternalSuspension, run_machine, run_within, bound_of,
}
use semantic_systems.Kernel.Machine.Typing.{HasType, MachineTyping, resumed_with}
use semantic_systems.Kernel.Machine.Safety.Run.{IsSafeResult, run_loop-IsSafeResult}
use semantic_systems.Kernel.Machine.Resume.{
  ExternalSuspensionState, Host, admit, apply_token, owned_value, owned_value_has_type,
  resume_state, resume_known, resume,
}

pub is_live-consume :
    (id other : ℕ) (live : List ℕ)
    → is_live id (consume other live) ≡ (if id == other then false else is_live id live)
unfolding is_live consume
is_live-consume id other [] = ground arith
is_live-consume id other (x ∷ live) = ground (arith, is_live-consume id other live)

-- The suspended machine goes on at the type `d` with any value of the result type; this is the
-- field `goes_on` of `SuspensionTyping`.
abbrev pub SuspensionMachine : OperationSignature → ComputationType → ExternalSuspension → Type 0
SuspensionMachine sig d token =
    (v : RuntimeValue)
    → HasType sig v token.result_type
    → MachineTyping sig (resumed_with token v) d

-- Types with no thunk inside.
abbrev pub IsFirstOrder : ValueType → Type 0
IsFirstOrder (ValueType.pair a b) = IsFirstOrder a × IsFirstOrder b
IsFirstOrder (ValueType.thunk e c) = ⊥
IsFirstOrder _ = Unit

-- What the run-time test accepts at a first-order type has the type.
first_order_HasType :
    (sig : OperationSignature) (v : RuntimeValue) (a : ValueType)
    → IsFirstOrder a
    → runtime_value_has_type v a ≡ true
    → HasType sig v a
unfolding runtime_value_has_type
first_order_HasType sig RuntimeValue.unit ValueType.unit f h = HasType.unit
first_order_HasType sig (RuntimeValue.bool b) ValueType.bool f h = HasType.bool
first_order_HasType sig (RuntimeValue.int n) ValueType.int f h = HasType.int h
first_order_HasType sig (RuntimeValue.pair v w) (ValueType.pair a b) f h =
    let (p, q) = and-eq-true (runtime_value_has_type v a) (runtime_value_has_type w b) h in
    HasType.pair (first_order_HasType sig v a f.0 p) (first_order_HasType sig w b f.1 q)
first_order_HasType sig (RuntimeValue.thunk m env e c) (ValueType.thunk e' c') f h = absurd f
first_order_HasType sig _ _ f h = absurd (cc)

get_elem?-append {ℓ} :
    {A : Type ℓ} (xs : List A) (y : A) (i : ℕ) {x : A}
    → get_elem? xs i ≡ some x
    → get_elem? (xs ++ y ∷ []) i ≡ some x
get_elem?-append [] y i e = absurd (cc)
get_elem?-append (x ∷ xs) y zero e = e
get_elem?-append (x ∷ xs) y (suc i) e = get_elem?-append xs y i e

get_elem?-lt {ℓ} :
    {A : Type ℓ} (xs : List A) (i : ℕ) {x : A} → get_elem? xs i ≡ some x → i < length xs
get_elem?-lt [] i e = absurd (cc)
get_elem?-lt (x ∷ xs) zero e = omega arith
get_elem?-lt (x ∷ xs) (suc i) e = omega (arith, get_elem?-lt xs i e)

-- A host never forgets a token, and enters a new one under a new number.
admit-state :
    (host : Host) (result : EvaluationResult) (id : ℕ) (state : ExternalSuspensionState)
    → get_elem? host.suspensions id ≡ some state
    → (get_elem? (admit host result).suspensions id ≡ some state)
      × (is_live id (admit host result).live ≡ is_live id host.live)
unfolding admit is_live
admit-state host (EvaluationResult.suspended q t trace) id state e =
    (get_elem?-append host.suspensions _ id e, ground (arith, get_elem?-lt host.suspensions id e))
admit-state host (EvaluationResult.returned r trace) id state e = (e, refl)
admit-state host (EvaluationResult.exhausted r m trace) id state e = (e, refl)
admit-state host (EvaluationResult.runtime_rejected d trace) id state e = (e, refl)

resume-used :
    (host : Host) (id : ℕ) (v x : RuntimeValue) (bounds : EvaluationBounds)
    (state : ExternalSuspensionState)
    → get_elem? host.suspensions id ≡ some state
    → owned_value_has_type (owned_value v) state.token.result_type ≡ some x
    → is_live id host.live ≡ false
    → resume host id v bounds ≡ (
      host,
      EvaluationResult.runtime_rejected
          (record { code = "resumption.already-used"; rule = "machine.external-resume"; path = [] })
          state.trace,
    )
unfolding resume resume_known resume_state
resume-used host id v x bounds state known accepted used = rw (known, accepted, used)

-- After a resume whose value is accepted the token is known and not live.
resume-uses :
    (host : Host) (id : ℕ) (v x : RuntimeValue) (bounds : EvaluationBounds)
    (state : ExternalSuspensionState)
    → get_elem? host.suspensions id ≡ some state
    → owned_value_has_type (owned_value v) state.token.result_type ≡ some x
    → (get_elem? (resume host id v bounds).0.suspensions id ≡ some state)
      × (is_live id (resume host id v bounds).0.live ≡ false)
unfolding resume resume_known resume_state apply_token
resume-uses host id v x bounds state known accepted = elim (Bool-cases (is_live id host.live)) [
  | inr used ↦ rw (known, accepted, used) (known, used)
  | inl live ↦
      rw (known, accepted, live)
        (let (p, q) = admit-state (record host { live = consume id host.live }) _ id state known in
          (p, q ∙ is_live-consume id id host.live ∙ ground arith))
]

-- A token that was resumed with an accepted value is used up: after that, whatever the bounds,
-- `resume` with an accepted value changes nothing and rejects with `resumption.already-used`.
pub resume-resume :
    (host : Host) (id : ℕ) (v w x y : RuntimeValue) (bounds bounds' : EvaluationBounds)
    (state : ExternalSuspensionState)
    → get_elem? host.suspensions id ≡ some state
    → owned_value_has_type (owned_value v) state.token.result_type ≡ some x
    → owned_value_has_type (owned_value w) state.token.result_type ≡ some y
    → resume (resume host id v bounds).0 id w bounds' ≡ (
      (resume host id v bounds).0,
      EvaluationResult.runtime_rejected
          (record { code = "resumption.already-used"; rule = "machine.external-resume"; path = [] })
          state.trace,
    )
resume-resume host id v w x y bounds bounds' state known accepted accepted' =
    let (known', used) = resume-uses host id v x bounds state known accepted in
    resume-used (resume host id v bounds).0 id w y bounds' state known' accepted' used

owned_value-eq :
    (v x : RuntimeValue) (a : ValueType)
    → owned_value_has_type (owned_value v) a ≡ some x
    → (v ≡ x) × (runtime_value_has_type x a ≡ true)
unfolding owned_value owned_value_has_type
owned_value-eq v x a h = ground arith

-- A live token of a typed suspension with a first-order result type resumes safely under valid
-- bounds with an accepted value: the result is typed at the type of the suspended program.
pub resume-IsSafeResult :
    (sig : OperationSignature) (d : ComputationType) (host : Host) (id : ℕ) (v x : RuntimeValue)
    (bounds : EvaluationBounds) (fuel maximum : ℕ) (state : ExternalSuspensionState)
    → get_elem? host.suspensions id ≡ some state
    → SuspensionMachine sig d state.token
    → IsFirstOrder state.token.result_type
    → owned_value_has_type (owned_value v) state.token.result_type ≡ some x
    → is_live id host.live ≡ true
    → bound_of bounds.fuel ≡ some fuel
    → bound_of bounds.maximum_trace_entries ≡ some (suc maximum)
    → IsSafeResult sig d (resume host id v bounds).1
unfolding resume resume_known resume_state apply_token run_machine run_within
resume-IsSafeResult sig d host id v x bounds fuel maximum state known typed first_order accepted
      live hf hm =
    let (_, fits) = owned_value-eq v x state.token.result_type accepted in
    rw (known, accepted, live, hf, hm)
      (run_loop-IsSafeResult fuel (suc maximum) _ state.trace
        (typed x (first_order_HasType sig x state.token.result_type first_order fits)))

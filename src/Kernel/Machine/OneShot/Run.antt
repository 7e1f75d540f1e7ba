-- ===== src/Kernel/Machine/OneShot/Run.antt =====
-- src/kernel-calculus/machine.ts: `evaluate` and `resume` use each resumption token at most once.
use mathlib.Core.Path.{subst}
use semantic_systems.Base.{
  ℕ, zero, suc, ◌<◌, ◌≡◌, sym, List, [], ◌∷◌, ◌++◌, Option, none, some, some-injective, length, leb,
  Bool-cases, inl, inr, All, get_elem?,
}
use semantic_systems.Kernel.Checker.{Accepted}
use semantic_systems.Kernel.Machine.{
  RuntimeValue, Machine, Outcome, is_live, transition, MachineTraceEntry, Trace, EvaluationBounds,
  EvaluationResult, entry_of, run_loop, bound_of, run_within, run_machine, initial_machine,
  evaluate,
}
use semantic_systems.Kernel.Machine.Bounds.{trace_of, after, extended, run_loop-suc}
use semantic_systems.Base.{Option-cases}
use semantic_systems.Kernel.Machine.Resume.{
  ExternalSuspensionState, Host, admit, apply_token, owned_value, owned_value_has_type,
  resume_state, resume_known, resume, start,
}
use semantic_systems.Kernel.Machine.OneShot.{
  Consumes, IsOneShot, Unused-snoc, IsOneShot-snoc, IsOneShot-at, IsAvailable, LiveBelow, Invariant,
}
use semantic_systems.Kernel.Machine.OneShot.Step.{Leaves, transition-UsesOnce}

-- The trace of a result, and the machine that a result can be resumed from.
abbrev pub IsOneShotResult : EvaluationResult → Type 0
IsOneShotResult (EvaluationResult.suspended request token trace) = Invariant token.machine trace
IsOneShotResult (EvaluationResult.exhausted reason machine trace) = Invariant machine trace
IsOneShotResult (EvaluationResult.returned r trace) = IsOneShot trace
IsOneShotResult (EvaluationResult.runtime_rejected diagnostic trace) = IsOneShot trace

result-IsOneShot : (r : EvaluationResult) → IsOneShotResult r → IsOneShot (trace_of r)
result-IsOneShot (EvaluationResult.suspended q t trace) h = h.one_shot
result-IsOneShot (EvaluationResult.exhausted r m trace) h = h.one_shot
result-IsOneShot (EvaluationResult.returned r trace) h = h
result-IsOneShot (EvaluationResult.runtime_rejected d trace) h = h

after-IsOneShotResult :
    (o : Outcome) (trace : Trace) (rest : Machine → EvaluationResult)
    → IsOneShot trace
    → Leaves (λ m. Invariant m trace) o
    → ((m : Machine) → Invariant m trace → IsOneShotResult (rest m))
    → IsOneShotResult (after o trace rest)
after-IsOneShotResult (Outcome.next m) trace rest h l k = k m l
after-IsOneShotResult (Outcome.suspended q t) trace rest h l k = l
after-IsOneShotResult (Outcome.returned r) trace rest h l k = h
after-IsOneShotResult (Outcome.rejected d) trace rest h l k = h

module _ (machine : Machine) (trace : Trace) (e : MachineTraceEntry)
    (inv : Invariant machine trace) where
  left-Invariant :
      (m : Machine)
      → IsOneShot (trace ++ e ∷ [])
      → LiveBelow m
      → ((id : ℕ) → IsAvailable id m → IsAvailable id machine × ¬ Consumes id e)
      → Invariant m (trace ++ e ∷ [])
  left-Invariant m o below l = record {
    below = below;
    one_shot = o;
    unused = λ id h. let (p, q) = l id h in Unused-snoc id trace e (inv.unused id p) q;
  }

  Leaves-Invariant :
      (o : Outcome)
      → IsOneShot (trace ++ e ∷ [])
      → Leaves LiveBelow o
      → ((id : ℕ) → Leaves (λ m. IsAvailable id m → IsAvailable id machine × ¬ Consumes id e) o)
      → Leaves (λ m. Invariant m (trace ++ e ∷ [])) o
  Leaves-Invariant (Outcome.next m) o below l = left-Invariant m o below l
  Leaves-Invariant (Outcome.suspended q t) o below l = left-Invariant t.machine o below l
  Leaves-Invariant (Outcome.returned r) o below l = tt
  Leaves-Invariant (Outcome.rejected d) o below l = tt

extended-IsOneShot :
    (machine : Machine) (trace : Trace)
    → Invariant machine trace
    → IsOneShot (extended machine trace)
unfolding entry_of
extended-IsOneShot machine trace inv =
    IsOneShot-snoc trace _ inv.one_shot
      (λ id c. inv.unused id (inl ((transition-UsesOnce machine inv.below).uses id c)))

extended-Invariant :
    (machine : Machine) (trace : Trace)
    → Invariant machine trace
    → Leaves (λ m. Invariant m (extended machine trace)) (transition machine).outcome
unfolding entry_of
extended-Invariant machine trace inv =
    let facts = transition-UsesOnce machine inv.below in
    Leaves-Invariant machine trace _ inv (transition machine).outcome
      (extended-IsOneShot machine trace inv) facts.below facts.leaves

run_loop-IsOneShotResult :
    (fuel maximum : ℕ) (machine : Machine) (trace : Trace)
    → Invariant machine trace
    → IsOneShotResult (run_loop fuel maximum machine trace)
unfolding run_loop
run_loop-IsOneShotResult zero maximum machine trace inv = inv
run_loop-IsOneShotResult (suc fuel) maximum machine trace inv =
    subst IsOneShotResult (sym (run_loop-suc fuel maximum machine trace))
      (elim (Bool-cases (leb maximum (length trace))) [
        | inl full ↦ rw full inv
        | inr free ↦ rw free (
            after-IsOneShotResult (transition machine).outcome _ _
              (extended-IsOneShot machine trace inv) (extended-Invariant machine trace inv)
              (λ m. run_loop-IsOneShotResult fuel maximum m (extended machine trace)))
      ])

run_within-IsOneShotResult :
    (fuel maximum : Option ℕ) (machine : Machine) (trace : Trace)
    → Invariant machine trace
    → IsOneShotResult (run_within fuel maximum machine trace)
unfolding run_within
run_within-IsOneShotResult none maximum machine trace inv = inv.one_shot
run_within-IsOneShotResult (some fuel) none machine trace inv = inv.one_shot
run_within-IsOneShotResult (some fuel) (some zero) machine trace inv = inv.one_shot
run_within-IsOneShotResult (some fuel) (some (suc maximum)) machine trace inv =
    run_loop-IsOneShotResult fuel (suc maximum) machine trace inv

run_machine-IsOneShotResult :
    (machine : Machine) (bounds : EvaluationBounds) (trace : Trace)
    → Invariant machine trace
    → IsOneShotResult (run_machine machine bounds trace)
unfolding run_machine
run_machine-IsOneShotResult machine bounds trace inv =
    run_within-IsOneShotResult (bound_of bounds.fuel) (bound_of bounds.maximum_trace_entries)
      machine trace inv

initial-Invariant : (program : Accepted) → Invariant (initial_machine program) []
unfolding initial_machine is_live
initial-Invariant program = record {
  below = λ id live. absurd (cc);
  one_shot = tt;
  unused = λ id h. tt;
}

-- In the trace of an evaluation, whatever the program and the bounds, no token that an entry
-- consumes is consumed by a later entry.
pub evaluate-IsOneShot :
    (program : Accepted) (bounds : EvaluationBounds) (i j id : ℕ) (e d : MachineTraceEntry)
    → i < j
    → get_elem? (trace_of (evaluate program bounds)) i ≡ some e
    → get_elem? (trace_of (evaluate program bounds)) j ≡ some d
    → Consumes id e
    → ¬ Consumes id d
unfolding evaluate
evaluate-IsOneShot program bounds i j id e d lt p q c =
    IsOneShot-at (trace_of (evaluate program bounds)) i j id e d
      (result-IsOneShot _ (
        run_machine-IsOneShotResult (initial_machine program) bounds []
          (initial-Invariant program)))
      lt p q c

-- Each suspension in custody has a trace that uses no token twice and none that its machine holds.
abbrev pub IsOneShotState : ExternalSuspensionState → Type 0
IsOneShotState state = Invariant state.token.machine state.trace

abbrev pub IsOneShotHost : Host → Type 0
IsOneShotHost host = All IsOneShotState host.suspensions

All-at {ℓ κ} :
    {A : Type ℓ} (P : A → Type κ) (xs : List A) (i : ℕ) {x : A}
    → All P xs
    → get_elem? xs i ≡ some x
    → P x
All-at P [] i h e = absurd (cc)
All-at P (y ∷ xs) zero (h, hs) e = subst P (some-injective e) h
All-at P (y ∷ xs) (suc i) (h, hs) e = All-at P xs i hs e

All-snoc {ℓ κ} :
    {A : Type ℓ} (P : A → Type κ) (xs : List A) (y : A) → All P xs → P y → All P (xs ++ y ∷ [])
All-snoc P [] y h p = (p, tt)
All-snoc P (x ∷ xs) y (h, hs) p = (h, All-snoc P xs y hs p)

admit-IsOneShotHost :
    (host : Host) (result : EvaluationResult)
    → IsOneShotHost host
    → IsOneShotResult result
    → IsOneShotHost (admit host result)
unfolding admit
admit-IsOneShotHost host (EvaluationResult.suspended q t trace) h r =
    All-snoc IsOneShotState host.suspensions _ h r
admit-IsOneShotHost host (EvaluationResult.returned r trace) h _ = h
admit-IsOneShotHost host (EvaluationResult.exhausted r m trace) h _ = h
admit-IsOneShotHost host (EvaluationResult.runtime_rejected d trace) h _ = h

apply_token-IsOneShot :
    (host : Host) (id : ℕ) (state : ExternalSuspensionState) (v : RuntimeValue)
    (bounds : EvaluationBounds)
    → IsOneShotHost host
    → Invariant state.token.machine state.trace
    → IsOneShotHost (apply_token host id state v bounds).0
      × IsOneShotResult (apply_token host id state v bounds).1
unfolding apply_token
apply_token-IsOneShot host id state v bounds h inv =
    let r =
      run_machine-IsOneShotResult _ bounds state.trace
        (record { below = inv.below; one_shot = inv.one_shot; unused = inv.unused }) in
    (admit-IsOneShotHost _ _ h r, r)

resume-IsOneShot :
    (host : Host) (id : ℕ) (v : RuntimeValue) (bounds : EvaluationBounds)
    → IsOneShotHost host
    → IsOneShotHost (resume host id v bounds).0 × IsOneShotResult (resume host id v bounds).1
unfolding resume resume_known resume_state
resume-IsOneShot host id v bounds h = elim (Option-cases (get_elem? host.suspensions id)) [
  | inl unknown ↦ rw unknown (h, tt)
  | inr (state, known) ↦
      let inv = All-at IsOneShotState host.suspensions id h known in
      rw known (elim (Option-cases (owned_value_has_type (owned_value v) state.token.result_type)) [
        | inl refused ↦ rw refused (h, inv.one_shot)
        | inr (w, accepted) ↦ rw accepted (elim (Bool-cases (is_live id host.live)) [
          | inr used ↦ rw used (h, inv.one_shot)
          | inl live ↦ rw live (apply_token-IsOneShot host id state w bounds h inv)
        ])
      ])
]

-- A value without thunks, which holds no token.
abbrev pub HasNoThunk : RuntimeValue → Type 0
HasNoThunk (RuntimeValue.pair v w) = HasNoThunk v × HasNoThunk w
HasNoThunk (RuntimeValue.thunk body env effects type) = ⊥
HasNoThunk _ = Unit

abbrev pub no_suspensions : Host
no_suspensions = record { suspensions = []; live = [] }

-- The hosts that programs that are started and values without thunks that tokens are resumed with
-- lead to, in any order and of any number.
pub data IsReached : Host → Type 0 where
  nothing : IsReached no_suspensions
  started :
      {host : Host} (program : Accepted) (bounds : EvaluationBounds)
      → IsReached host
      → IsReached (start host program bounds).0
  resumed :
      {host : Host} (id : ℕ) (v : RuntimeValue) (bounds : EvaluationBounds)
      → HasNoThunk v
      → IsReached host
      → IsReached (resume host id v bounds).0

start-IsOneShot :
    (host : Host) (program : Accepted) (bounds : EvaluationBounds)
    → IsOneShotHost host
    → IsOneShotHost (start host program bounds).0 × IsOneShotResult (start host program bounds).1
unfolding start evaluate
start-IsOneShot host program bounds h =
    let r =
      run_machine-IsOneShotResult (initial_machine program) bounds [] (initial-Invariant program) in
    (admit-IsOneShotHost host _ h r, r)

reached-IsOneShot : (host : Host) → IsReached host → IsOneShotHost host
reached-IsOneShot host IsReached.nothing = tt
reached-IsOneShot host (IsReached.started program bounds before) =
    (start-IsOneShot _ program bounds (reached-IsOneShot _ before)).0
reached-IsOneShot host (IsReached.resumed id v bounds flat before) =
    (resume-IsOneShot _ id v bounds (reached-IsOneShot _ before)).0

-- Whatever programs were started and whatever tokens were resumed with values without thunks: the
-- trace of the next program that is started, and the trace of the next token that is resumed with
-- such a value, which goes on from the trace of its suspended run, use no resumption token twice.
pub start-resume-IsOneShot :
    (host : Host) (program : Accepted) (id : ℕ) (v : RuntimeValue) (bounds : EvaluationBounds)
    → IsReached host
    → HasNoThunk v
    → IsOneShot (trace_of (start host program bounds).1)
      × IsOneShot (trace_of (resume host id v bounds).1)
start-resume-IsOneShot host program id v bounds reached flat =
    let h = reached-IsOneShot host reached in
    (
      result-IsOneShot _ (start-IsOneShot host program bounds h).1,
      result-IsOneShot _ (resume-IsOneShot host id v bounds h).1,
    )

-- ===== src/Kernel/Machine/Bounds.antt =====
-- src/kernel-calculus/machine.ts: the trace of `runMachine`, its bounds, and the fuel.
use mathlib.Core.Path.{subst}
use semantic_systems.Base.{
  ℕ, zero, suc, ◌+◌, ◌≤◌, ◌≡◌, refl, sym, ◌∙◌, ap, Bool, true, false, [], ◌∷◌, ◌++◌, some, arith,
  length, leb, Bool-cases, inl, inr, if◌then◌else◌,
}
use semantic_systems.Kernel.Checker.{Accepted}
use semantic_systems.Kernel.Machine.{
  Machine, Outcome, transition, MachineTraceEntry, Trace, ExhaustionReason, EvaluationBounds,
  EvaluationResult, entry_of, run_loop, bound_of, run_within, run_machine, initial_machine,
  evaluate,
}

abbrev pub trace_of : EvaluationResult → Trace
trace_of (EvaluationResult.returned r trace) = trace
trace_of (EvaluationResult.suspended request token trace) = trace
trace_of (EvaluationResult.exhausted reason machine trace) = trace
trace_of (EvaluationResult.runtime_rejected diagnostic trace) = trace

abbrev pub is_out_of_fuel : EvaluationResult → Bool
is_out_of_fuel (EvaluationResult.exhausted ExhaustionReason.out_of_fuel machine trace) = true
is_out_of_fuel _ = false

-- What a run gives once the outcome of a step is known, as in `run_loop`.
abbrev pub after : Outcome → Trace → (Machine → EvaluationResult) → EvaluationResult
after (Outcome.next machine) trace rest = rest machine
after (Outcome.returned r) trace rest = EvaluationResult.returned r trace
after (Outcome.suspended request token) trace rest = EvaluationResult.suspended request token trace
after (Outcome.rejected diagnostic) trace rest = EvaluationResult.runtime_rejected diagnostic trace

outcome-after :
    (o : Outcome) (trace : Trace) (rest : Machine → EvaluationResult)
    → (elim o [
      | Outcome.next machine ↦ rest machine
      | Outcome.returned r ↦ EvaluationResult.returned r trace
      | Outcome.suspended request token ↦ EvaluationResult.suspended request token trace
      | Outcome.rejected diagnostic ↦ EvaluationResult.runtime_rejected diagnostic trace
    ])
      ≡ after o trace rest
outcome-after (Outcome.next machine) trace rest = refl
outcome-after (Outcome.returned r) trace rest = refl
outcome-after (Outcome.suspended request token) trace rest = refl
outcome-after (Outcome.rejected diagnostic) trace rest = refl

-- The trace with the entry of the next step.
abbrev pub extended : Machine → Trace → Trace
extended machine trace = trace ++ entry_of (transition machine) (length trace) ∷ []

pub run_loop-suc :
    (fuel maximum : ℕ) (machine : Machine) (trace : Trace)
    → run_loop (suc fuel) maximum machine trace ≡ (
        if leb maximum (length trace)
        then EvaluationResult.exhausted ExhaustionReason.out_of_trace machine trace
        else after
            (transition machine).outcome
            (extended machine trace)
            (λ m. run_loop fuel maximum m (extended machine trace)))
unfolding run_loop
run_loop-suc fuel maximum machine trace =
    ap
      (λ r.
        if leb maximum (length trace)
        then EvaluationResult.exhausted ExhaustionReason.out_of_trace machine trace
        else r)
      (outcome-after (transition machine).outcome _ _)

after-trace :
    (P : Trace → Type 0) (o : Outcome) (trace : Trace) (rest : Machine → EvaluationResult)
    → P trace
    → ((m : Machine) → P (trace_of (rest m)))
    → P (trace_of (after o trace rest))
after-trace P (Outcome.next machine) trace rest h k = k machine
after-trace P (Outcome.returned r) trace rest h k = h
after-trace P (Outcome.suspended request token) trace rest h k = h
after-trace P (Outcome.rejected diagnostic) trace rest h k = h

-- The entries have the numbers `n`, `n + 1`, … as their steps.
abbrev pub IsNumbered : ℕ → Trace → Type 0
IsNumbered n [] = Unit
IsNumbered n (e ∷ trace) = (e.step ≡ n) × IsNumbered (n + 1) trace

IsNumbered-snoc :
    (n : ℕ) (trace : Trace) (e : MachineTraceEntry)
    → IsNumbered n trace
    → e.step ≡ n + length trace
    → IsNumbered n (trace ++ e ∷ [])
IsNumbered-snoc n [] e h s = (omega arith, tt)
IsNumbered-snoc n (d ∷ trace) e (h, hs) s = (h, IsNumbered-snoc (n + 1) trace e hs (omega arith))

length-snoc : (trace : Trace) (e : MachineTraceEntry) → length (trace ++ e ∷ []) ≡ length trace + 1
length-snoc [] e = refl
length-snoc (d ∷ trace) e = omega (arith, length-snoc trace e)

-- A trace that is numbered and within its two bounds.
abbrev pub IsWithin : ℕ → ℕ → Trace → Type 0
IsWithin fuel maximum trace = IsNumbered 0 trace × (length trace ≤ fuel) × (length trace ≤ maximum)

run_loop-IsWithin :
    (fuel maximum : ℕ) (machine : Machine) (trace : Trace) (total : ℕ)
    → IsNumbered 0 trace
    → length trace + fuel ≤ total
    → length trace ≤ maximum
    → IsWithin total maximum (trace_of (run_loop fuel maximum machine trace))
unfolding run_loop entry_of
run_loop-IsWithin zero maximum machine trace total h le room = (h, omega arith, room)
run_loop-IsWithin (suc fuel) maximum machine trace total h le room =
    subst (λ r. IsWithin total maximum (trace_of r)) (sym (run_loop-suc fuel maximum machine trace))
      (elim (Bool-cases (leb maximum (length trace))) [
        | inl full ↦ rw full (h, omega arith, room)
        | inr free ↦
            let e = entry_of (transition machine) (length trace) in
            let longer = length-snoc trace e in
            let h' = IsNumbered-snoc 0 trace e h (omega arith) in
            rw free (
              after-trace (IsWithin total maximum) (transition machine).outcome _ _
                (h', omega (arith, longer), ground (arith, longer))
                (λ m.
                  run_loop-IsWithin fuel maximum m (extended machine trace) total h'
                    (omega (arith, longer)) (ground (arith, longer))))
      ])

-- The trace of an evaluation under valid bounds is numbered from 0 and is no longer than the fuel
-- and the bound on the trace.
pub evaluate-IsWithin :
    (program : Accepted) (bounds : EvaluationBounds) (fuel maximum : ℕ)
    → bound_of bounds.fuel ≡ some fuel
    → bound_of bounds.maximum_trace_entries ≡ some (suc maximum)
    → IsWithin fuel (suc maximum) (trace_of (evaluate program bounds))
unfolding evaluate run_machine run_within
evaluate-IsWithin program bounds fuel maximum hf hm =
    rw (hf, hm)
      (run_loop-IsWithin fuel (suc maximum) (initial_machine program) [] fuel tt (omega arith)
        (omega arith))

after-more :
    (o : Outcome) (trace : Trace) (rest rest' : Machine → EvaluationResult)
    → ((m : Machine) → is_out_of_fuel (rest m) ≡ false → rest' m ≡ rest m)
    → is_out_of_fuel (after o trace rest) ≡ false
    → after o trace rest' ≡ after o trace rest
after-more (Outcome.next machine) trace rest rest' h done = h machine done
after-more (Outcome.returned r) trace rest rest' h done = refl
after-more (Outcome.suspended request token) trace rest rest' h done = refl
after-more (Outcome.rejected diagnostic) trace rest rest' h done = refl

run_loop-more :
    (fuel more maximum : ℕ) (machine : Machine) (trace : Trace)
    → fuel ≤ more
    → is_out_of_fuel (run_loop fuel maximum machine trace) ≡ false
    → run_loop more maximum machine trace ≡ run_loop fuel maximum machine trace
unfolding run_loop
run_loop-more zero more maximum machine trace le done = cc
run_loop-more (suc fuel) zero maximum machine trace le done = absurd (omega arith)
run_loop-more (suc fuel) (suc more) maximum machine trace le done =
    let done' =
      subst (λ r. is_out_of_fuel r ≡ false) (run_loop-suc fuel maximum machine trace) done in
    run_loop-suc more maximum machine trace
    ∙ elim (Bool-cases (leb maximum (length trace))) [
      | inl full ↦ rw full refl
      | inr free ↦ rw free (
          after-more (transition machine).outcome _ _ _
            (λ m. run_loop-more fuel more maximum m (extended machine trace) (omega arith))
            (rw free at done'))
    ]
    ∙ sym (run_loop-suc fuel maximum machine trace)

-- An evaluation under valid bounds that does not run out of fuel gives the same result, trace
-- included, with any more fuel and the same bound on the trace.
pub evaluate-more_fuel :
    (program : Accepted) (bounds larger : EvaluationBounds) (fuel more maximum : ℕ)
    → bound_of bounds.fuel ≡ some fuel
    → bound_of larger.fuel ≡ some more
    → bound_of bounds.maximum_trace_entries ≡ some (suc maximum)
    → bound_of larger.maximum_trace_entries ≡ some (suc maximum)
    → fuel ≤ more
    → is_out_of_fuel (evaluate program bounds) ≡ false
    → evaluate program larger ≡ evaluate program bounds
unfolding evaluate run_machine run_within
evaluate-more_fuel program bounds larger fuel more maximum hf hl hm hn le done =
    rw (hf, hl, hm, hn)
      (run_loop-more fuel more (suc maximum) (initial_machine program) [] le (rw (hf, hm) at done))

-- ===== src/Kernel/Machine/Resume.antt =====
-- src/kernel-calculus/machine.ts: external suspensions in custody, and `resume`.
-- A host value is the content of the weak collections `externalKnown`, `externalState` and
-- `externalLive`: a token object is its number in the list of suspensions.
pub mod Laws
use semantic_systems.Base.{
  ℕ, zero, suc, ◌+◌, Bool, true, false, ◌&&◌, List, [], ◌∷◌, ◌++◌, Option, none, some, leb, ltb,
  ◌||◌, length, get_elem?, if◌then◌else◌,
}
use semantic_systems.Kernel.Types.{ValueType}
use semantic_systems.Kernel.Term.{is_safe_integer}
use semantic_systems.Kernel.Diagnostic.{Segment, TermPath}
use semantic_systems.Kernel.Checker.{Accepted}
use semantic_systems.Kernel.Machine.{
  RuntimeValue, RuntimeResult, Control, Machine, ExternalSuspension, runtime_value_has_type,
  is_live, consume, control_path, EvaluationBounds, EvaluationResult, Trace, run_machine, evaluate,
}

pub record ExternalSuspensionState : Type 0 where
  pub token : ExternalSuspension
  pub trace : Trace

pub record Host : Type 0 where
  pub suspensions : List ExternalSuspensionState
  pub live : List ℕ

-- The constructor of a suspension enters it into the three collections.
unfoldable pub admit : Host → EvaluationResult → Host
admit host (EvaluationResult.suspended request token trace) = record {
  suspensions = host.suspensions ++ record { token = token; trace = trace } ∷ [];
  live = length host.suspensions ∷ host.live;
}
admit host _ = host

-- The count of a node, with the limits on nodes and depth.
abbrev pub count_node : ℕ → ℕ → Option ℕ
count_node nodes depth = if ltb 4096 (nodes + 1) || ltb 64 depth then none else some (nodes + 1)

-- `isRuntimeValueWithinBounds`: the nodes seen after the value, or `none` for a refusal. A value of
-- the model is no cycle and has exactly the fields of its kind.
unfoldable pub inspect_value : RuntimeValue → ℕ → ℕ → Option ℕ
inspect_value RuntimeValue.unit nodes depth = count_node nodes depth
inspect_value (RuntimeValue.bool b) nodes depth = count_node nodes depth
inspect_value (RuntimeValue.int n) nodes depth =
    if is_safe_integer n then count_node nodes depth else none
inspect_value (RuntimeValue.pair first second) nodes depth = elim (count_node nodes depth) [
  | none ↦ none
  | some nodes' ↦ elim (inspect_value first nodes' (depth + 1)) [
    | none ↦ none
    | some nodes'' ↦ inspect_value second nodes'' (depth + 1)
  ]
]
inspect_value (RuntimeValue.thunk body env effects type) nodes depth = count_node nodes depth

-- `isRuntimeValue(value) ? snapshotRuntimeValue(value) : undefined`; the snapshot copies a value.
unfoldable pub owned_value : RuntimeValue → Option RuntimeValue
unfolding inspect_value
owned_value v = elim (inspect_value v 0 0) [ none ↦ none | some nodes ↦ some v ]

unfoldable pub owned_value_has_type : Option RuntimeValue → ValueType → Option RuntimeValue
owned_value_has_type none type = none
owned_value_has_type (some v) type = if runtime_value_has_type v type then some v else none

-- The one use of a token: the machine goes on with the value.
unfoldable pub apply_token :
    Host → ℕ → ExternalSuspensionState → RuntimeValue → EvaluationBounds → Host × EvaluationResult
unfolding admit consume
apply_token host id state v bounds =
    let m = state.token.machine in
    let result =
      run_machine
        (record m { control = Control.result (RuntimeResult.value v) (control_path m.control) })
        bounds state.trace in
    (admit (record host { live = consume id host.live }) result, result)

-- The rejections of `resume` and its run, for the state of a token in custody.
unfoldable pub resume_state :
    Host
    → ℕ
    → ExternalSuspensionState
    → Option RuntimeValue
    → EvaluationBounds
    → Host × EvaluationResult
unfolding apply_token
resume_state host id state none bounds = (
  host,
  EvaluationResult.runtime_rejected
      (record {
        code = "resumption.result-type-mismatch";
        rule = "machine.external-resume";
        path = Segment.value ∷ [];
      })
      state.trace,
)
resume_state host id state (some v) bounds =
    if is_live id host.live then apply_token host id state v bounds else (
      host,
      EvaluationResult.runtime_rejected
          (record { code = "resumption.already-used"; rule = "machine.external-resume"; path = [] })
          state.trace,
    )

unfoldable pub resume_known :
    Host
    → ℕ
    → Option ExternalSuspensionState
    → RuntimeValue
    → EvaluationBounds
    → Host × EvaluationResult
unfolding resume_state owned_value_has_type owned_value
resume_known host id none v bounds = (
  host,
  EvaluationResult.runtime_rejected
      (record { code = "resumption.not-custodied"; rule = "machine.external-resume"; path = [] })
      [],
)
resume_known host id (some state) v bounds =
    resume_state host id state (owned_value_has_type (owned_value v) state.token.result_type) bounds

unfoldable pub resume : Host → ℕ → RuntimeValue → EvaluationBounds → Host × EvaluationResult
unfolding resume_known
resume host id v bounds = resume_known host id (get_elem? host.suspensions id) v bounds

-- `evaluate`, with the host that its suspension is entered into.
unfoldable pub start : Host → Accepted → EvaluationBounds → Host × EvaluationResult
unfolding admit
start host program bounds = let result = evaluate program bounds in (admit host result, result)

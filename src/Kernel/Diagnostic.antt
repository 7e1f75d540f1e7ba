-- ===== src/Kernel/Diagnostic.antt =====
-- src/kernel-calculus/checker.ts: diagnostics, and the exception `CheckFailure` as a result.
-- Of a diagnostic the code, the rule and the path are kept, and not the message and the facts.
pub mod Ensures
pub mod External
use semantic_systems.Base.{ℕ, String, List, ◌∷◌, []}
use semantic_systems.Kernel.Row.{Text}

-- What a template such as `${path}.body` adds to a path.
pub data Segment : Type 0 where
  first second body value bound computation argument thunk : Segment
  operation_clauses return_clause_body : Segment
  operation_clause_body : ℕ → Segment
  operation_clause : Text → Segment
  signature_operation : ℕ → Segment
  bounds fuel maximum_trace_entries claimed_effects : Segment

-- The innermost segment stands first; `[]` is "$".
abbrev pub TermPath : Type 0
TermPath = List Segment

pub record Diagnostic : Type 0 where
  pub code : String
  pub rule : String
  pub path : TermPath

pub data Result {ℓ} (A : Type ℓ) : Type ℓ where
  ok : A → Result A
  err : Diagnostic → Result A

unfoldable pub fail {ℓ} : {A : Type ℓ} → String → String → TermPath → Result A
fail code rule path = err (record { code = code; rule = rule; path = path })

infixl 5 ◌>>=◌ ◌>>◌
unfoldable pub ◌>>=◌ {ℓ κ} : {A : Type ℓ} {B : Type κ} → Result A → (A → Result B) → Result B
err failure >>= next = err failure
ok found >>= next = next found

-- A test that gives nothing but its failure, and what comes after it.
abbrev pub ◌>>◌ {ℓ} : {B : Type ℓ} → Result (Unit {0}) → Result B → Result B
test >> after = test >>= λ _. after

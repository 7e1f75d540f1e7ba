-- ===== src/Kernel/Signature/Laws.antt =====
-- In a valid signature the checker's table and the machine's search find the same declaration, and
-- the sorted operations of a label are those that the search finds.
use semantic_systems.Base.{
  ℕ, ◌+◌, ◌≡◌, refl, Bool, true, false, ◌||◌, List, [], ◌∷◌, map, none, some, arith, filter,
  Bool-cases, inl, inr,
}
use semantic_systems.Kernel.Row.{Text, text_eq, includes}
use semantic_systems.Kernel.Row.Equality.{text_eq→eq, text_eq_refl, includes-sort_by}
use semantic_systems.Kernel.Term.{OperationDeclaration, OperationSignature}
use semantic_systems.Kernel.Signature.{
  declares, operation_declaration, operations_get, seen_before, signature_diagnostic, validate_from,
  validate_signature, sort_texts, expected_operations,
}

-- No declaration of the list is for the key.
abbrev IsFree : Text → Text → List OperationDeclaration → Type 0
IsFree label operation [] = Unit
IsFree label operation (d ∷ ds) = (declares label operation d ≡ false) × IsFree label operation ds

declares_trans :
    (l o : Text) (d e : OperationDeclaration)
    → declares l o d ≡ true
    → declares l o e ≡ true
    → declares e.label e.operation d ≡ true
unfolding declares
declares_trans l o d e p q = ground (
  arith,
  text_eq→eq d.label l,
  text_eq→eq d.operation o,
  text_eq→eq e.label l,
  text_eq→eq e.operation o,
  text_eq_refl l,
  text_eq_refl o,
)

abbrev any_declares : Text → Text → List OperationDeclaration → Bool
any_declares l o [] = false
any_declares l o (d ∷ ds) = declares l o d || any_declares l o ds

seen_before-any_declares :
    (l o : Text) (seen : List OperationDeclaration) (e : OperationDeclaration)
    → any_declares l o seen ≡ true
    → declares l o e ≡ true
    → seen_before seen e ≡ true
unfolding seen_before
seen_before-any_declares l o [] e s p = s
seen_before-any_declares l o (d ∷ seen) e s p =
    ground (arith, declares_trans l o d e, seen_before-any_declares l o seen e)

signature_diagnostic-none :
    (i : ℕ) (seen : List OperationDeclaration) (e : OperationDeclaration)
    → signature_diagnostic i seen e ≡ none
    → seen_before seen e ≡ false
unfolding signature_diagnostic
signature_diagnostic-none i seen e h = ground arith

validate_from-step :
    (i : ℕ) (seen : List OperationDeclaration) (e : OperationDeclaration)
    (rest : OperationSignature)
    → validate_from i seen (e ∷ rest) ≡ none
    → (seen_before seen e ≡ false) × (validate_from (i + 1) (e ∷ seen) rest ≡ none)
unfolding validate_from
validate_from-step i seen e rest v = ground (arith, signature_diagnostic-none i seen e)

-- A key that was seen before does not stand in the rest of a valid signature.
validate_from-IsFree :
    (l o : Text) (i : ℕ) (seen : List OperationDeclaration) (rest : OperationSignature)
    → any_declares l o seen ≡ true
    → validate_from i seen rest ≡ none
    → IsFree l o rest
validate_from-IsFree l o i seen [] s v = tt
validate_from-IsFree l o i seen (e ∷ rest) s v =
    let (fresh, v') = validate_from-step i seen e rest v in
    elim (Bool-cases (declares l o e)) [
      | inl p ↦ absurd (cc (seen_before-any_declares l o seen e s p))
      | inr p ↦ (p, validate_from-IsFree l o (i + 1) (e ∷ seen) rest (rw (p, s)) v')
    ]

get_free : (l o : Text) (sig : OperationSignature) → IsFree l o sig → operations_get sig l o ≡ none
unfolding operations_get
get_free l o [] f = refl
get_free l o (d ∷ ds) f = rw (get_free l o ds f.1, f.0)

get-find :
    (l o : Text) (i : ℕ) (seen : List OperationDeclaration) (sig : OperationSignature)
    → validate_from i seen sig ≡ none
    → operations_get sig l o ≡ operation_declaration sig l o
unfolding operations_get operation_declaration
get-find l o i seen [] v = refl
get-find l o i seen (d ∷ ds) v =
    let (fresh, v') = validate_from-step i seen d ds v in
    elim (Bool-cases (declares l o d)) [
      | inl p ↦
          rw (p, get_free l o ds (validate_from-IsFree l o (i + 1) (d ∷ seen) ds (rw p) v'), p)
      | inr p ↦ ground (arith, get-find l o (i + 1) (d ∷ seen) ds v')
    ]

-- In a signature that `validateSignature` accepts, the table `#operations` of the checker and the
-- search of the machine find the same declaration for each label and operation.
pub operations_get-operation_declaration :
    (signature : OperationSignature) (label operation : Text)
    → validate_signature signature ≡ none
    → operations_get signature label operation ≡ operation_declaration signature label operation
unfolding validate_signature
operations_get-operation_declaration signature label operation v =
    get-find label operation 0 [] signature v

declared-includes :
    (sig : OperationSignature) (l o : Text) (d : OperationDeclaration)
    → operation_declaration sig l o ≡ some d
    → includes (map (λ e. e.operation) (filter (λ e. text_eq e.label l) sig)) o ≡ true
unfolding operation_declaration includes filter
declared-includes [] l o d h = cc
declared-includes (e ∷ sig) l o d h = ground (arith, declared-includes sig l o d)

-- An operation that is declared under a label is among those that a handler must name.
pub includes-expected_operations :
    (sig : OperationSignature) (l o : Text) (d : OperationDeclaration)
    → operation_declaration sig l o ≡ some d
    → includes (expected_operations sig l) o ≡ true
unfolding expected_operations sort_texts
includes-expected_operations sig l o d h = rw includes-sort_by (declared-includes sig l o d h)

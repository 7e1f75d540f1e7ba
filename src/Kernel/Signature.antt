-- ===== src/Kernel/Signature.antt =====
-- src/kernel-calculus/checker.ts: `validateSignature` and the tables that the checker makes of a
-- signature; machine.ts: `operationDeclaration`.
pub mod Laws
use semantic_systems.Base.{
  ℕ, ◌+◌, ◌-◌, ◌/◌, ◌%◌, Bool, true, false, ◌&&◌, ◌||◌, List, [], ◌∷◌, ◌++◌, map, Option, none,
  some, ltb, leb, ◌==◌, if◌then◌else◌, sort_by, filter, find,
}
use semantic_systems.Kernel.Row.{Text, text_eq, text_le}
use semantic_systems.Kernel.Term.{OperationDeclaration, OperationSignature}
use semantic_systems.Kernel.Diagnostic.{Diagnostic, Segment}

-- `declaration.label === label && declaration.operation === operation`; so too for the two keys
-- of `operationKey`, which are equal when the pairs are.
unfoldable pub declares : Text → Text → OperationDeclaration → Bool
unfolding text_eq
declares label operation declaration =
    text_eq declaration.label label && text_eq declaration.operation operation

-- `signature.operations.find(…)`.
unfoldable pub operation_declaration :
    OperationSignature → Text → Text → Option OperationDeclaration
unfolding find declares
operation_declaration signature label operation = find (declares label operation) signature

-- `#operations.get(operationKey(label, operation))`: in `new Map(entries)` the last entry counts.
unfoldable pub operations_get : OperationSignature → Text → Text → Option OperationDeclaration
unfolding declares
operations_get [] label operation = none
operations_get (declaration ∷ rest) label operation = elim (operations_get rest label operation) [
  | some later ↦ some later
  | none ↦ if declares label operation declaration then some declaration else none
]

-- The white space and line ends that `trim` removes.
unfoldable pub is_white_space : ℕ → Bool
is_white_space c =
    leb 9 c && leb c 13
    || c == 32
    || c == 160
    || c == 0x1680
    || leb 0x2000 c && leb c 0x200a
    || c == 0x2028
    || c == 0x2029
    || c == 0x202f
    || c == 0x205f
    || c == 0x3000
    || c == 0xfeff

-- `text.trim().length === 0`.
unfoldable pub is_blank : Text → Bool
unfolding is_white_space
is_blank [] = true
is_blank (c ∷ text) = is_white_space c && is_blank text

unfoldable pub seen_before : List OperationDeclaration → OperationDeclaration → Bool
unfolding declares
seen_before [] declaration = false
seen_before (earlier ∷ seen) declaration =
    declares declaration.label declaration.operation earlier || seen_before seen declaration

unfoldable pub signature_diagnostic :
    ℕ → List OperationDeclaration → OperationDeclaration → Option Diagnostic
unfolding is_blank seen_before
signature_diagnostic index seen declaration =
    if is_blank declaration.label || is_blank declaration.operation
    then some (record {
      code = "signature.empty-name";
      rule = "signature";
      path = Segment.signature_operation index ∷ [];
    })
    else if seen_before seen declaration
    then some (record {
      code = "signature.duplicate-operation";
      rule = "signature";
      path = Segment.signature_operation index ∷ [];
    })
    else none

-- The loop of `validateSignature` from `index` on, with the declarations before it.
unfoldable pub validate_from :
    ℕ → List OperationDeclaration → OperationSignature → Option Diagnostic
unfolding signature_diagnostic
validate_from index seen [] = none
validate_from index seen (declaration ∷ rest) = elim (signature_diagnostic index seen declaration) [
  | some diagnostic ↦ some diagnostic
  | none ↦ validate_from (index + 1) (declaration ∷ seen) rest
]

unfoldable pub validate_signature : OperationSignature → Option Diagnostic
unfolding validate_from
validate_signature signature = validate_from 0 [] signature

-- The UTF-16 code units of a text, by which `sort()` with no comparison orders texts.
unfoldable pub code_units : Text → List ℕ
code_units [] = []
code_units (c ∷ text) =
    (if ltb c 0x10000
      then c ∷ []
      else (0xd800 + (c - 0x10000) / 0x400) ∷ (0xdc00 + (c - 0x10000) % 0x400) ∷ [])
    ++ code_units text

unfoldable pub code_unit_le : Text → Text → Bool
unfolding code_units text_le
code_unit_le left right = text_le (code_units left) (code_units right)

unfoldable pub sort_texts : List Text → List Text
unfolding code_unit_le sort_by
sort_texts texts = sort_by code_unit_le texts

-- The operations that a handler for the label must name, in order.
unfoldable pub expected_operations : OperationSignature → Text → List Text
unfolding filter text_eq sort_texts
expected_operations signature label = sort_texts (
    map (λ declaration. declaration.operation)
      (filter (λ declaration. text_eq declaration.label label) signature))

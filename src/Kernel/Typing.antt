-- ===== src/Kernel/Typing.antt =====
-- A declarative typing of checked terms, apart from src/kernel-calculus/checker.ts: which values
-- and computations have which types, with no usage and no effects, by one rule for each term.
use semantic_systems.Base.{ℕ, ◌≡◌, Bool, true, ◌∷◌, Option, none, some, get_elem?, if◌then◌else◌}
use semantic_systems.Kernel.Grade.{Grade}
use semantic_systems.Kernel.Row.{Text, EffectRow, text_eq}
use semantic_systems.Kernel.Types.{ValueType, ComputationType}
use semantic_systems.Kernel.Term.{
  Number, is_safe_integer, ValueTerm, ComputationTerm, Clauses, OperationDeclaration,
  OperationSignature,
}
use semantic_systems.Kernel.Signature.{operation_declaration}
use semantic_systems.Kernel.Checker.{Context, Resumptions}

-- machine.ts: `operationClauses.find(…)`.
unfoldable pub find_clause : {A : Type 0} → Text → Clauses A → Option (ComputationTerm A)
unfolding text_eq
find_clause name Clauses.clauses_end = none
find_clause name (Clauses.clause other body rest) =
    if text_eq other name then some body else find_clause name rest

-- There is a clause for each operation of the label.
abbrev pub Covers : OperationSignature → Text → Clauses ValueType → Type 0
Covers sig label clauses =
    (name : Text) (d : OperationDeclaration)
    → operation_declaration sig label name ≡ some d
    → (body : ComputationTerm ValueType) × (find_clause name clauses ≡ some body)

mutual
  pub data ValueTyping (sig : OperationSignature)
      : Context → Resumptions → ValueTerm ValueType → ValueType → Type 0 where
    variable :
        {Γ : Context} {R : Resumptions} {i : ℕ} {a : ValueType}
        → get_elem? Γ i ≡ some a
        → ValueTyping sig Γ R (ValueTerm.variable i) a
    unit : {Γ : Context} {R : Resumptions} → ValueTyping sig Γ R ValueTerm.unit ValueType.unit
    bool :
        {Γ : Context} {R : Resumptions} {b : Bool}
        → ValueTyping sig Γ R (ValueTerm.bool b) ValueType.bool
    int :
        {Γ : Context} {R : Resumptions} {n : Number}
        → is_safe_integer n ≡ true
        → ValueTyping sig Γ R (ValueTerm.int n) ValueType.int
    pair :
        {Γ : Context} {R : Resumptions} {v w : ValueTerm ValueType} {a b : ValueType}
        → ValueTyping sig Γ R v a
        → ValueTyping sig Γ R w b
        → ValueTyping sig Γ R (ValueTerm.pair v w) (ValueType.pair a b)
    thunk :
        {Γ : Context} {R : Resumptions} {m : ComputationTerm ValueType} {e : EffectRow}
        {c : ComputationType}
        → ComputationTyping sig Γ R m c
        → ValueTyping sig Γ R (ValueTerm.thunk (ValueType.thunk e c) m) (ValueType.thunk e c)

  pub data ComputationTyping (sig : OperationSignature)
      : Context → Resumptions → ComputationTerm ValueType → ComputationType → Type 0 where
    return :
        {Γ : Context} {R : Resumptions} {g : Grade} {v : ValueTerm ValueType} {a : ValueType}
        → ValueTyping sig Γ R v a
        → ComputationTyping sig Γ R (ComputationTerm.return g v) (ComputationType.return g a)
    let_in :
        {Γ : Context} {R : Resumptions} {m n : ComputationTerm ValueType} {g : Grade}
        {a : ValueType} {c : ComputationType}
        → ComputationTyping sig Γ R m (ComputationType.return g a)
        → ComputationTyping sig (a ∷ Γ) R n c
        → ComputationTyping sig Γ R (ComputationTerm.let_in m n) c
    force :
        {Γ : Context} {R : Resumptions} {v : ValueTerm ValueType} {e : EffectRow}
        {c : ComputationType}
        → ValueTyping sig Γ R v (ValueType.thunk e c)
        → ComputationTyping sig Γ R (ComputationTerm.force v) c
    lambda :
        {Γ : Context} {R : Resumptions} {g : Grade} {e : EffectRow} {m : ComputationTerm ValueType}
        {a : ValueType} {c : ComputationType}
        → ComputationTyping sig (a ∷ Γ) R m c
        → ComputationTyping sig Γ R
            (ComputationTerm.lambda a g m)
            (ComputationType.function a g e c)
    apply :
        {Γ : Context} {R : Resumptions} {m : ComputationTerm ValueType} {v : ValueTerm ValueType}
        {a : ValueType} {g : Grade} {e : EffectRow} {c : ComputationType}
        → ComputationTyping sig Γ R m (ComputationType.function a g e c)
        → ValueTyping sig Γ R v a
        → ComputationTyping sig Γ R (ComputationTerm.apply m v) c
    operation :
        {Γ : Context} {R : Resumptions} {g : Grade} {label name : Text} {v : ValueTerm ValueType}
        {b : ValueType} (d : OperationDeclaration)
        → operation_declaration sig label name ≡ some d
        → ValueTyping sig Γ R v d.argument_type
        → b ≡ d.result_type
        → ComputationTyping sig Γ R
            (ComputationTerm.operation g label name v)
            (ComputationType.return g b)
    handle :
        {Γ : Context} {R : Resumptions} {label : Text} {m r : ComputationTerm ValueType}
        {clauses : Clauses ValueType} {g : Grade} {a : ValueType} {c : ComputationType}
        → ComputationTyping sig Γ R m (ComputationType.return g a)
        → ComputationTyping sig (a ∷ Γ) R r c
        → ClausesTyping sig label c Γ R clauses
        → Covers sig label clauses
        → ComputationTyping sig Γ R (ComputationTerm.handle label m r clauses) c
    resume :
        {Γ : Context} {R : Resumptions} {i : ℕ} {v : ValueTerm ValueType} {a : ValueType}
        {c : ComputationType} {e : EffectRow}
        → get_elem? R i ≡ some (record { input = a; output = c; effects = e })
        → ValueTyping sig Γ R v a
        → ComputationTyping sig Γ R (ComputationTerm.resume i v) c

  -- The clauses of a handler for the label whose return clause has the type `c`.
  pub data ClausesTyping (sig : OperationSignature)
      : Text → ComputationType → Context → Resumptions → Clauses ValueType → Type 0 where
    clauses_end :
        {label : Text} {c : ComputationType} {Γ : Context} {R : Resumptions}
        → ClausesTyping sig label c Γ R Clauses.clauses_end
    clause :
        {label : Text} {c : ComputationType} {Γ : Context} {R : Resumptions} {name : Text}
        {m : ComputationTerm ValueType} {rest : Clauses ValueType} (d : OperationDeclaration)
        (e : EffectRow)
        → operation_declaration sig label name ≡ some d
        → ComputationTyping sig
            (d.argument_type ∷ Γ)
            (record { input = d.result_type; output = c; effects = e } ∷ R)
            m
            c
        → ClausesTyping sig label c Γ R rest
        → ClausesTyping sig label c Γ R (Clauses.clause name m rest)

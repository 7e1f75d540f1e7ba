-- ===== src/Kernel/Diagnostic/Ensures.antt =====
-- A postcondition of a result that need not be there, with a rule for `>>=`.
use semantic_systems.Kernel.Diagnostic.{Diagnostic, Result, ok, err, ◌>>=◌}

pub data Ensures {ℓ} {A : Type ℓ} (P : A → Type ℓ) : Result A → Type ℓ where
  returns : {a : A} → P a → Ensures P (ok a)
  fails : {e : Diagnostic} → Ensures P (err e)

infixl 1 ◌⟫◌
pub ◌⟫◌ {ℓ κ} :
    {A : Type ℓ} {B : Type κ} {P : A → Type ℓ} {Q : B → Type κ} {r : Result A} {f : A → Result B}
    → Ensures P r
    → ((a : A) → P a → Ensures Q (f a))
    → Ensures Q (r >>= f)
unfolding ◌>>=◌
returns h ⟫ k = k _ h
fails ⟫ k = fails

pub of_ok {ℓ} : {A : Type ℓ} {P : A → Type ℓ} {a : A} → Ensures P (ok a) → P a
of_ok (returns h) = h

pub trivially {ℓ} : {A : Type ℓ} (r : Result A) → Ensures (λ _. Unit) r
trivially (ok a) = returns tt
trivially (err e) = fails

pub weaken {ℓ} :
    {A : Type ℓ} {P Q : A → Type ℓ} {r : Result A}
    → ((a : A) → P a → Q a)
    → Ensures P r
    → Ensures Q r
weaken k (returns h) = returns (k _ h)
weaken k fails = fails

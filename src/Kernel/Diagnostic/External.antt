-- ===== src/Kernel/Diagnostic/External.antt =====
-- A postcondition of a result whose failure, if it is one, is not the `checker.invalid-input` that
-- src/kernel-calculus/checker.ts makes of an exception that no rule of the checker throws.
use Prim.Native.String.{compare}
use Prim.Native.Nat.{Ordering}
use semantic_systems.Base.{◌≡◌, Bool, true, false, String}
use semantic_systems.Kernel.Diagnostic.{TermPath, Diagnostic, Result, ok, err, ◌>>=◌, fail}

-- `code === "checker.invalid-input"`.
abbrev pub is_internal : String → Bool
is_internal code = elim (compare code "checker.invalid-input") [ Ordering.eq ↦ true | _ ↦ false ]

pub data External {ℓ} {A : Type ℓ} (P : A → Type 0) : Result A → Type ℓ where
  returns_with : {a : A} → P a → External P (ok a)
  fails_outside : {e : Diagnostic} → is_internal e.code ≡ false → External P (err e)

infixl 1 ◌⊳◌
pub ◌⊳◌ {ℓ κ} :
    {A : Type ℓ} {B : Type κ} {P : A → Type 0} {Q : B → Type 0} {r : Result A} {f : A → Result B}
    → External P r
    → ((a : A) → P a → External Q (f a))
    → External Q (r >>= f)
unfolding ◌>>=◌
returns_with h ⊳ k = k _ h
fails_outside e ⊳ k = fails_outside e

pub of_err {ℓ} :
    {A : Type ℓ} {P : A → Type 0} {e : Diagnostic} → External P (err e) → is_internal e.code ≡ false
of_err (fails_outside h) = h

pub fail-External {ℓ} :
    {A : Type ℓ} {P : A → Type 0} (code rule : String) (path : TermPath)
    → is_internal code ≡ false
    → External {A = A} P (fail code rule path)
unfolding fail
fail-External code rule path h = fails_outside h

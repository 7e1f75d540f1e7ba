-- ===== src/Base/Elements.antt =====
-- Reading a list at a number, and lists that have grown at their end.
use mathlib.Core.Path.{◌≡◌, refl, subst}
use mathlib.Core.Logic.{◌⊎◌, inl, inr}
use mathlib.Core.List.{List, [], ◌∷◌, ◌++◌}
use mathlib.Core.Option.{none, some}
use native.Mathlib.Omega.{arith}
use Prim.Native.Nat.{ℕ, zero, suc, ◌+◌, ◌<◌}
use semantic_systems.Base.Lists.{length, get_elem?, All}
use semantic_systems.Base.Tests.{some-injective}

pub none-some {ℓ} : {A : Type ℓ} {a : A} → none ≡ some a → ⊥
none-some e = cc

module _ {ℓ} {A : Type ℓ} where
  pub get_elem?-length : (xs : List A) (n : ℕ) (x : A) → get_elem? xs n ≡ some x → n < length xs
  get_elem?-length [] n x e = absurd (none-some e)
  get_elem?-length (y ∷ xs) zero x e = omega arith
  get_elem?-length (y ∷ xs) (suc n) x e = omega (arith, get_elem?-length xs n x e)

  pub get_elem?-below : (xs : List A) (n : ℕ) → n < length xs → (x : A) × (get_elem? xs n ≡ some x)
  get_elem?-below [] n lt = absurd (omega arith)
  get_elem?-below (y ∷ xs) zero lt = (y, refl)
  get_elem?-below (y ∷ xs) (suc n) lt = get_elem?-below xs n (omega arith)

  pub get_elem?-append :
      (xs ys : List A) (n : ℕ) (x : A) → get_elem? xs n ≡ some x → get_elem? (xs ++ ys) n ≡ some x
  get_elem?-append [] ys n x e = absurd (none-some e)
  get_elem?-append (y ∷ xs) ys zero x e = e
  get_elem?-append (y ∷ xs) ys (suc n) x e = get_elem?-append xs ys n x e

  -- The element that was pushed.
  pub get_elem?-pushed : (xs : List A) (x : A) → get_elem? (xs ++ x ∷ []) (length xs) ≡ some x
  get_elem?-pushed [] x = refl
  get_elem?-pushed (y ∷ xs) x = get_elem?-pushed xs x

  pub length-pushed : (xs : List A) (x : A) → length (xs ++ x ∷ []) ≡ length xs + 1
  length-pushed [] x = refl
  length-pushed (y ∷ xs) x = omega (arith, length-pushed xs x)

  -- An element after a push is an old one or the new one.
  pub get_elem?-cases :
      (xs : List A) (x y : A) (n : ℕ)
      → get_elem? (xs ++ x ∷ []) n ≡ some y
      → (get_elem? xs n ≡ some y) ⊎ ((n ≡ length xs) × (x ≡ y))
  get_elem?-cases [] x y zero e = inr (refl, some-injective e)
  get_elem?-cases [] x y (suc n) e = absurd (none-some e)
  get_elem?-cases (z ∷ xs) x y zero e = inl e
  get_elem?-cases (z ∷ xs) x y (suc n) e = elim (get_elem?-cases xs x y n e) [
    | inl old ↦ inl old
    | inr (at_end, same) ↦ inr (omega arith, same)
  ]

  pub All-append {κ} : (P : A → Type κ) (xs ys : List A) → All P xs → All P ys → All P (xs ++ ys)
  All-append P [] ys h k = k
  All-append P (x ∷ xs) ys (h, hs) k = (h, All-append P xs ys hs k)

  pub All-map {κ μ} :
      (P : A → Type κ) (Q : A → Type μ) (xs : List A) → ((x : A) → P x → Q x) → All P xs → All Q xs
  All-map P Q [] f h = tt
  All-map P Q (x ∷ xs) f (h, hs) = (f x h, All-map P Q xs f hs)

  pub All-at {κ} :
      (P : A → Type κ) (xs : List A) (n : ℕ) (x : A) → All P xs → get_elem? xs n ≡ some x → P x
  All-at P [] n x h e = absurd (none-some e)
  All-at P (y ∷ xs) zero x (h, hs) e = subst P (some-injective e) h
  All-at P (y ∷ xs) (suc n) x (h, hs) e = All-at P xs n x hs e

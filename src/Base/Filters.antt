-- ===== src/Base/Filters.antt =====
-- Lists that are filtered, sorted and tested.
use mathlib.Core.Path.{◌≡◌, refl}
use mathlib.Core.Logic.{inl, inr}
use mathlib.Core.Bool.{Bool, true, false}
use mathlib.Core.List.{List, [], ◌∷◌, ◌++◌, map}
use native.Mathlib.Omega.{arith}
use Prim.Native.Nat.{◌+◌}
use semantic_systems.Base.Lists.{length, filter, insert_by, sort_by, every, All}
use semantic_systems.Base.Tests.{Bool-cases, if◌then◌else◌}

cons-nil {ℓ} : {A : Type ℓ} {x : A} {xs : List A} → (x ∷ xs) ≡ [] → ⊥
cons-nil e = cc

module _ {ℓ} {A : Type ℓ} where
  pub All-filter {κ} :
      (P : A → Type κ) (p : A → Bool) (xs : List A) → All P xs → All P (filter p xs)
  unfolding filter
  All-filter P p [] h = tt
  All-filter P p (x ∷ xs) (h, hs) = elim (Bool-cases (p x)) [
    | inl keep ↦ rw (filter, keep) (h, All-filter P p xs hs)
    | inr drop ↦ rw (filter, drop) (All-filter P p xs hs)
  ]

  pub All-insert_by {κ} :
      (P : A → Type κ) (le : A → A → Bool) (x : A) (xs : List A)
      → P x
      → All P xs
      → All P (insert_by le x xs)
  unfolding insert_by
  All-insert_by P le x [] h hs = (h, tt)
  All-insert_by P le x (y ∷ ys) h (k, ks) = elim (Bool-cases (le x y)) [
    | inl before ↦ rw (insert_by, before) (h, (k, ks))
    | inr after ↦ rw (insert_by, after) (k, All-insert_by P le x ys h ks)
  ]

  pub All-sort_by {κ} :
      (P : A → Type κ) (le : A → A → Bool) (xs : List A) → All P xs → All P (sort_by le xs)
  unfolding sort_by
  All-sort_by P le [] h = tt
  All-sort_by P le (x ∷ xs) (h, hs) =
      All-insert_by P le x (sort_by le xs) h (All-sort_by P le xs hs)

  insert_by-cons : (le : A → A → Bool) (x : A) (xs : List A) → insert_by le x xs ≡ [] → ⊥
  unfolding insert_by
  insert_by-cons le x [] e = cc
  insert_by-cons le x (y ∷ ys) e = elim (Bool-cases (le x y)) [
    | inl before ↦ cons-nil (rw (insert_by, before) at e)
    | inr after ↦ cons-nil (rw (insert_by, after) at e)
  ]

  -- What is sorted to nothing is nothing, and what is filtered to nothing fails the test.
  pub sort_by-nil : (le : A → A → Bool) (xs : List A) → sort_by le xs ≡ [] → xs ≡ []
  unfolding sort_by
  sort_by-nil le [] e = refl
  sort_by-nil le (x ∷ xs) e = absurd (insert_by-cons le x (sort_by le xs) e)

  pub filter-nil : (p : A → Bool) (xs : List A) → filter p xs ≡ [] → All (λ x. p x ≡ false) xs
  unfolding filter
  filter-nil p [] e = tt
  filter-nil p (x ∷ xs) e = elim (Bool-cases (p x)) [
    | inl keep ↦ absurd (cons-nil (rw (filter, keep) at e))
    | inr drop ↦ (drop, filter-nil p xs (rw (filter, drop) at e))
  ]

  pub map-nil {κ} : {B : Type κ} (f : A → B) (xs : List A) → map f xs ≡ [] → xs ≡ []
  map-nil f [] e = refl
  map-nil f (x ∷ xs) e = absurd (cons-nil e)

  -- How many elements pass the test, after a push.
  pub filter-pushed :
      (p : A → Bool) (xs : List A) (x : A)
      → length (filter p (xs ++ x ∷ [])) ≡ length (filter p xs) + (if p x then 1 else 0)
  unfolding filter
  filter-pushed p [] x = elim (Bool-cases (p x)) [
    | inl keep ↦ rw keep (omega arith)
    | inr drop ↦ rw drop (omega arith)
  ]
  filter-pushed p (y ∷ xs) x = elim (Bool-cases (p y)) [
    | inl keep ↦ rw (filter, keep) (omega (arith, filter-pushed p xs x))
    | inr drop ↦ rw (filter, drop) (filter-pushed p xs x)
  ]

  pub every-All : (p : A → Bool) (xs : List A) → All (λ x. p x ≡ true) xs → every p xs ≡ true
  unfolding every
  every-All p [] h = refl
  every-All p (x ∷ xs) (h, hs) = rw h (every-All p xs hs)

  pub All-mapped {κ μ} :
      {B : Type μ} (P : B → Type κ) (f : A → B) (xs : List A)
      → All (λ x. P (f x)) xs
      → All P (map f xs)
  All-mapped P f [] h = tt
  All-mapped P f (x ∷ xs) (h, hs) = (h, All-mapped P f xs hs)

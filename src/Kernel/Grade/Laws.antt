-- ===== src/Kernel/Grade/Laws.antt =====
-- The laws of grades and usage vectors.
use semantic_systems.Base.{
  ℕ, zero, suc, ◌≡◌, ◌↔◌, ◌∙◌, ap, sym, none, refl, true, false, not, ◌&&◌, [], ◌∷◌, some, arith,
  length, Option-cases, inl, inr,
}
use mathlib.Core.Option
use semantic_systems.Kernel.Grade.{
  Grade, never, once, grade_le, grade_eq, add_grades, multiply_grades, at_least_once, Usage,
  zero_usage, basis_usage, add_usage, scale_usage,
}

-- Grades are a commutative semiring with unit `once`, ordered so that both operations are
-- monotone, and `at_least_once` is the join with `once`.
pub record IsOrderedSemiring (a b c d : Grade) : Type 0 where
  pub add_comm : add_grades a b ≡ add_grades b a
  pub add_assoc : add_grades (add_grades a b) c ≡ add_grades a (add_grades b c)
  pub add_never : add_grades a never ≡ a
  pub mul_comm : multiply_grades a b ≡ multiply_grades b a
  pub mul_assoc : multiply_grades (multiply_grades a b) c ≡ multiply_grades a (multiply_grades b c)
  pub mul_once : multiply_grades once a ≡ a
  pub mul_never : multiply_grades never a ≡ never
  pub distrib :
      multiply_grades a (add_grades b c) ≡ add_grades (multiply_grades a b) (multiply_grades a c)
  pub order_refl : grade_le a a ≡ true
  pub order_trans : (grade_le a b && grade_le b c && not (grade_le a c)) ≡ false
  pub order_antisym : (grade_le a b && grade_le b a) ≡ grade_eq a b
  pub add_mono :
      (grade_le a b && grade_le c d && not (grade_le (add_grades a c) (add_grades b d))) ≡ false
  pub mul_mono :
      (grade_le a b && grade_le c d && not (grade_le (multiply_grades a c) (multiply_grades b d)))
      ≡ false
  pub join : grade_le (at_least_once a) b ≡ (grade_le a b && grade_le once b)

grade_table : (a b c d : Grade) → IsOrderedSemiring a b c d
unfolding add_grades multiply_grades grade_le grade_eq at_least_once
grade_table a b c d = record {
  add_comm = ground arith;
  add_assoc = ground arith;
  add_never = ground arith;
  mul_comm = ground arith;
  mul_assoc = ground arith;
  mul_once = ground arith;
  mul_never = ground arith;
  distrib = ground arith;
  order_refl = ground arith;
  order_trans = ground arith;
  order_antisym = ground arith;
  add_mono = ground arith;
  mul_mono = ground arith;
  join = ground arith;
}

-- Grades form a commutative ordered semiring in which `at_least_once` is the join with `once`:
-- all the laws of `IsOrderedSemiring` hold at all grades.
pub grade-IsOrderedSemiring : (a b c d : Grade) → IsOrderedSemiring a b c d
grade-IsOrderedSemiring a b c d = grade_table a b c d

pub length-zero_usage : (n : ℕ) → length (zero_usage n) ≡ n
unfolding zero_usage
length-zero_usage zero = refl
length-zero_usage (suc n) = omega (arith, length-zero_usage n)

pub length-basis_usage : (n i : ℕ) → length (basis_usage n i) ≡ n
unfolding basis_usage
length-basis_usage zero i = refl
length-basis_usage (suc n) zero = omega (arith, length-zero_usage n)
length-basis_usage (suc n) (suc i) = omega (arith, length-basis_usage n i)

pub length-scale_usage : (g : Grade) (u : Usage) → length (scale_usage g u) ≡ length u
unfolding scale_usage
length-scale_usage g [] = refl
length-scale_usage g (h ∷ u) = omega (arith, length-scale_usage g u)

-- The sum of two vectors of one length, which `add_usage` then returns.
abbrev pub sum_usage : Usage → Usage → Usage
sum_usage (g ∷ left) (h ∷ right) = add_grades g h ∷ sum_usage left right
sum_usage _ _ = []

pub add_usage-sum_usage : (l r : Usage) → length l ≡ length r → add_usage l r ≡ some (sum_usage l r)
unfolding add_usage
add_usage-sum_usage [] [] e = refl
add_usage-sum_usage [] (h ∷ r) e = absurd (omega arith)
add_usage-sum_usage (g ∷ l) [] e = absurd (omega arith)
add_usage-sum_usage (g ∷ l) (h ∷ r) e = rw (add_usage-sum_usage l r (omega arith))

pub length-sum_usage : (l r : Usage) → length l ≡ length r → length (sum_usage l r) ≡ length l
length-sum_usage [] [] e = refl
length-sum_usage [] (h ∷ r) e = refl
length-sum_usage (g ∷ l) [] e = absurd (omega arith)
length-sum_usage (g ∷ l) (h ∷ r) e = omega (arith, length-sum_usage l r (omega arith))

pub length-add_usage :
    (l r s : Usage) → add_usage l r ≡ some s → (length l ≡ length r) × (length s ≡ length l)
unfolding add_usage
length-add_usage [] [] s e = ground arith
length-add_usage [] (h ∷ r) s e = cc
length-add_usage (g ∷ l) [] s e = cc
length-add_usage (g ∷ l) (h ∷ r) s e = elim (Option-cases (add_usage l r)) [
  | inl no_sum ↦ absurd (ground arith)
  | inr (t, sum) ↦ let (p, q) = length-add_usage l r t sum in ground (arith)
]

scale_usage-add_usage :
    (g : Grade) (l r : Usage)
    → Option.map (scale_usage g) (add_usage l r) ≡ add_usage (scale_usage g l) (scale_usage g r)
unfolding add_usage scale_usage
scale_usage-add_usage g [] [] = refl
scale_usage-add_usage g [] (h ∷ r) = refl
scale_usage-add_usage g (k ∷ l) [] = refl
scale_usage-add_usage g (k ∷ l) (h ∷ r) = elim (Option-cases (add_usage l r)) [
  | inl no_sum ↦ ground (arith, scale_usage-add_usage g l r)
  | inr (t, sum) ↦ ground (arith, scale_usage-add_usage g l r, grade-IsOrderedSemiring g k h h)
]

cons-eq : {g h : Grade} {u v : Usage} → g ≡ h → u ≡ v → (g ∷ u) ≡ (h ∷ v)
cons-eq e f = cc (e, f)

some_cons : {g h : Grade} {u v : Usage} → g ≡ h → u ≡ v → some (g ∷ u) ≡ some (h ∷ v)
some_cons e f = cc (e, f)

scale_usage-once : (u : Usage) → scale_usage once u ≡ u
unfolding scale_usage
scale_usage-once [] = refl
scale_usage-once (k ∷ u) = cons-eq (grade-IsOrderedSemiring k k k k).mul_once (scale_usage-once u)

scale_usage-never : (u : Usage) → scale_usage never u ≡ zero_usage (length u)
unfolding scale_usage zero_usage
scale_usage-never [] = refl
scale_usage-never (k ∷ u) =
    cons-eq (grade-IsOrderedSemiring k k k k).mul_never (scale_usage-never u)

scale_usage-multiply_grades :
    (g h : Grade) (u : Usage)
    → scale_usage (multiply_grades g h) u ≡ scale_usage g (scale_usage h u)
unfolding scale_usage
scale_usage-multiply_grades g h [] = refl
scale_usage-multiply_grades g h (k ∷ u) =
    cons-eq (grade-IsOrderedSemiring g h k k).mul_assoc (scale_usage-multiply_grades g h u)

scale_usage-add_grades :
    (g h : Grade) (u : Usage)
    → add_usage (scale_usage g u) (scale_usage h u) ≡ some (scale_usage (add_grades g h) u)
unfolding scale_usage add_usage
scale_usage-add_grades g h [] = refl
scale_usage-add_grades g h (k ∷ u) = rw (scale_usage-add_grades g h u) (
    some_cons
      (sym (
        (grade-IsOrderedSemiring (add_grades g h) k k k).mul_comm
        ∙ (grade-IsOrderedSemiring k g h k).distrib
        ∙ ap (λ x. add_grades x (multiply_grades k h)) (grade-IsOrderedSemiring k g k k).mul_comm
        ∙ ap (add_grades (multiply_grades g k)) (grade-IsOrderedSemiring k h k k).mul_comm))
      refl)

add_usage-zero_usage : (u : Usage) → add_usage u (zero_usage (length u)) ≡ some u
unfolding add_usage zero_usage
add_usage-zero_usage [] = refl
add_usage-zero_usage (k ∷ u) =
    rw (add_usage-zero_usage u) (some_cons (grade-IsOrderedSemiring k k k k).add_never refl)

add_usage_comm : (l r : Usage) → add_usage l r ≡ add_usage r l
unfolding add_usage
add_usage_comm [] [] = refl
add_usage_comm [] (h ∷ r) = refl
add_usage_comm (k ∷ l) [] = refl
add_usage_comm (k ∷ l) (h ∷ r) = rw (add_usage_comm l r) (
    ap (λ g. elim (add_usage r l) [ none ↦ none | some sum ↦ some (g ∷ sum) ])
      (grade-IsOrderedSemiring k h k k).add_comm)

-- Two vectors have a sum exactly when they have one length.
add_usage-none : (l r : Usage) → (add_usage l r ≡ none) ↔ ¬ (length l ≡ length r)
add_usage-none l r = (
  (λ e same. absurd (cc (e, add_usage-sum_usage l r same))),
  (λ differ. elim (Option-cases (add_usage l r)) [
    | inl no_sum ↦ no_sum
    | inr (s, sum) ↦ absurd (differ (length-add_usage l r s sum).0)
  ]),
)

-- A grade twice is `omega` of it.
twice_grade : (k : Grade) → add_grades k k ≡ multiply_grades Grade.omega k
unfolding add_grades multiply_grades
twice_grade Grade.never = refl
twice_grade Grade.once = refl
twice_grade Grade.omega = refl

scale_usage-omega : (u : Usage) → add_usage u u ≡ some (scale_usage Grade.omega u)
unfolding add_usage scale_usage
scale_usage-omega [] = refl
scale_usage-omega (k ∷ u) = rw (scale_usage-omega u) (some_cons (twice_grade k) refl)

-- The laws of a module, at two grades and two vectors.
pub record IsModule (g h : Grade) (l r : Usage) : Type 0 where
  pub scale_sum :
      Option.map (scale_usage g) (add_usage l r) ≡ add_usage (scale_usage g l) (scale_usage g r)
  pub scale_add :
      add_usage (scale_usage g l) (scale_usage h l) ≡ some (scale_usage (add_grades g h) l)
  pub scale_mul : scale_usage (multiply_grades g h) l ≡ scale_usage g (scale_usage h l)
  pub scale_once : scale_usage once l ≡ l
  pub scale_never : scale_usage never l ≡ zero_usage (length l)
  pub scale_omega : add_usage l l ≡ some (scale_usage Grade.omega l)
  pub add_zero : add_usage l (zero_usage (length l)) ≡ some l
  pub add_comm : add_usage l r ≡ add_usage r l
  pub no_sum : (add_usage l r ≡ none) ↔ ¬ (length l ≡ length r)

-- Usage vectors are a module over the grades: all the laws of `IsModule` hold at all grades and
-- vectors. Scaling is linear in the vector and in the grade, by a product it is scaling twice, by
-- `once` it changes nothing, by `never` it gives zeros, and by `omega` the vector added to itself.
-- Zeros are neutral for sums, sums are commutative, and two vectors have no sum, which is the
-- length error, exactly when their lengths differ.
pub usage-IsModule : (g h : Grade) (l r : Usage) → IsModule g h l r
usage-IsModule g h l r = record {
  scale_sum = scale_usage-add_usage g l r;
  scale_add = scale_usage-add_grades g h l;
  scale_mul = scale_usage-multiply_grades g h l;
  scale_once = scale_usage-once l;
  scale_never = scale_usage-never l;
  scale_omega = scale_usage-omega l;
  add_zero = add_usage-zero_usage l;
  add_comm = add_usage_comm l r;
  no_sum = add_usage-none l r;
}

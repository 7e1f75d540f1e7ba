-- ===== src/Kernel/Grade.antt =====
-- src/kernel-calculus/grade.ts: the grades 0, 1 and omega, their arithmetic, and usage vectors.
pub mod Laws
use semantic_systems.Base.{
  ℕ, zero, suc, Bool, true, false, List, [], ◌∷◌, map, Option, none, some, leb, length, ◌==◌,
  if◌then◌else◌,
}

pub data Grade : Type 0 where
  never once omega : Grade

pub order : Grade → ℕ
order Grade.never = 0
order Grade.once = 1
order Grade.omega = 2

unfoldable pub grade_le : Grade → Grade → Bool
unfolding order
grade_le left right = leb (order left) (order right)

unfoldable pub add_grades : Grade → Grade → Grade
add_grades Grade.never Grade.never = Grade.never
add_grades Grade.never Grade.once = Grade.once
add_grades Grade.never Grade.omega = Grade.omega
add_grades Grade.once Grade.never = Grade.once
add_grades Grade.once Grade.once = Grade.omega
add_grades Grade.once Grade.omega = Grade.omega
add_grades Grade.omega Grade.never = Grade.omega
add_grades Grade.omega Grade.once = Grade.omega
add_grades Grade.omega Grade.omega = Grade.omega

unfoldable pub multiply_grades : Grade → Grade → Grade
multiply_grades Grade.never Grade.never = Grade.never
multiply_grades Grade.never Grade.once = Grade.never
multiply_grades Grade.never Grade.omega = Grade.never
multiply_grades Grade.once Grade.never = Grade.never
multiply_grades Grade.once Grade.once = Grade.once
multiply_grades Grade.once Grade.omega = Grade.omega
multiply_grades Grade.omega Grade.never = Grade.never
multiply_grades Grade.omega Grade.once = Grade.omega
multiply_grades Grade.omega Grade.omega = Grade.omega

unfoldable pub at_least_once : Grade → Grade
at_least_once Grade.never = Grade.once
at_least_once Grade.once = Grade.once
at_least_once Grade.omega = Grade.omega

-- `left === right` on grades.
unfoldable pub grade_eq : Grade → Grade → Bool
grade_eq Grade.never Grade.never = true
grade_eq Grade.once Grade.once = true
grade_eq Grade.omega Grade.omega = true
grade_eq _ _ = false

abbrev pub Usage : Type 0
Usage = List Grade

unfoldable pub zero_usage : ℕ → Usage
zero_usage zero = []
zero_usage (suc n) = Grade.never ∷ zero_usage n

unfoldable pub basis_usage : ℕ → ℕ → Usage
unfolding zero_usage
basis_usage zero i = []
basis_usage (suc n) zero = Grade.once ∷ zero_usage n
basis_usage (suc n) (suc i) = Grade.never ∷ basis_usage n i

-- `none` is the `RangeError` for vectors of different lengths.
unfoldable pub add_usage : Usage → Usage → Option Usage
unfolding add_grades
add_usage [] [] = some []
add_usage (g ∷ left) (h ∷ right) = elim (add_usage left right) [
  | none ↦ none
  | some sum ↦ some (add_grades g h ∷ sum)
]
add_usage _ _ = none

unfoldable pub scale_usage : Grade → Usage → Usage
unfolding multiply_grades
scale_usage grade usage = map (multiply_grades grade) usage

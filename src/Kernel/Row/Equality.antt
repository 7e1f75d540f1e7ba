-- ===== src/Kernel/Row/Equality.antt =====
-- The tests of effect-row.ts for equality decide equality.
use semantic_systems.Base.{◌≡◌, refl, ◌↔◌, Bool, true, List, [], ◌∷◌, arith, sort_by, insert_by}
use semantic_systems.Kernel.Row.{Text, EffectRow, text_eq, includes, effect_rows_equal}

pub text_eq→eq : (a b : Text) → text_eq a b ≡ true → a ≡ b
unfolding text_eq
text_eq→eq [] [] h = refl
text_eq→eq [] (d ∷ b) h = cc
text_eq→eq (c ∷ a) [] h = cc
text_eq→eq (c ∷ a) (d ∷ b) h = ground (arith, text_eq→eq a b)

pub text_eq_refl : (a : Text) → text_eq a a ≡ true
unfolding text_eq
text_eq_refl [] = refl
text_eq_refl (c ∷ a) = ground (arith, text_eq_refl a)

pub text_eq_iff : (a b : Text) → (text_eq a b ≡ true) ↔ (a ≡ b)
text_eq_iff a b = (text_eq→eq a b, λ e. rw e (text_eq_refl b))

pub effect_rows_equal→eq : (a b : EffectRow) → effect_rows_equal a b ≡ true → a ≡ b
unfolding effect_rows_equal
effect_rows_equal→eq [] [] h = refl
effect_rows_equal→eq [] (y ∷ b) h = cc
effect_rows_equal→eq (x ∷ a) [] h = cc
effect_rows_equal→eq (x ∷ a) (y ∷ b) h = ground (arith, text_eq→eq x y, effect_rows_equal→eq a b)

pub effect_rows_equal_refl : (a : EffectRow) → effect_rows_equal a a ≡ true
unfolding effect_rows_equal
effect_rows_equal_refl [] = refl
effect_rows_equal_refl (x ∷ a) = rw (text_eq_refl x) (effect_rows_equal_refl a)

pub includes-insert_by :
    (le : Text → Text → Bool) (x : Text) (ys : List Text) (z : Text)
    → includes (insert_by le x ys) z ≡ includes (x ∷ ys) z
unfolding includes insert_by
includes-insert_by le x [] z = refl
includes-insert_by le x (y ∷ ys) z = ground (arith, includes-insert_by le x ys z)

-- Sorting keeps the members.
pub includes-sort_by :
    (le : Text → Text → Bool) (xs : List Text) (z : Text)
    → includes (sort_by le xs) z ≡ includes xs z
unfolding includes sort_by
includes-sort_by le [] z = refl
includes-sort_by le (x ∷ xs) z =
    ground (arith, includes-insert_by le x (sort_by le xs) z, includes-sort_by le xs z)

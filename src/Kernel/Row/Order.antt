-- ===== src/Kernel/Row/Order.antt =====
-- `compareCodePoints` is a strict total order, and sorting by it gives strictly increasing lists.
use Prim.Native.Nat.{Ordering}
use mathlib.Core.Path.{subst, ap₂}
use semantic_systems.Base.{
  ◌≡◌, refl, sym, ◌∙◌, ◌⊎◌, inl, inr, Bool, true, false, not, ◌&&◌, ◌||◌, List, [], ◌∷◌, arith,
  sort_by, insert_by, Bool-cases, All,
}
use semantic_systems.Kernel.Row.{
  Text, text_eq, compare_code_points, text_le, includes, distinct, normalized_labels,
}
use semantic_systems.Kernel.Row.Equality.{text_eq→eq, text_eq_refl, includes-sort_by}

abbrev pub Precedes : Text → Text → Type 0
Precedes a b = compare_code_points a b ≡ Ordering.lt

pub compare-eq : (a b : Text) → compare_code_points a b ≡ Ordering.eq → a ≡ b
unfolding compare_code_points
compare-eq [] [] h = refl
compare-eq [] (d ∷ b) h = cc
compare-eq (c ∷ a) [] h = cc
compare-eq (c ∷ a) (d ∷ b) h = ground (arith, compare-eq a b)

compare_refl : (a : Text) → compare_code_points a a ≡ Ordering.eq
unfolding compare_code_points
compare_refl [] = refl
compare_refl (c ∷ a) = ground (arith, compare_refl a)

compare-gt : (a b : Text) → compare_code_points a b ≡ Ordering.gt → Precedes b a
unfolding compare_code_points
compare-gt [] [] h = cc
compare-gt [] (d ∷ b) h = cc
compare-gt (c ∷ a) [] h = refl
compare-gt (c ∷ a) (d ∷ b) h = ground (arith, compare-gt a b)

pub Precedes-irrefl : (a : Text) → ¬ Precedes a a
Precedes-irrefl a h = cc (compare_refl a)

pub Precedes-trans : (a b c : Text) → Precedes a b → Precedes b c → Precedes a c
unfolding compare_code_points
Precedes-trans [] [] c p q = cc
Precedes-trans [] (y ∷ b) [] p q = cc
Precedes-trans [] (y ∷ b) (z ∷ c) p q = refl
Precedes-trans (x ∷ a) [] c p q = cc
Precedes-trans (x ∷ a) (y ∷ b) [] p q = cc
Precedes-trans (x ∷ a) (y ∷ b) (z ∷ c) p q = ground (arith, Precedes-trans a b c)

-- A list in which each entry precedes all later ones.
abbrev pub IsIncreasing : List Text → Type 0
IsIncreasing [] = Unit
IsIncreasing (x ∷ xs) = All (Precedes x) xs × IsIncreasing xs

All-Precedes-trans :
    (x y : Text) (ys : List Text) → Precedes x y → All (Precedes y) ys → All (Precedes x) ys
All-Precedes-trans x y [] p q = tt
All-Precedes-trans x y (z ∷ ys) p q = (Precedes-trans x y z p q.0, All-Precedes-trans x y ys p q.1)

text_le-cases :
    (x y : Text)
    → text_eq y x ≡ false
    → ((text_le x y ≡ true) × Precedes x y) ⊎ ((text_le x y ≡ false) × Precedes y x)
unfolding text_le
text_le-cases x y differ = ground (arith, compare-eq x y, compare-gt x y, text_eq_refl y)

All-insert_by :
    (P : Text → Type 0) (le : Text → Text → Bool) (x : Text) (ys : List Text)
    → P x
    → All P ys
    → All P (insert_by le x ys)
unfolding insert_by
All-insert_by P le x [] p ps = (p, tt)
All-insert_by P le x (y ∷ ys) p ps = elim (Bool-cases (le x y)) [
  | inl here ↦ rw here (p, ps)
  | inr further ↦ rw further (ps.0, All-insert_by P le x ys p ps.1)
]

or-eq-false : (a b : Bool) → (a || b) ≡ false → (a ≡ false) × (b ≡ false)
or-eq-false a b h = ground arith

insert_by-IsIncreasing :
    (x : Text) (ys : List Text)
    → includes ys x ≡ false
    → IsIncreasing ys
    → IsIncreasing (insert_by text_le x ys)
unfolding insert_by includes
insert_by-IsIncreasing x [] fresh inc = (tt, tt)
insert_by-IsIncreasing x (y ∷ ys) fresh inc =
    let (differ, fresh') = or-eq-false (text_eq y x) (includes ys x) fresh in
    elim (text_le-cases x y differ) [
      | inl (before, p) ↦ rw before ((p, All-Precedes-trans x y ys p inc.0), inc)
      | inr (after, p) ↦ rw after (
        All-insert_by (Precedes y) text_le x ys p inc.0,
        insert_by-IsIncreasing x ys fresh' inc.1,
      )
    ]

-- No entry occurs twice.
abbrev pub IsDistinct : List Text → Type 0
IsDistinct [] = Unit
IsDistinct (x ∷ xs) = (includes xs x ≡ false) × IsDistinct xs

sort_by-IsIncreasing : (xs : List Text) → IsDistinct xs → IsIncreasing (sort_by text_le xs)
unfolding sort_by
sort_by-IsIncreasing [] h = tt
sort_by-IsIncreasing (x ∷ xs) h =
    insert_by-IsIncreasing x (sort_by text_le xs) (includes-sort_by text_le xs x ∙ h.0)
      (sort_by-IsIncreasing xs h.1)

includes-distinct :
    (seen xs : List Text) (z : Text)
    → includes (distinct seen xs) z ≡ (includes xs z && not (includes seen z))
unfolding includes distinct
includes-distinct seen [] z = refl
includes-distinct seen (x ∷ xs) z =
    ground (arith, includes-distinct seen xs z, includes-distinct (x ∷ seen) xs z, text_eq→eq x z)

and-not_self :
    (xs seen : List Text) (x : Text) → (includes xs x && not (includes (x ∷ seen) x)) ≡ false
unfolding includes
and-not_self xs seen x = ground (arith, text_eq_refl x)

and-not-nil : (xs : List Text) (z : Text) → (includes xs z && not (includes [] z)) ≡ includes xs z
unfolding includes
and-not-nil xs z = ground arith

or_self : (x : Text) (xs : List Text) → includes (x ∷ xs) x ≡ true
unfolding includes
or_self x xs = ground (arith, text_eq_refl x)

distinct-IsDistinct : (seen xs : List Text) → IsDistinct (distinct seen xs)
unfolding distinct
distinct-IsDistinct seen [] = tt
distinct-IsDistinct seen (x ∷ xs) = elim (Bool-cases (includes seen x)) [
  | inl old ↦ rw old (distinct-IsDistinct seen xs)
  | inr new ↦ rw new (
    includes-distinct (x ∷ seen) xs x ∙ and-not_self xs seen x,
    distinct-IsDistinct (x ∷ seen) xs,
  )
]

-- A normalized list is increasing, and has the members that it had.
pub normalized_labels-IsIncreasing : (xs : List Text) → IsIncreasing (normalized_labels xs)
unfolding normalized_labels
normalized_labels-IsIncreasing xs =
    sort_by-IsIncreasing (distinct [] xs) (distinct-IsDistinct [] xs)

pub includes-normalized_labels :
    (xs : List Text) (z : Text) → includes (normalized_labels xs) z ≡ includes xs z
unfolding normalized_labels
includes-normalized_labels xs z =
    includes-sort_by text_le (distinct [] xs) z ∙ includes-distinct [] xs z ∙ and-not-nil xs z

All-Precedes-includes :
    (x : Text) (xs : List Text) (z : Text)
    → All (Precedes x) xs
    → includes xs z ≡ true
    → Precedes x z
unfolding includes
All-Precedes-includes x [] z p h = absurd (cc)
All-Precedes-includes x (y ∷ xs) z p h = elim (Bool-cases (text_eq y z)) [
  | inl same ↦ rw (← text_eq→eq y z same) p.0
  | inr differ ↦ All-Precedes-includes x xs z p.1 (rw differ at h)
]

abbrev pub HasSameLabels : List Text → List Text → Type 0
HasSameLabels xs ys = (z : Text) → includes xs z ≡ includes ys z

increasing_heads :
    (x y : Text) (xs ys : List Text)
    → IsIncreasing (x ∷ xs)
    → IsIncreasing (y ∷ ys)
    → HasSameLabels (x ∷ xs) (y ∷ ys)
    → x ≡ y
unfolding includes
increasing_heads x y xs ys inc inc' same = elim (Bool-cases (text_eq y x)) [
  | inl e ↦ sym (text_eq→eq y x e)
  | inr differ ↦ elim (text_le-cases x y differ) [
    | inl (_, p) ↦ absurd (
        Precedes-irrefl x (
          Precedes-trans x y x p
            (All-Precedes-includes y ys x inc'.0 (rw differ at (sym (same x) ∙ or_self x xs)))))
    | inr (_, p) ↦ absurd (
        Precedes-irrefl y (
          Precedes-trans y x y p (
            All-Precedes-includes x xs y inc.0
              (ground (arith, same y, or_self y ys, text_eq→eq x y, text_eq_refl x)))))
  ]
]

includes-above : (x : Text) (xs : List Text) → All (Precedes x) xs → includes xs x ≡ false
includes-above x xs p = elim (Bool-cases (includes xs x)) [
  | inl inside ↦ absurd (Precedes-irrefl x (All-Precedes-includes x xs x p inside))
  | inr outside ↦ outside
]

tails_same :
    (x : Text) (xs ys : List Text)
    → All (Precedes x) xs
    → All (Precedes x) ys
    → HasSameLabels (x ∷ xs) (x ∷ ys)
    → HasSameLabels xs ys
unfolding includes
tails_same x xs ys p q same z =
    ground (arith, same z, text_eq→eq x z, includes-above x xs p, includes-above x ys q)

-- Increasing lists with the same members are equal.
pub increasing_unique :
    (xs ys : List Text) → IsIncreasing xs → IsIncreasing ys → HasSameLabels xs ys → xs ≡ ys
unfolding includes
increasing_unique [] [] inc inc' same = refl
increasing_unique [] (y ∷ ys) inc inc' same = absurd (cc (same y, or_self y ys))
increasing_unique (x ∷ xs) [] inc inc' same = absurd (cc (same x, or_self x xs))
increasing_unique (x ∷ xs) (y ∷ ys) inc inc' same =
    let e = increasing_heads x y xs ys inc inc' same in
    let above = subst (λ t. All (Precedes t) ys) (sym e) inc'.0 in
    let same' = subst (λ t. HasSameLabels (x ∷ xs) (t ∷ ys)) (sym e) same in
    ap₂ ◌∷◌ e (increasing_unique xs ys inc.1 inc'.1 (tails_same x xs ys inc.0 above same'))

-- ===== src/Kernel/Row/Laws.antt =====
-- Effect rows are canonical finite sets of labels.
use semantic_systems.Base.{
  ◌≡◌, refl, sym, ◌∙◌, ap, ◌↔◌, Bool, true, false, not, ◌&&◌, ◌||◌, List, [], ◌∷◌, ◌++◌, arith,
  Bool-cases, inl, inr, and-eq-true, filter,
}
use semantic_systems.Kernel.Row.{
  Text, EffectRow, text_eq, includes, effect_row, union_effect_rows, append_rows,
  remove_effect_label, effect_row_is_subset,
}
use semantic_systems.Kernel.Row.Equality.{text_eq→eq, text_eq_refl}
use semantic_systems.Kernel.Row.Order.{
  IsIncreasing, HasSameLabels, normalized_labels-IsIncreasing, includes-normalized_labels,
  increasing_unique,
}

pub includes-effect_row : (xs : List Text) (z : Text) → includes (effect_row xs) z ≡ includes xs z
unfolding effect_row
includes-effect_row xs z = includes-normalized_labels xs z

pub effect_row-IsIncreasing : (xs : List Text) → IsIncreasing (effect_row xs)
unfolding effect_row
effect_row-IsIncreasing xs = normalized_labels-IsIncreasing xs

pub union_effect_rows-IsIncreasing : (rows : List EffectRow) → IsIncreasing (union_effect_rows rows)
unfolding union_effect_rows
union_effect_rows-IsIncreasing rows = normalized_labels-IsIncreasing (append_rows rows)

-- `effectRow` makes one row of all lists with the same labels, whatever their order and their
-- repetitions, and two lists that differ in a label give rows that differ.
pub effect_row-canonical :
    (xs ys : List Text) → (effect_row xs ≡ effect_row ys) ↔ HasSameLabels xs ys
effect_row-canonical xs ys = (
  (λ e z. sym (includes-effect_row xs z) ∙ ap (λ r. includes r z) e ∙ includes-effect_row ys z),
  λ same.
      increasing_unique (effect_row xs) (effect_row ys) (effect_row-IsIncreasing xs)
        (effect_row-IsIncreasing ys)
        (λ z. includes-effect_row xs z ∙ same z ∙ sym (includes-effect_row ys z)),
)

includes-append :
    (xs ys : List Text) (z : Text) → includes (xs ++ ys) z ≡ (includes xs z || includes ys z)
unfolding includes
includes-append [] ys z = refl
includes-append (x ∷ xs) ys z = ground (arith, includes-append xs ys z)

abbrev pub some_row_includes : List EffectRow → Text → Bool
some_row_includes [] z = false
some_row_includes (row ∷ rows) z = includes row z || some_row_includes rows z

includes-append_rows :
    (rows : List EffectRow) (z : Text) → includes (append_rows rows) z ≡ some_row_includes rows z
unfolding includes
includes-append_rows [] z = refl
includes-append_rows (row ∷ rows) z =
    ground (arith, includes-append row (append_rows rows) z, includes-append_rows rows z)

pub includes-union_effect_rows :
    (rows : List EffectRow) (z : Text)
    → includes (union_effect_rows rows) z ≡ some_row_includes rows z
unfolding union_effect_rows
includes-union_effect_rows rows z =
    includes-normalized_labels (append_rows rows) z ∙ includes-append_rows rows z

pub includes-remove_effect_label :
    (row : EffectRow) (label z : Text)
    → includes (remove_effect_label row label) z ≡ (includes row z && not (text_eq z label))
unfolding remove_effect_label includes filter
includes-remove_effect_label [] label z = refl
includes-remove_effect_label (x ∷ row) label z =
    ground (arith, includes-remove_effect_label row label z, text_eq→eq x z)

-- Rows are sets: a union is increasing and has a label exactly when one of the rows has it, and a
-- row without a label has another label exactly when the row has it, and never the removed one.
pub row_operations_lem :
    (rows : List EffectRow) (row : EffectRow) (label z : Text)
    → IsIncreasing (union_effect_rows rows)
      × (includes (union_effect_rows rows) z ≡ some_row_includes rows z)
      × (includes (remove_effect_label row label) z ≡ (includes row z && not (text_eq z label)))
unfolding union_effect_rows
row_operations_lem rows row label z = (
  normalized_labels-IsIncreasing (append_rows rows),
  includes-union_effect_rows rows z,
  includes-remove_effect_label row label z,
)

abbrev pub IsSubset : List Text → List Text → Type 0
IsSubset xs ys = (z : Text) → includes xs z ≡ true → includes ys z ≡ true

subset→IsSubset : (xs ys : List Text) → effect_row_is_subset xs ys ≡ true → IsSubset xs ys
unfolding effect_row_is_subset includes
subset→IsSubset [] ys h z m = absurd (cc)
subset→IsSubset (x ∷ xs) ys h z m =
    let (first, rest) = and-eq-true (includes ys x) (effect_row_is_subset xs ys) h in
    elim (Bool-cases (text_eq x z)) [
      | inl same ↦ rw (text_eq→eq x z same) at first
      | inr differ ↦ subset→IsSubset xs ys rest z (rw differ at m)
    ]

or-right : (a b : Bool) → b ≡ true → (a || b) ≡ true
or-right a b m = ground arith

IsSubset→subset : (xs ys : List Text) → IsSubset xs ys → effect_row_is_subset xs ys ≡ true
unfolding effect_row_is_subset includes
IsSubset→subset [] ys h = refl
IsSubset→subset (x ∷ xs) ys h =
    ground (arith, h x, text_eq_refl x, IsSubset→subset xs ys (λ z m. h z (or-right _ _ m)))

-- `effectRowIsSubset` returns true exactly when each label of the first row is in the second.
pub effect_row_is_subset_iff :
    (xs ys : List Text) → (effect_row_is_subset xs ys ≡ true) ↔ IsSubset xs ys
effect_row_is_subset_iff xs ys = (subset→IsSubset xs ys, IsSubset→subset xs ys)

-- ===== src/Kernel/Row.antt =====
-- src/kernel-calculus/effect-row.ts: effect rows, which are sorted lists of distinct labels.
-- A text is the list of its code points, as `Array.from` and `codePointAt` give them.
use Prim.Native.Nat.{compare, Ordering}
pub mod Equality
pub mod Order
pub mod Laws
use semantic_systems.Base.{
  ℕ, Bool, true, false, not, ◌&&◌, ◌||◌, List, [], ◌∷◌, ◌++◌, ◌==◌, if◌then◌else◌, sort_by, filter,
}

abbrev pub Text : Type 0
Text = List ℕ

-- `left === right` on texts.
unfoldable pub text_eq : Text → Text → Bool
text_eq [] [] = true
text_eq (c ∷ left) (d ∷ right) = c == d && text_eq left right
text_eq _ _ = false

-- The sign of the number that `compareCodePoints` returns.
unfoldable pub compare_code_points : Text → Text → Ordering
compare_code_points [] [] = Ordering.eq
compare_code_points [] (d ∷ right) = Ordering.lt
compare_code_points (c ∷ left) [] = Ordering.gt
compare_code_points (c ∷ left) (d ∷ right) = elim (compare c d) [
  | Ordering.lt ↦ Ordering.lt
  | Ordering.gt ↦ Ordering.gt
  | Ordering.eq ↦ compare_code_points left right
]

unfoldable pub text_le : Text → Text → Bool
unfolding compare_code_points
text_le left right = elim (compare_code_points left right) [ Ordering.gt ↦ false | _ ↦ true ]

-- `labels.includes(label)`.
unfoldable pub includes : List Text → Text → Bool
unfolding text_eq
includes [] label = false
includes (entry ∷ labels) label = text_eq entry label || includes labels label

-- `[...new Set(labels)]`, with the labels seen so far: the first occurrence of each stays.
unfoldable pub distinct : List Text → List Text → List Text
unfolding includes
distinct seen [] = []
distinct seen (label ∷ labels) =
    if includes seen label then distinct seen labels else label ∷ distinct (label ∷ seen) labels

abbrev pub EffectRow : Type 0
EffectRow = List Text

unfoldable pub normalized_labels : List Text → List Text
unfolding distinct sort_by text_le
normalized_labels labels = sort_by text_le (distinct [] labels)

unfoldable pub effect_row : List Text → EffectRow
unfolding normalized_labels
effect_row labels = normalized_labels labels

abbrev pub append_rows : List EffectRow → List Text
append_rows [] = []
append_rows (row ∷ rows) = row ++ append_rows rows

unfoldable pub union_effect_rows : List EffectRow → EffectRow
unfolding normalized_labels
union_effect_rows rows = normalized_labels (append_rows rows)

unfoldable pub remove_effect_label : EffectRow → Text → EffectRow
unfolding filter text_eq
remove_effect_label row label = filter (λ entry. not (text_eq entry label)) row

unfoldable pub effect_row_is_subset : EffectRow → EffectRow → Bool
unfolding includes
effect_row_is_subset [] right = true
effect_row_is_subset (label ∷ left) right = includes right label && effect_row_is_subset left right

-- Equal lengths and equal entries at each index.
unfoldable pub effect_rows_equal : EffectRow → EffectRow → Bool
unfolding text_eq
effect_rows_equal [] [] = true
effect_rows_equal (label ∷ left) (entry ∷ right) =
    text_eq label entry && effect_rows_equal left right
effect_rows_equal _ _ = false

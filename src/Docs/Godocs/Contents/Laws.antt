-- ===== src/Docs/Godocs/Contents/Laws.antt =====
-- Where the items of the table of contents go, and permalinks added again.
use g_rpeakec_go.Prelude.{
  ℕ, suc, ◌+◌, ◌<◌, ◌≡◌, refl, ap, true, ◌||◌, inl, inr, List, [], ◌∷◌, ◌++◌, map, length, ltb,
  Bool-cases, arith,
}
use g_rpeakec_go.Prelude.Text.{codes, text_eq, starts_with}
use g_rpeakec_go.Docs.Godocs.Contents.{
  TocItem, Target, in_first, first_column, add_permalink, add_permalinks,
}

-- The two columns, one after the other.
abbrev pub both : List TocItem × List TocItem → List TocItem
both (first, second) = first ++ second

first_column-both : (n i : ℕ) (items : List TocItem) → both (first_column n i items) ≡ items
unfolding first_column
first_column-both n i [] = refl
first_column-both n i (t ∷ ts) = elim (Bool-cases (in_first n i)) [
  | inl e ↦ rw e (ap (λ us. t ∷ us) (first_column-both n (suc i) ts))
  | inr e ↦ rw e refl
]

-- From place `i` on, all of at most 13 items stay in the first column.
first_column-short :
    (n i : ℕ) (items : List TocItem)
    → n < 14
    → i + length items ≡ n
    → (first_column n i items).1 ≡ []
unfolding first_column
first_column-short n i [] few all_items = refl
first_column-short n i (t ∷ ts) few all_items =
    let first : in_first n i ≡ true = ground (arith, few, all_items) in
    rw first (first_column-short n (suc i) ts few (omega (arith, all_items)))

-- The columns of the table of contents hold the items in their order, first the one and then the
-- other, none lost and none twice; up to 13 items all stand in the first column.
pub first_column_lem :
    (items : List TocItem)
    → (both (first_column (length items) 0 items) ≡ items)
      × (length items < 14 → (first_column (length items) 0 items).1 ≡ [])
first_column_lem items = (
  first_column-both (length items) 0 items,
  λ few. first_column-short (length items) 0 items few (omega arith),
)

add_permalink-add_permalink : (t : Target) → add_permalink (add_permalink t) ≡ add_permalink t
unfolding add_permalink
add_permalink-add_permalink t =
    elim (Bool-cases
      (text_eq t.id [] || starts_with (codes "tmp_") t.id || ltb 0 (length t.permalinks))) [
        | inl e ↦ rw e (rw e refl)
        | inr e ↦
            let filled : (text_eq t.id []
                  || starts_with (codes "tmp_") t.id
                  || ltb 0 (suc (length t.permalinks)))
                ≡ true =
              ground arith in
            rw e (rw filled refl)
      ]

map_twice : (ts : List Target) → map add_permalink (map add_permalink ts) ≡ map add_permalink ts
map_twice [] = refl
map_twice (t ∷ ts) = cc (add_permalink-add_permalink t, map_twice ts)

-- Adding the permalinks again changes nothing: every heading and every list gets one at most.
pub add_permalinks-add_permalinks :
    (page : List Target × List Target) → add_permalinks (add_permalinks page) ≡ add_permalinks page
unfolding add_permalinks
add_permalinks-add_permalinks (headings, lists) = cc (map_twice headings, map_twice lists)

-- ===== src/Docs/Godocs/Contents.antt =====
-- The table of contents and the permalinks of zdocs/source/_static/godocs.js.
use g_rpeakec_go.Prelude.{
  ℕ, zero, suc, ◌+◌, ◌*◌, ◌≡◌, refl, Bool, true, false, not, ◌&&◌, ◌||◌, Option, none, some, List,
  [], ◌∷◌, ◌++◌, map, length, ltb, leb, if◌then◌else◌,
}
use g_rpeakec_go.Prelude.Text.{Text, codes, text_eq, show, starts_with}
pub mod Laws

-- An h2 or h3 behind `#nav`.
pub record Heading : Type 0 where
  pub id : Text
  pub is_h2 : Bool
  pub text : Text

-- A `dt` or a `dd` with its link.
pub record TocItem : Type 0 where
  pub is_dt : Bool
  pub href : Text
  pub text : Text

abbrev heading_id : Text → ℕ → Text
heading_id [] n = codes "tmp_" ++ show n
heading_id (c ∷ id) n = c ∷ id

-- A heading without an id is given one by its place.
abbrev pub name_heading : ℕ → Heading → Heading
name_heading n h = record { id = heading_id h.id n; is_h2 = h.is_h2; text = h.text }

abbrev pub toc_item : Heading → TocItem
toc_item h = record { is_dt = h.is_h2; href = codes "#" ++ h.id; text = h.text }

unfoldable pub name_headings : ℕ → List Heading → List Heading
unfolding show
name_headings n [] = []
name_headings n (h ∷ hs) = name_heading n h ∷ name_headings (suc n) hs

-- `i < split_index`, where `split_index` is `n / 2 + 1`, or `n` when that is below 8; the division
-- of the script leaves a half.
abbrev pub in_first : ℕ → ℕ → Bool
in_first n i = if ltb (n + 2) 16 then ltb i n else ltb (2 * i) (n + 2)

-- The loop that fills the first column, and the one that goes on with the second.
unfoldable pub first_column : ℕ → ℕ → List TocItem → List TocItem × List TocItem
first_column n i [] = ([], [])
first_column n i (t ∷ ts) =
    let later = first_column n (suc i) ts in
    if in_first n i then (t ∷ later.0, later.1) else ([], t ∷ ts)

abbrev table_of : ℕ → List TocItem → Option (List TocItem × List TocItem)
table_of n items = if leb n 1 then none else some (first_column n 0 items)

-- `generateTOC`: the headings with their ids, and the two columns of the table, if there is one.
unfoldable pub generate_toc :
    ℕ → Text → ℕ → List Heading → List Heading × Option (List TocItem × List TocItem)
unfolding name_headings first_column text_eq
generate_toc manual_navs pathname navs headings =
    let named = name_headings 0 headings in
    if ltb 0 manual_navs || (text_eq pathname (codes "/search") || leb navs 0)
    then (headings, none)
    else (named, table_of (length headings) (map toc_item named))

-- A heading or a list entry that may get a permalink: its id, if it has the attribute, and the
-- permalinks it has. The entry of a list is its first `dt`; a list without one is left out.
pub record Target : Type 0 where
  pub id : Text
  pub permalinks : List Text

unfoldable pub add_permalink : Target → Target
unfolding text_eq starts_with
add_permalink t =
    if text_eq t.id [] || starts_with (codes "tmp_") t.id || ltb 0 (length t.permalinks)
    then t
    else record { id = t.id; permalinks = (codes "#" ++ t.id) ∷ t.permalinks }

-- `addPermalinks`, over the headings and then the lists of the page.
unfoldable pub add_permalinks : List Target × List Target → List Target × List Target
unfolding add_permalink
add_permalinks (headings, lists) = (map add_permalink headings, map add_permalink lists)

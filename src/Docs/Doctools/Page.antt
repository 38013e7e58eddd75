-- ===== src/Docs/Doctools/Page.antt =====
-- What docs/_static/doctools.js does with a page: the index table, the keys, addresses, the links
-- behind headings and the order of the set-up.
use g_rpeakec_go.Prelude.{
  ℕ, zero, suc, ◌+◌, ◌-◌, ◌≡◌, refl, Bool, true, false, not, ◌&&◌, ◌||◌, Option, none, some, List,
  [], ◌∷◌, ◌++◌, map, length, ◌==◌, if◌then◌else◌,
}
use g_rpeakec_go.Prelude.Text.{Text, codes, text_eq}
use g_rpeakec_go.Docs.Options.{Options}
use g_rpeakec_go.Docs.Regex.{take, drop}
use g_rpeakec_go.Docs.Strings.{split, mem}
pub mod Laws

-- A toggle button of the index table: the address of its image, and the number in its id.
pub record Toggler : Type 0 where
  pub src : Text
  pub idnum : Text

abbrev pub ends_with : Text → Text → Bool
ends_with t s = text_eq (drop (length s - length t) s) t

abbrev pub toggled_src : Text → Text
toggled_src src =
    if ends_with (codes "minus.png") src
    then take (length src - 9) src ++ codes "plus.png"
    else take (length src - 8) src ++ codes "minus.png"

-- The table: its buttons, and which rows are shown.
pub record IndexTable : Type 0 where
  pub togglers : List Toggler
  pub shown : Text → Bool

abbrev pub toggle_at : ℕ → List Toggler → List Toggler
toggle_at i [] = []
toggle_at zero (t ∷ ts) = record { src = toggled_src t.src; idnum = t.idnum } ∷ ts
toggle_at (suc i) (t ∷ ts) = t ∷ toggle_at i ts

abbrev pub id_at : ℕ → List Toggler → Option Text
id_at i [] = none
id_at zero (t ∷ ts) = some t.idnum
id_at (suc i) (t ∷ ts) = id_at i ts

abbrev pub toggle_rows : Option Text → (Text → Bool) → Text → Bool
toggle_rows none shown row = shown row
toggle_rows (some idnum) shown row = if text_eq row idnum then not (shown row) else shown row

-- The handler of a click on a button.
unfoldable pub click_toggler : ℕ → IndexTable → IndexTable
unfolding text_eq
click_toggler i table = record {
  togglers = toggle_at i table.togglers;
  shown = toggle_rows (id_at i table.togglers) table.shown;
}

abbrev pub click_from : ℕ → ℕ → IndexTable → IndexTable
click_from i zero table = table
click_from i (suc n) table = click_from (suc i) n (click_toggler i table)

-- `initIndexTable`, once the handlers are bound: `togglers.click()` clicks each button.
unfoldable pub init_index_table : Options → IndexTable → IndexTable
unfolding click_toggler
init_index_table options table =
    if options.collapse_index then click_from 0 (length table.togglers) table else table

pub record KeyEvent : Type 0 where
  key_code : ℕ
  alt_key : Bool
  ctrl_key : Bool
  meta_key : Bool
  shift_key : Bool

abbrev pub takes_keys : Text → Bool
takes_keys tag = mem tag (codes "TEXTAREA" ∷ codes "INPUT" ∷ codes "SELECT" ∷ codes "BUTTON" ∷ [])

abbrev pub is_plain : Text → KeyEvent → Bool
is_plain active event =
    not (takes_keys active)
    && not event.alt_key
    && not event.ctrl_key
    && not event.meta_key
    && not event.shift_key

-- The address of a link, which counts when it is there and not empty.
abbrev pub go_to : Option Text → Option Text → Option Text
go_to none otherwise = otherwise
go_to (some []) otherwise = otherwise
go_to (some (c ∷ href)) otherwise = some (c ∷ href)

-- Where a key press leads: `prev` and `next` are the links of the page. The case of the left arrow
-- has no `break` and goes on to that of the right arrow.
unfoldable pub on_key : Text → Option Text → Option Text → KeyEvent → Option Text
unfolding text_eq
on_key active prev next event =
    let right = go_to next none in
    if not (is_plain active event)
    then none
    else if event.key_code == 37
    then go_to prev right
    else if event.key_code == 39
    then right
    else none

-- `makeURL`
unfoldable pub make_url : Options → Text → Text
make_url options relative = options.url_root ++ codes "/" ++ relative

abbrev pub join_slash : List Text → Text
join_slash [] = []
join_slash (p ∷ []) = p
join_slash (p ∷ q ∷ ps) = p ++ codes "/" ++ join_slash (q ∷ ps)

abbrev drop_last : List Text → List Text
drop_last [] = []
drop_last (p ∷ []) = []
drop_last (p ∷ q ∷ ps) = p ∷ drop_last (q ∷ ps)

-- In a callback of `$.each`, `this` is a String object, and `===` holds between no object and a
-- string.
abbrev pub object_equals : Text → Text → Bool
object_equals object s = false

abbrev pub climb : List Text → List Text → List Text
climb [] parts = parts
climb (r ∷ rs) parts = climb rs (if object_equals r (codes "..") then drop_last parts else parts)

-- `url.lastIndexOf('/') + 1`
abbrev pub after_slash : ℕ → ℕ → Text → ℕ
after_slash found i [] = found
after_slash found i (c ∷ s) = after_slash (if c == b'/' then suc i else found) (suc i) s

-- `path.substring(start, end)`, which swaps a start behind the end.
abbrev pub substring : ℕ → ℕ → Text → Text
substring start end s = take (end - start + (start - end)) (drop (start - (start - end)) s)

unfoldable pub get_current_url : Options → Text → Text
unfolding split
get_current_url options path =
    let parts = climb (split b'/' options.url_root) (split b'/' path) in
    let url = join_slash parts in substring (after_slash 0 0 url) (length path - 1) path

-- `fixFirefoxAnchorBug`: whether the address is set again after a while.
unfoldable pub fixes_anchor : Text → Bool → Bool
unfolding text_eq
fixes_anchor hash mozilla = not (text_eq hash []) && mozilla

pub data Setup : Type 0 where
  fix_firefox_anchor_bug highlight_search_words init_index init_on_key_listeners : Setup

-- `Documentation.init`
unfoldable pub init : Options → List Setup
init options =
    fix_firefox_anchor_bug
    ∷ highlight_search_words
    ∷ init_index
    ∷ (if options.navigation_with_keys then init_on_key_listeners ∷ [] else [])

-- A heading or a definition with an id: its text and the links behind it.
pub record Headline : Type 0 where
  id : Text
  is_definition : Bool
  links : List (Text × Text)

abbrev permalink_title : Bool → Text
permalink_title definition =
    if definition then codes "Permalink to this definition" else codes "Permalink to this headline"

-- `addContextElements` on one of them; `translate` is the message function.
unfoldable pub add_context_element : (Text → Text) → Headline → Headline
add_context_element translate h = record {
  id = h.id;
  is_definition = h.is_definition;
  links = h.links ++ (codes "#" ++ h.id, translate (permalink_title h.is_definition)) ∷ [];
}

unfoldable pub add_context_elements : (Text → Text) → List Headline → List Headline
unfolding add_context_element
add_context_elements translate hs = map (add_context_element translate) hs

-- A span of the page with its classes, and the link that hides the marks.
pub record Marked : Type 0 where
  classes : List Text
  text : Text

abbrev remove_class : Text → List Text → List Text
remove_class c [] = []
remove_class c (d ∷ ds) = let rest = remove_class c ds in if text_eq d c then rest else d ∷ rest

abbrev hide_mark : Marked → Marked
hide_mark m = record {
  classes =
      if mem (codes "highlighted") m.classes
      then remove_class (codes "highlighted") m.classes
      else m.classes;
  text = m.text;
}

-- `hideSearchWords`, on the spans of the page.
unfoldable pub hide_search_words : List Marked → List Marked
unfolding text_eq
hide_search_words ms = map hide_mark ms

-- ===== src/Docs/Godocs/Toggles.antt =====
-- The foldable sections of zdocs/source/_static/godocs.js.
use g_rpeakec_go.Prelude.{
  ℕ, zero, suc, ◌+◌, ◌≡◌, refl, Bool, true, false, not, ◌&&◌, ◌||◌, Option, none, some, List, [],
  ◌∷◌, ◌++◌, map, length, ltb, ◌==◌, if◌then◌else◌, update,
}
use g_rpeakec_go.Prelude.Text.{Text, codes, text_eq}
use g_rpeakec_go.Docs.Regex.{drop}
use g_rpeakec_go.Docs.Strings.{index_of}
pub mod Laws

-- The two classes of an element that count.
pub record Flags : Type 0 where
  pub toggle : Bool
  pub toggle_visible : Bool

-- The elements of the page are numbers.
abbrev pub Classes : Type 0
Classes = ℕ → Flags

abbrev pub flip : Flags → Flags
flip f =
    if f.toggle
    then record { toggle = false; toggle_visible = true }
    else record { toggle = true; toggle_visible = false }

abbrev is_element : ℕ → Option ℕ → Bool
is_element el none = false
is_element el (some e) = el == e

-- What jQuery finds on the page: the buttons in an element, the nearest element with one of the two
-- classes around a button, the elements of a selection in their order, and the first button in an
-- element.
pub record Selections : Type 0 where
  pub buttons_in : ℕ → List ℕ
  pub closest : Classes → ℕ → Option ℕ
  pub by_id : Text → Option ℕ
  pub first_button : ℕ → Option ℕ

module _ (page : Selections) where
  -- The handler that `bindToggle(el)` sets on a button: only the nearest section answers.
  unfoldable pub click_header : ℕ → ℕ → Classes → Classes
  click_header el button classes =
      if is_element el (page.closest classes button)
      then update classes el (flip (classes el))
      else classes

  abbrev has_button : ℕ → List ℕ → Bool
  has_button b [] = false
  has_button b (c ∷ cs) = if c == b then true else has_button b cs

  -- `bindToggles`: the sections whose handler a button has, in the order in which they are set.
  unfoldable pub bound_to : ℕ → List ℕ → List ℕ
  bound_to button [] = []
  bound_to button (el ∷ els) =
      let rest = bound_to button els in
      if has_button button (page.buttons_in el) then el ∷ rest else rest

  -- A click on a button runs its handlers one after the other.
  unfoldable pub run_handlers : List ℕ → ℕ → Classes → Classes
  unfolding click_header
  run_handlers [] button classes = classes
  run_handlers (el ∷ els) button classes = run_handlers els button (click_header el button classes)

  unfoldable pub click_button : List ℕ → ℕ → Classes → Classes
  unfolding bound_to run_handlers
  click_button sections button classes = run_handlers (bound_to button sections) button classes

  -- The section that a link names behind `#` and a prefix.
  abbrev after_prefix : Text → Text → Option ℕ → Option Text
  after_prefix prefix href none = none
  after_prefix prefix href (some i) =
      some (codes "#" ++ prefix ++ drop (i + 1 + length prefix) href)

  unfoldable pub link_target : Text → Text → Option Text
  unfolding index_of
  link_target prefix href = after_prefix prefix href (index_of (codes "#" ++ prefix) href)

  abbrev pub click_first : List ℕ → Option ℕ → Classes → Classes
  click_first sections none classes = classes
  click_first sections (some button) classes = click_button sections button classes

  -- A section that is shut is opened by a click on its first button.
  abbrev pub open_section : List ℕ → ℕ → Classes → Classes
  open_section sections el classes =
      if (classes el).toggle then click_first sections (page.first_button el) classes else classes

  abbrev open_found : List ℕ → Option ℕ → Classes → Classes
  open_found sections none classes = classes
  open_found sections (some el) classes = open_section sections el classes

  abbrev target_of : Option Text → Option ℕ
  target_of none = none
  target_of (some id) = page.by_id id

  -- The handler that `bindToggleLink` sets on a link.
  unfoldable pub click_link : List ℕ → Text → Text → Classes → Classes
  unfolding link_target click_button
  click_link sections prefix href classes =
      open_found sections (target_of (link_target prefix href)) classes

  abbrev open_all : List ℕ → List ℕ → Classes → Classes
  open_all sections [] classes = classes
  open_all sections (el ∷ els) classes = open_all sections els (open_section sections el classes)

  -- `toggleHash`: the elements that the address names, then the parents of the last of them, one
  -- level after the other.
  unfoldable pub toggle_hash : List ℕ → List (List ℕ) → Classes → Classes
  unfolding click_button
  toggle_hash sections [] classes = classes
  toggle_hash sections (els ∷ levels) classes =
      toggle_hash sections levels (open_all sections els classes)

  abbrev has_class : Bool → Flags → Bool
  has_class visible f = if visible then f.toggle_visible else f.toggle

  -- `toggleExamples('toggle')` or `toggleExamples('toggleVisible')`.
  unfoldable pub toggle_examples : List ℕ → Bool → List ℕ → Classes → Classes
  unfolding click_button
  toggle_examples sections visible [] classes = classes
  toggle_examples sections visible (el ∷ els) classes = toggle_examples sections visible els (
      if has_class visible (classes el)
      then click_first sections (page.first_button el) classes
      else classes)

  -- The link that expands all examples: whether it says that all are collapsed, and its text.
  pub record ExpandLink : Type 0 where
    pub collapsed : Bool
    pub label : Text

  unfoldable pub click_expand_all : List ℕ → List ℕ → ExpandLink × Classes → ExpandLink × Classes
  unfolding toggle_examples
  click_expand_all sections examples (link, classes) =
      if link.collapsed
      then (
        record { collapsed = false; label = codes "(Collapse All)" },
        toggle_examples sections false examples classes,
      )
      else (
        record { collapsed = true; label = codes "(Expand All)" },
        toggle_examples sections true examples classes,
      )

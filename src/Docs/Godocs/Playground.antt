-- ===== src/Docs/Godocs/Playground.antt =====
-- The playgrounds, the menu and the focus of zdocs/source/_static/godocs.js.
use g_rpeakec_go.Prelude.{
  ℕ, zero, suc, ◌+◌, ◌≡◌, refl, Bool, true, false, not, Option, none, some, List, [], ◌∷◌,
  if◌then◌else◌, ◌||◌,
}
use g_rpeakec_go.Prelude.Int.{ℤ, pos, negsuc}
use g_rpeakec_go.Prelude.Text.{Text, codes, text_eq}
use g_rpeakec_go.Docs.Regex.{Re, one, many, word, seq, finish, match_start, is_some, between}
pub mod Laws

-- The playground behind the button: whether the button is active and the playground shown, whether
-- it is set up, how often it was made, and whether the first handler of `toggle` has the next turn.
pub record Dropdown : Type 0 where
  pub active : Bool
  pub shown : Bool
  pub setup : Bool
  pub made : ℕ
  pub first_turn : Bool

-- `setupDropdownPlayground`, away from the front page.
abbrev pub new_dropdown : Dropdown
new_dropdown = record { active = false; shown = false; setup = false; made = 0; first_turn = true }

abbrev pub setup_dropdown_playground : Bool → Option Dropdown
setup_dropdown_playground is_wide = if is_wide then some new_dropdown else none

-- The two handlers, which jQuery's `toggle` calls in turn.
unfoldable pub click_playground : Dropdown → Dropdown
click_playground d =
    if d.first_turn
    then record {
      active = true;
      shown = true;
      setup = true;
      made = if d.setup then d.made else suc d.made;
      first_turn = false;
    }
    else record { active = false; shown = false; setup = d.setup; made = d.made; first_turn = true }

-- A click on the page closes an open playground.
unfoldable pub click_page : Dropdown → Dropdown
unfolding click_playground
click_page d = if d.active then click_playground d else d

pub data Click : Type 0 where
  on_button on_page : Click

unfoldable pub run_clicks : List Click → Dropdown → Dropdown
unfolding click_playground click_page
run_clicks [] d = d
run_clicks (on_button ∷ clicks) d = run_clicks clicks (click_playground d)
run_clicks (on_page ∷ clicks) d = run_clicks clicks (click_page d)

-- An example in the page: whether its playground waits for a click, is built, and how often it was
-- made.
pub record Inline : Type 0 where
  pub waits : Bool
  pub built : Bool
  pub made : ℕ

-- `setupInlinePlayground`: a visible example is set up at once and gets no handler.
unfoldable pub setup_inline_playground : Bool → Inline
setup_inline_playground visible =
    if visible
    then record { waits = false; built = false; made = 1 }
    else record { waits = true; built = false; made = 0 }

unfoldable pub click_example : Inline → Inline
click_example e =
    if not e.waits || e.built then e else record { waits = true; built = true; made = suc e.made }

abbrev pub click_times : ℕ → Inline → Inline
click_times zero e = e
click_times (suc n) e = click_times n (click_example e)

-- `resize`: the heights of the code and of the box around it, for the height of the text.
abbrev pub resized : ℕ → ℕ × ℕ
resized h = (h + 20, h)

-- The menu of a small screen.
pub record Menu : Type 0 where
  pub menu_visible : Bool
  pub vertical_flip : Bool

unfoldable pub click_menu : Menu → Menu
click_menu m = record { menu_visible = not m.menu_visible; vertical_flip = not m.vertical_flip }

-- `fixFocus`: the page's outline and tab index, and whether a resize gives it the focus.
pub record Focus : Type 0 where
  pub outline : ℕ
  pub tabindex : ℤ
  pub focused : Bool

unfoldable pub resize_window : Text → Focus → Focus
unfolding text_eq
resize_window topbar_position f =
    if text_eq topbar_position (codes "fixed")
    then record { outline = f.outline; tabindex = f.tabindex; focused = true }
    else f

-- The handler runs once when it is set.
unfoldable pub fix_focus : Text → Bool → Focus
unfolding resize_window
fix_focus topbar_position focused =
    resize_window topbar_position (record { outline = 0; tabindex = negsuc 0; focused = focused })

-- `/^go[0-9.]+$/`
abbrev version_re : Re
version_re = seq (word (codes "go")) (
    seq (one (λ c. between b'0' b'9' c || between b'.' b'.' c))
      (seq (many (λ c. between b'0' b'9' c || between b'.' b'.' c)) finish))

-- The text that the version tags get, if the version is a release; the place is hidden then.
unfoldable pub update_version_tags : Text → Option Text
unfolding match_start
update_version_tags v = if is_some (match_start version_re v) then some v else none

-- The window shows the first selection, if there is one.
abbrev pub scrolled_to : List ℕ → Option ℕ
scrolled_to [] = none
scrolled_to (el ∷ els) = some el

-- ===== src/Docs/Search/Whole.antt =====
-- The search as a whole: the query of the address, the results and what is shown of them.
use g_rpeakec_go.Prelude.{Bool, true, Option, none, some, List, [], ◌∷◌, length, if◌then◌else◌}
use g_rpeakec_go.Prelude.Text.{Text, codes, text_eq}
use g_rpeakec_go.Docs.Strings.{lookup}
use g_rpeakec_go.Docs.Doctools.Params.{Params, get_query_parameters}
use g_rpeakec_go.Docs.Search.{Index, Underscore}
use g_rpeakec_go.Docs.Search.Query.{query_words, query_results}
use g_rpeakec_go.Docs.Search.Display.Loop.{Display, start_display}
use g_rpeakec_go.Docs.Search.Display.{sort_results}

-- `htmlToText`: the text of the element with the role `main`, by either of its two names, or nothing
-- when the page has none.
pub record Content : Type 0 where
  pub text_content : Text
  pub inner_text : Text

abbrev or_text : Text → Text → Text
or_text [] t = t
or_text (c ∷ s) t = c ∷ s

abbrev pub content_text : Option Content → Text
content_text none = []
content_text (some c) = or_text c.text_content c.inner_text

-- What the address asks for: the first value of `q`, which is undefined when the parameter has no
-- value.
abbrev first_value : Option (List (Option Text)) → Option (Option Text)
first_value none = none
first_value (some []) = none
first_value (some (v ∷ vs)) = some v

abbrev asked : Option Params → Option (Option (Option Text))
asked none = none
asked (some ps) = some (first_value (lookup (codes "q") ps))

-- `Search.init`: `none` if reading the address throws, and otherwise the query that is made.
unfoldable pub init : (Text → Option Text) → (Text → Bool) → Text → Option (Option (Option Text))
unfolding get_query_parameters text_eq
init decode inherited address = asked (get_query_parameters decode inherited address)

-- `loadIndex`: the request asks for a script, which the page runs when the request succeeds. After
-- any other end the `src` of the page's own script element is set.
pub record IndexRequest : Type 0 where
  pub url : Text
  pub data_type : Text
  pub is_cached : Bool

unfoldable pub load_index : Text → IndexRequest × (Text → Option Text)
unfolding text_eq
load_index url = (
  record { url = url; data_type = codes "script"; is_cached = true },
  λ text_status. if text_eq text_status (codes "success") then none else some url,
)

-- `Search.query` up to the first call of displayNextItem: the display that it starts, with the words
-- that the items are made with. `none` where a word is a name that every object has.
unfoldable pub run_search :
    (to_lower : Text → Text)
    → Underscore
    → (translate : Text → Text) → (inherited : Text → Bool) → Index
    → Text
    → Option (Display × List Text × List Text)
unfolding query_words query_results sort_results
run_search to_lower u translate inherited index query =
    let words = query_words to_lower u query in
    elim (query_results to_lower u translate index inherited query) [
      | none ↦ none
      | some results ↦ some (
        start_display (sort_results to_lower results) (length results) [],
        words.searchterms,
        words.hlterms,
      )
    ]

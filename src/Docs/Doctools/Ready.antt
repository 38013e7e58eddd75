-- ===== src/Docs/Doctools/Ready.antt =====
-- `Documentation.init` of docs/_static/doctools.js on a page, as it runs when the page is ready.
use g_rpeakec_go.Prelude.{Bool, true, false, ◌||◌, Option, none, some, List}
use g_rpeakec_go.Prelude.Text.{Text, codes, text_eq}
use g_rpeakec_go.Docs.Options.{Options}
use g_rpeakec_go.Docs.Strings.{◌>>=◌}
use g_rpeakec_go.Docs.Doctools.Params.{get_query_parameters}
use g_rpeakec_go.Docs.Doctools.Browsers.{ua_match}
use g_rpeakec_go.Docs.Doctools.Page.{IndexTable, init_index_table, fixes_anchor}
use g_rpeakec_go.Docs.Doctools.Highlight.{Node}
use g_rpeakec_go.Docs.Doctools.Words.{highlight_search_words}
pub mod Laws

-- What the set-up changes: whether the address is set again after a while, the body with its marks,
-- whether the link that hides them is there, the index table, and whether keys are listened to.
pub record Page : Type 0 where
  pub resets_address : Bool
  pub body : Node
  pub has_hide_link : Bool
  pub table : IndexTable
  pub takes_keys : Bool

-- The parts of `document.location`.
pub record Location : Type 0 where
  pub hash : Text
  pub search : Text

-- What is left of the page, and whether the set-up has come to its end: an exception ends it.
pub record Ready : Type 0 where
  pub page : Page
  pub completed : Bool

-- `jQuery.browser` has the name of the browser as its one field, which is true.
unfoldable pub is_mozilla : (Text → Text) → Text → Bool
unfolding ua_match text_eq
is_mozilla to_lower agent = text_eq (ua_match to_lower agent).browser (codes "mozilla")

module _ (to_lower : Text → Text) (decode : Text → Option Text) (inherited : Text → Bool) where
  -- `initIndexTable`, and `initOnKeyListeners` where it is asked for.
  abbrev set_up : Options → Page → Node × Bool → Page
  set_up options page (body, link) = record {
    resets_address = page.resets_address;
    body = body;
    has_hide_link = page.has_hide_link || link;
    table = init_index_table options page.table;
    takes_keys = page.takes_keys || options.navigation_with_keys;
  }

  abbrev pub after_highlight : Options → Page → Option (Node × Bool) → Ready
  after_highlight options page none = record { page = page; completed = false }
  after_highlight options page (some marked) = record {
    page = set_up options page marked;
    completed = true;
  }

  abbrev pub fix_anchor : Bool → Page → Page
  fix_anchor resets page = record {
    resets_address = resets;
    body = page.body;
    has_hide_link = page.has_hide_link;
    table = page.table;
    takes_keys = page.takes_keys;
  }

  unfoldable pub ready : Options → Text → Location → Page → Ready
  unfolding fixes_anchor is_mozilla get_query_parameters highlight_search_words init_index_table
  ready options agent location page =
      let fixed = fix_anchor (fixes_anchor location.hash (is_mozilla to_lower agent)) page in
      let params = get_query_parameters decode inherited location.search in
      after_highlight options fixed (params >>= λ ps. highlight_search_words to_lower ps fixed.body)

-- ===== src/Docs/Doctools/Tests.antt =====
-- Runs of the scripts of every page.
use g_rpeakec_go.Prelude.{◌≡◌, ◌≢◌, refl, Bool, true, false, Option, none, some, [], ◌∷◌, arith}
use g_rpeakec_go.Prelude.Text.{Text, codes}
use g_rpeakec_go.Docs.Options.{documentation_options}
use g_rpeakec_go.Docs.Doctools.Params.{get_query_parameters}
use g_rpeakec_go.Docs.Doctools.Browsers.{ua_match}
use g_rpeakec_go.Docs.Doctools.Page.{IndexTable, get_current_url}
use g_rpeakec_go.Docs.Doctools.Highlight.{Node, text, element, nil, cons, highlight_text}
use g_rpeakec_go.Docs.Doctools.Highlight.Content.{content, content-highlight_text}
use g_rpeakec_go.Docs.Doctools.Ready.{Page, Location, ready}

abbrev no_escapes : Text → Option Text
no_escapes s = some s

abbrev nothing_inherited : Text → Bool
nothing_inherited s = false

get_query_parameters_runs :
    get_query_parameters no_escapes nothing_inherited (codes "?q=a+b&q=c&x")
    ≡ some ((codes "q", some (codes "a b") ∷ some (codes "c") ∷ []) ∷ (codes "x", none ∷ []) ∷ [])
unfolding get_query_parameters
get_query_parameters_runs = refl

not_none : (s : Text) → no_escapes s ≢ none
not_none s e = ground (arith, e)

abbrev same_text : Text → Text
same_text s = s

ua_match_runs :
    ua_match same_text (codes "mozilla/5.0 (x11) gecko rv:84.0")
    ≡ record { browser = codes "mozilla"; version = codes "84.0" }
unfolding ua_match
ua_match_runs = refl

abbrev one_toggler : IndexTable
one_toggler = record {
  togglers = record { src = codes "/_static/minus.png"; idnum = codes "1" } ∷ [];
  shown = λ row. true;
}

-- The last character of the path is left out, and no step up is taken.
get_current_url_runs :
    get_current_url (documentation_options (codes "../")) (codes "/docs/api.html") ≡ codes "api.htm"
unfolding get_current_url
get_current_url_runs = refl

abbrev body : Node
body = element (codes "body") [] 0 (
    cons (text (codes "go to go"))
      (cons (element (codes "b") [] 0 nil) (cons (text (codes "go")) nil)))

-- The rounds that the first text takes with its new nodes are missing for the last text.
highlight_text_runs :
    highlight_text same_text (codes "go") (codes "on") false body
    ≡ element (codes "body") [] 0 (
        cons (text []) (
          cons (element (codes "span") (codes "on" ∷ []) 0 (cons (text (codes "go")) nil)) (
            cons (text (codes " to ")) (
              cons (element (codes "span") (codes "on" ∷ []) 0 (cons (text (codes "go")) nil)) (
                cons
                  (text [])
                  (cons (element (codes "b") [] 0 nil) (cons (text (codes "go")) nil)))))))
unfolding highlight_text
highlight_text_runs = refl

content-highlight_text_example :
    content (highlight_text same_text (codes "go") (codes "on") false body) ≡ content body
content-highlight_text_example =
    content-highlight_text same_text (codes "go") (codes "on") false body

-- A page with a word to mark, and one button of an index.
abbrev small_page : Page
small_page = record {
  resets_address = false;
  body = element (codes "body") [] 0 (cons (text (codes "an error")) nil);
  has_hide_link = false;
  table = record { togglers = []; shown = λ row. true };
  takes_keys = false;
}

abbrev at : Text → Location
at search = record { hash = []; search = search }

-- `?highlight` has no value, and the set-up is cut.
cut_runs :
    (ready same_text no_escapes nothing_inherited
      (documentation_options [])
      (codes "mozilla")
      (at (codes "?highlight"))
      small_page).completed
    ≡ false
unfolding ready
cut_runs = refl

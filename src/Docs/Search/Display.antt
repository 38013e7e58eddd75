-- ===== src/Docs/Search/Display.antt =====
-- The order of the results, the addresses of the pages and what is shown for each.
use g_rpeakec_go.Prelude.{
  ℕ, zero, suc, ◌+◌, ◌-◌, ◌≤◌, ◌≡◌, refl, Bool, true, false, not, ◌&&◌, ◌||◌, Option, none, some,
  List, [], ◌∷◌, ◌++◌, map, length, ltb, leb, reverse, ◌==◌, if◌then◌else◌,
}
use g_rpeakec_go.Prelude.Int.{ℤ, ltb_ℤ}
use g_rpeakec_go.Prelude.Text.{Text, codes, text_eq, show}
use g_rpeakec_go.Docs.Options.{Options}
use g_rpeakec_go.Docs.Regex.{Re, word, seq, finish, exec, is_some, take, drop}
use g_rpeakec_go.Docs.Strings.{text_ltb, index_of, replace_first}
use g_rpeakec_go.Docs.Search.{Found}
use g_rpeakec_go.Docs.Doctools.Highlight.{Node, text, element, Nodes, nil, cons, highlight_text}
pub mod Order
pub mod Summary
pub mod Loop

-- What the comparison of two results returns: -1, 0 or 1.
pub data Comparison : Type 0 where
  before same after : Comparison

abbrev by_text : Text → Text → Comparison
by_text left right =
    if text_ltb right left then before else if text_ltb left right then after else same

-- The place of a result beside the first of those that are sorted.
abbrev pub placed : Found → Found → List Found → List Found → Comparison → List Found
placed r s rs deeper before = s ∷ deeper
placed r s rs deeper same = r ∷ s ∷ rs
placed r s rs deeper after = r ∷ s ∷ rs

module _ (to_lower : Text → Text) where
  unfoldable pub compare_results : Found → Found → Comparison
  unfolding text_ltb
  compare_results a b =
      if ltb_ℤ b.score a.score
      then after
      else if ltb_ℤ a.score b.score
      then before
      else by_text (to_lower a.title) (to_lower b.title)

  -- `results.sort(...)`, which is stable: a result stays in front of later ones
  -- that compare the same.
  unfoldable pub insert_result : Found → List Found → List Found
  insert_result r [] = r ∷ []
  insert_result r (s ∷ rs) = placed r s rs (insert_result r rs) (compare_results s r)

  unfoldable pub sort_results : List Found → List Found
  unfolding insert_result compare_results
  sort_results [] = []
  sort_results (r ∷ rs) = insert_result r (sort_results rs)

-- The directory of a page of the dirhtml builder.
unfoldable pub dirhtml_name : Text → Text
unfolding exec text_eq
dirhtml_name docname =
    let dirname = docname ++ codes "/" in
    if is_some (exec (seq (word (codes "/index/")) finish) dirname)
    then take (length dirname - 6) dirname
    else if text_eq dirname (codes "index/")
    then []
    else dirname

-- `requestUrl` and `linkUrl`.
unfoldable pub page_urls : Options → Text → Text × Text
unfolding dirhtml_name text_eq
page_urls options docname =
    let dir_url = options.url_root ++ dirhtml_name docname in
    if text_eq options.builder (codes "dirhtml")
    then (dir_url, dir_url)
    else (options.url_root ++ docname ++ options.file_suffix, docname ++ options.link_suffix)

-- An item of the list: its link, its title, the description of an object, and the summary of a page.
pub record Item : Type 0 where
  pub href : Text
  pub title : Text
  pub descr : Text
  pub summary : Option Node

-- The page's own way: `fetch` is the text that a request for the page returns, and `html_to_text`
-- the content of a page; both are the browser's and jQuery's, as are the rest.
pub record Browser : Type 0 where
  pub fetch : Text → Option Text
  pub html_to_text : Text → Text
  pub trim : Text → Text
  pub url_encode : Text → Text
  pub translate : Text → Text

abbrev join_words : List Text → Text
join_words [] = []
join_words (w ∷ []) = w
join_words (w ∷ v ∷ ws) = w ++ codes " " ++ join_words (v ∷ ws)

-- `highlightstring`
unfoldable pub highlight_string : Browser → List Text → Text
highlight_string browser hlterms = codes "?highlight=" ++ browser.url_encode (join_words hlterms)

abbrev pub last_position : Option ℕ → ℕ → ℕ
last_position none start = start
last_position (some i) start = i

-- `$('<div class="context"></div>').text(excerpt)`: an empty text is no node.
abbrev pub text_nodes : Text → Nodes
text_nodes [] = nil
text_nodes (c ∷ s) = cons (text (c ∷ s)) nil

abbrev pub context_element : Text → Node
context_element s = element (codes "div") (codes "context" ∷ []) 0 (text_nodes s)

module _ (to_lower : Text → Text) where
  -- The last keyword that is found decides.
  unfoldable pub find_start : Text → List Text → ℕ → ℕ
  unfolding index_of
  find_start text_lower [] start = start
  find_start text_lower (k ∷ ks) start =
      find_start text_lower ks (last_position (index_of (to_lower k) text_lower) start)

  -- `makeSearchSummary` up to the highlighting. The number `start + 240 - text.length` counts as
  -- true unless it is 0.
  unfoldable pub search_excerpt : Browser → Text → List Text → Text
  unfolding find_start
  search_excerpt browser html keywords =
      let content = browser.html_to_text html in
      let start = find_start (to_lower content) keywords 0 - 120 in
      (if ltb 0 start then codes "..." else [])
      ++ browser.trim (take 240 (drop start content))
      ++ (if start + 240 == length content then [] else codes "...")

  -- Every word is marked in what the words before it have made of the summary, which is in no
  -- `svg`.
  unfoldable pub highlight_words : List Text → Node → Node
  unfolding highlight_text
  highlight_words [] node = node
  highlight_words (w ∷ ws) node =
      highlight_words ws (highlight_text to_lower w (codes "highlighted") false node)

  -- `makeSearchSummary`
  unfoldable pub make_search_summary : Browser → Text → List Text → List Text → Node
  unfolding search_excerpt highlight_words
  make_search_summary browser html keywords hlwords =
      highlight_words hlwords (context_element (search_excerpt browser html keywords))

  abbrev pub summary_of : Browser → List Text → List Text → Option Text → Option Node
  summary_of browser keywords hlwords none = none
  summary_of browser keywords hlwords (some []) = none
  summary_of browser keywords hlwords (some (c ∷ data_of)) =
      some (make_search_summary browser (c ∷ data_of) keywords hlwords)

  abbrev described : Option Text → Bool
  described none = false
  described (some []) = false
  described (some (c ∷ d)) = true

  abbrev pub descr_text : Option Text → Text
  descr_text none = []
  descr_text (some d) = codes " (" ++ d ++ codes ")"

  -- What is shown for a result, by the three branches of `displayNextItem`.
  unfoldable pub display_item : Options → Browser → List Text → List Text → Found → Item
  unfolding page_urls make_search_summary highlight_string
  display_item options browser keywords hlterms r =
      let urls = page_urls options r.docname in
      let href = urls.1 ++ highlight_string browser hlterms ++ r.anchor in
      let fetched = summary_of browser keywords hlterms (browser.fetch urls.0) in
      if described r.descr
      then record { href = href; title = r.title; descr = descr_text r.descr; summary = none }
      else record {
        href = href;
        title = r.title;
        descr = [];
        summary = if options.has_source then fetched else none;
      }

unfoldable pub status_text : Browser → ℕ → Text
unfolding replace_first
status_text browser count =
    if count == 0
    then browser.translate (
        codes "Your search did not match any documents. Please make sure that "
        ++ codes "all words are spelled correctly and that you've selected enough categories.")
    else replace_first (codes "%s") (show count)
        (browser.translate (codes "Search finished, found %s page(s) matching the search query."))

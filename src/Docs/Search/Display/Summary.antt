-- ===== src/Docs/Search/Display/Summary.antt =====
-- The length and the text of a summary.
use g_rpeakec_go.Prelude.{
  ℕ, zero, suc, ◌+◌, ◌≤◌, Bool, true, false, List, [], ◌∷◌, ◌++◌, length, length-append, ltb, ◌==◌,
  ◌-◌, ◌≡◌, refl, ◌∙◌, append-nil, if◌then◌else◌, arith,
}
use g_rpeakec_go.Prelude.Text.{Text, codes}
use g_rpeakec_go.Docs.Regex.{take, drop}
use g_rpeakec_go.Docs.Search.Display.{
  Browser, find_start, search_excerpt, context_element, highlight_words, make_search_summary,
}
use g_rpeakec_go.Docs.Doctools.Highlight.{Node, highlight_text}
use g_rpeakec_go.Docs.Doctools.Highlight.Content.{content, content-highlight_text}

take-le : (n : ℕ) (s : Text) → length (take n s) ≤ n
take-le zero s = omega arith
take-le (suc n) [] = omega arith
take-le (suc n) (c ∷ s) = omega (arith, take-le n s)

dots-le : (b : Bool) → length (if b then codes "..." else []) ≤ 3
dots-le true = omega arith
dots-le false = omega arith

dots_else-le : (b : Bool) → length (if b then [] else codes "...") ≤ 3
dots_else-le true = omega arith
dots_else-le false = omega arith

-- The summary of a page is at most 246 characters long, whatever the page and the keywords: 240 of
-- the page and an ellipsis on each side, given that `trim` makes no text longer.
pub search_excerpt-le :
    (to_lower : Text → Text) (browser : Browser) (html : Text) (keywords : List Text)
    → ((s : Text) → length (browser.trim s) ≤ length s)
    → length (search_excerpt to_lower browser html keywords) ≤ 246
unfolding search_excerpt
search_excerpt-le to_lower browser html keywords trim-le =
    let page_text = browser.html_to_text html in
    let start = find_start to_lower (to_lower page_text) keywords 0 - 120 in
    let before = if ltb 0 start then codes "..." else [] in
    let middle = browser.trim (take 240 (drop start page_text)) in
    let after = if start + 240 == length page_text then [] else codes "..." in
    omega (
      arith,
      length-append (before ++ middle) after,
      length-append before middle,
      trim-le (take 240 (drop start page_text)),
      take-le 240 (drop start page_text),
      dots-le (ltb 0 start),
      dots_else-le (start + 240 == length page_text),
    )

content-highlight_words :
    (to_lower : Text → Text) (words : List Text) (node : Node)
    → content (highlight_words to_lower words node) ≡ content node
unfolding highlight_words
content-highlight_words to_lower [] node = refl
content-highlight_words to_lower (w ∷ ws) node =
    content-highlight_words to_lower ws (highlight_text to_lower w (codes "highlighted") false node)
    ∙ content-highlight_text to_lower w (codes "highlighted") false node

content-context_element : (s : Text) → content (context_element s) ≡ s
unfolding content
content-context_element [] = refl
content-context_element (c ∷ s) = append-nil (c ∷ s)

-- What is read in the summary of a page is its excerpt, whatever words are highlighted in it.
pub content-make_search_summary :
    (to_lower : Text → Text) (browser : Browser) (html : Text) (keywords hlwords : List Text)
    → content (make_search_summary to_lower browser html keywords hlwords)
      ≡ search_excerpt to_lower browser html keywords
unfolding make_search_summary
content-make_search_summary to_lower browser html keywords hlwords =
    content-highlight_words to_lower hlwords
      (context_element (search_excerpt to_lower browser html keywords))
    ∙ content-context_element (search_excerpt to_lower browser html keywords)

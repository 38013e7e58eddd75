-- ===== src/Docs/Doctools/Words.antt =====
-- `Documentation.highlightSearchWords` of docs/_static/doctools.js: the words of the address in the
-- body of the page.
use g_rpeakec_go.Prelude.{
  ℕ, ◌≡◌, refl, Bool, true, false, Option, none, some, List, [], ◌∷◌, ◌++◌, if◌then◌else◌, ◌||◌,
}
use g_rpeakec_go.Prelude.Text.{Text, codes, text_eq}
use g_rpeakec_go.Docs.Regex.{among, between}
use g_rpeakec_go.Docs.Strings.{lookup}
use g_rpeakec_go.Docs.Doctools.Params.{Params}
use g_rpeakec_go.Docs.Doctools.Highlight.{Node, highlight_text}
pub mod Laws

-- `\s`
abbrev space : ℕ → Bool
space c =
    between 9 13 c
    || among (32 ∷ 160 ∷ 5760 ∷ 8232 ∷ 8233 ∷ 8239 ∷ 8287 ∷ 12288 ∷ 65279 ∷ []) c
    || between 8192 8202 c

abbrev join_first : ℕ → List Text → List Text
join_first c [] = (c ∷ []) ∷ []
join_first c (p ∷ ps) = (c ∷ p) ∷ ps

-- `split(/\s+/)`; `in_run` says that the last character was a space.
unfoldable pub split_spaces : Bool → Text → List Text
split_spaces in_run [] = [] ∷ []
split_spaces true (c ∷ s) =
    let again = split_spaces true s in
    let word = join_first c (split_spaces false s) in if space c then again else word
split_spaces false (c ∷ s) =
    let cut = [] ∷ split_spaces true s in
    let word = join_first c (split_spaces false s) in if space c then cut else word

abbrev first_words : Option (List (Option Text)) → Option (List Text)
first_words none = some []
first_words (some []) = none
first_words (some (none ∷ vs)) = none
first_words (some (some v ∷ vs)) = some (split_spaces false v)

-- The words; the parameter without a value is undefined, and `split` of it throws.
unfoldable pub highlight_words : Params → Option (List Text)
unfolding split_spaces text_eq
highlight_words params = first_words (lookup (codes "highlight") params)

module _ (to_lower : Text → Text) where
  -- The loop over the words, some time later.
  unfoldable pub highlight_all : List Text → Node → Node
  unfolding highlight_text
  highlight_all [] body = body
  highlight_all (w ∷ ws) body =
      highlight_all ws (highlight_text to_lower (to_lower w) (codes "highlighted") false body)

  abbrev pub some_words : Option (List Text) → Node → Option (Node × Bool)
  some_words none body = none
  some_words (some []) body = some (body, false)
  some_words (some (w ∷ ws)) body = some (highlight_all (w ∷ ws) body, true)

  -- The body with its marks, and whether the link that hides them is added. `body` is the `div.body`
  -- of the page or, if there is none, the whole.
  unfoldable pub highlight_search_words : Params → Node → Option (Node × Bool)
  unfolding highlight_words highlight_all
  highlight_search_words params body = some_words (highlight_words params) body

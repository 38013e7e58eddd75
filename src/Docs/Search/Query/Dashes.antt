-- ===== src/Docs/Search/Query/Dashes.antt =====
-- No word of a query is excluded: `splitQuery` takes a dash for a separator.
use g_rpeakec_go.Prelude.{
  ◌≡◌, refl, ap, ◌∙◌, true, inl, inr, List, [], ◌∷◌, All, Bool-cases, length, ltb, leb, ◌&&◌, arith,
  ==_iff, ◌==◌,
}
use g_rpeakec_go.Prelude.Text.{Text, starts_with}
use g_rpeakec_go.Docs.Words.{split_chars, split_query}
use g_rpeakec_go.Docs.Words.Laws.{IsWord, split_query-IsWord}
use g_rpeakec_go.Docs.Stemmer.{stem_word}
use g_rpeakec_go.Docs.Stemmer.Start.{NoDash, stem_word-NoDash}
use g_rpeakec_go.Docs.Search.{Underscore}
use g_rpeakec_go.Docs.Search.Query.{
  Lists, no_words, sought_word, is_skipped, add_query_word, sort_words, query_words,
}

IsWord-NoDash : (w : Text) → IsWord w → NoDash w
unfolding split_chars starts_with
IsWord-NoDash [] ok = refl
IsWord-NoDash (c ∷ w) ok = elim (Bool-cases (b'-' == c)) [
  | inl e ↦
      let dash : split_chars b'-' ≡ true = refl in
      let other = ap split_chars ((==_iff b'-' c).0 e) ∙ ok.1.0 in
      absurd (ground (arith, dash, other))
  | inr e ↦ rw e refl
]

module _ (to_lower : Text → Text) (u : Underscore) where
  sought_word-NoDash :
      (tmp : Text)
      → ((s : Text) → NoDash s → NoDash (to_lower s))
      → NoDash tmp
      → NoDash (sought_word to_lower u tmp)
  unfolding sought_word
  sought_word-NoDash tmp lower ok =
      let word = stem_word (to_lower tmp) in
      let kept = stem_word-NoDash (to_lower tmp) (lower tmp ok) in
      elim (Bool-cases (ltb (length word) 3 && leb 3 (length tmp))) [
        | inl e ↦ rw e ok
        | inr e ↦ rw e kept
      ]

  add_query_word-excluded :
      (tmp : Text) (l : Lists)
      → NoDash (sought_word to_lower u tmp)
      → (add_query_word to_lower u tmp l).excluded ≡ l.excluded
  unfolding add_query_word
  add_query_word-excluded tmp l ok = elim (Bool-cases (is_skipped to_lower u tmp)) [
    | inl e ↦ rw e refl
    | inr e ↦ rw e (rw ok refl)
  ]

  sort_words-excluded :
      (words : List Text) (l : Lists)
      → ((s : Text) → NoDash s → NoDash (to_lower s))
      → All IsWord words
      → (sort_words to_lower u words l).excluded ≡ l.excluded
  unfolding sort_words
  sort_words-excluded [] l lower ok = refl
  sort_words-excluded (tmp ∷ words) l lower (here, ok) =
      sort_words-excluded words (add_query_word to_lower u tmp l) lower ok
      ∙ add_query_word-excluded tmp l (sought_word-NoDash tmp lower (IsWord-NoDash tmp here))

  -- No query has an excluded word, given that `toLowerCase` puts no dash before a word that does
  -- not begin with one: the words have no dash of their own, and no step of the stemmer adds one.
  pub query_words-excluded :
      (query : Text)
      → ((s : Text) → NoDash s → NoDash (to_lower s))
      → (query_words to_lower u query).excluded ≡ []
  unfolding query_words
  query_words-excluded query lower =
      sort_words-excluded (split_query query) no_words lower (split_query-IsWord query).0

-- ===== src/Docs/Search/Query/Words.antt =====
-- The words of a query in their lists.
use g_rpeakec_go.Prelude.{
  ◌≡◌, ◌≢◌, inl, inr, refl, ap, sym, ◌∙◌, List, [], ◌∷◌, ◌++◌, map, All, append_assoc, append-nil,
  Bool-cases,
}
use g_rpeakec_go.Prelude.Text.{Text, codes, starts_with}
use g_rpeakec_go.Docs.Regex.{drop}
use g_rpeakec_go.Docs.Strings.{mem}
use g_rpeakec_go.Docs.Words.{split_query}
use g_rpeakec_go.Docs.Words.Laws.{IsWord, split_query-IsWord}
use g_rpeakec_go.Docs.Search.{string, Underscore}
use g_rpeakec_go.Docs.Search.Terms.Mapping.{NoRepeat, NoRepeat-last}
use g_rpeakec_go.Docs.Search.Query.{
  Lists, no_words, push_new, sought_word, is_skipped, add_query_word, sort_words, query_words,
}

module _ (to_lower : Text → Text) (u : Underscore) where
  add_query_word-objectterms :
      (tmp : Text) (l : Lists)
      → tmp ≢ []
      → (add_query_word to_lower u tmp l).objectterms ≡ l.objectterms ++ to_lower tmp ∷ []
  unfolding add_query_word
  add_query_word-objectterms [] l ne = absurd (ne refl)
  add_query_word-objectterms (c ∷ tmp) l ne =
      let sought = sought_word to_lower u (c ∷ tmp) in
      elim (Bool-cases (is_skipped to_lower u (c ∷ tmp))) [
        | inl e ↦ rw e refl
        | inr e ↦ elim (Bool-cases (starts_with (codes "-") sought)) [
          | inl q ↦ rw e (rw q refl)
          | inr q ↦ rw e (rw q refl)
        ]
      ]

  sort_words-objectterms :
      (words : List Text) (l : Lists)
      → All IsWord words
      → (sort_words to_lower u words l).objectterms ≡ l.objectterms ++ map to_lower words
  unfolding sort_words
  sort_words-objectterms [] l ok = sym (append-nil l.objectterms)
  sort_words-objectterms (tmp ∷ words) l ((ne, _), ok) =
      sort_words-objectterms words (add_query_word to_lower u tmp l) ok
      ∙ (ap (λ ts. ts ++ map to_lower words) (add_query_word-objectterms tmp l ne)
          ∙ append_assoc l.objectterms (to_lower tmp ∷ []) (map to_lower words))

  -- The objects are sought by every word of the query in lower case, in the order of the query,
  -- those included that the search of the pages skips.
  pub query_words-objectterms :
      (query : Text) → (query_words to_lower u query).objectterms ≡ map to_lower (split_query query)
  unfolding query_words
  query_words-objectterms query =
      sort_words-objectterms (split_query query) no_words (split_query-IsWord query).0

  -- `contains` finds a text among texts exactly when it is there.
  abbrev pub FindsTexts : Type 0
  FindsTexts = (ws : List Text) (w : Text) → (u.contains (map string ws) (string w) ≡ mem w ws)

  push_new-NoRepeat :
      (w : Text) (ws : List Text) → FindsTexts → NoRepeat ws → NoRepeat (push_new to_lower u w ws)
  push_new-NoRepeat w ws finds ok = elim (Bool-cases (mem w ws)) [
    | inl e ↦ rw (finds ws w) (rw e ok)
    | inr e ↦ rw (finds ws w) (rw e (NoRepeat-last w ws e ok))
  ]

  abbrev pub IsUnique : Lists → Type 0
  IsUnique l = NoRepeat l.searchterms × NoRepeat l.excluded

  add_query_word-IsUnique :
      (tmp : Text) (l : Lists)
      → FindsTexts
      → IsUnique l
      → IsUnique (add_query_word to_lower u tmp l)
  unfolding add_query_word
  add_query_word-IsUnique tmp l finds (terms, out) =
      let word = sought_word to_lower u tmp in
      elim (Bool-cases (is_skipped to_lower u tmp)) [
        | inl e ↦ rw e (terms, out)
        | inr e ↦ elim (Bool-cases (starts_with (codes "-") word)) [
          | inl q ↦ rw e (rw q (terms, push_new-NoRepeat (drop 1 word) l.excluded finds out))
          | inr q ↦ rw e (rw q (push_new-NoRepeat word l.searchterms finds terms, out))
        ]
      ]

  sort_words-IsUnique :
      (words : List Text) (l : Lists)
      → FindsTexts
      → IsUnique l
      → IsUnique (sort_words to_lower u words l)
  unfolding sort_words
  sort_words-IsUnique [] l finds ok = ok
  sort_words-IsUnique (tmp ∷ words) l finds ok =
      sort_words-IsUnique words (add_query_word to_lower u tmp l) finds
        (add_query_word-IsUnique tmp l finds ok)

  -- No word that is sought in the pages stands twice, and no excluded word either, given that
  -- `contains` finds the texts of a list and no others.
  pub query_words-IsUnique : (query : Text) → FindsTexts → IsUnique (query_words to_lower u query)
  unfolding query_words
  query_words-IsUnique query finds = sort_words-IsUnique (split_query query) no_words finds (tt, tt)

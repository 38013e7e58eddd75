-- ===== src/Docs/Search/Query.antt =====
-- `Search.query`: the words of a query, in the lists that the searches take, and the two searches.
use g_rpeakec_go.Prelude.{
  ℕ, zero, suc, ◌≡◌, refl, Bool, true, false, not, ◌&&◌, ◌||◌, Option, none, some, List, [], ◌∷◌,
  ◌++◌, map, length, ltb, leb, if◌then◌else◌,
}
use g_rpeakec_go.Prelude.Text.{Text, codes, text_eq, starts_with}
use g_rpeakec_go.Docs.Regex.{drop}
use g_rpeakec_go.Docs.Stemmer.{stem_word}
use g_rpeakec_go.Docs.Words.{stopwords, split_query}
use g_rpeakec_go.Docs.Search.{Found, Index, Key, string, Underscore}
use g_rpeakec_go.Docs.Search.Objects.{perform_object_search}
use g_rpeakec_go.Docs.Search.Terms.{perform_terms_search}
pub mod Words
pub mod Dashes

pub record Lists : Type 0 where
  pub searchterms : List Text
  pub excluded : List Text
  pub hlterms : List Text
  pub objectterms : List Text

abbrev pub no_words : Lists
no_words = record { searchterms = []; excluded = []; hlterms = []; objectterms = [] }

abbrev pub is_some {ℓ} : {A : Type ℓ} → Option A → Bool
is_some none = false
is_some (some a) = true

module _ (to_lower : Text → Text) (u : Underscore) where
  -- The word as it is sought: its stem, unless that is too short for the word.
  unfoldable pub sought_word : Text → Text
  unfolding stem_word
  sought_word tmp =
      let word = stem_word (to_lower tmp) in
      if ltb (length word) 3 && leb 3 (length tmp) then tmp else word

  abbrev pub push_new : Text → List Text → List Text
  push_new word list =
      if u.contains (map string list) (string word) then list else list ++ word ∷ []

  abbrev pub is_skipped : Text → Bool
  is_skipped tmp =
      is_some (u.index_of (map string stopwords) (string (to_lower tmp))) || text_eq tmp []

  abbrev add_object_term : Text → Lists → Lists
  add_object_term tmp l = record {
    searchterms = l.searchterms;
    excluded = l.excluded;
    hlterms = l.hlterms;
    objectterms = if text_eq tmp [] then l.objectterms else l.objectterms ++ to_lower tmp ∷ [];
  }

  abbrev pub add_excluded : Text → Lists → Lists
  add_excluded word l = record {
    searchterms = l.searchterms;
    excluded = push_new word l.excluded;
    hlterms = l.hlterms;
    objectterms = l.objectterms;
  }

  abbrev pub add_term : Text → Text → Lists → Lists
  add_term tmp word l = record {
    searchterms = push_new word l.searchterms;
    excluded = l.excluded;
    hlterms = l.hlterms ++ to_lower tmp ∷ [];
    objectterms = l.objectterms;
  }

  -- One round of the loop.
  unfoldable pub add_query_word : Text → Lists → Lists
  unfolding sought_word text_eq starts_with
  add_query_word tmp before =
      let l = add_object_term tmp before in
      let word = sought_word tmp in
      if is_skipped tmp
      then l
      else if starts_with (codes "-") word
      then add_excluded (drop 1 word) l
      else add_term tmp word l

  unfoldable pub sort_words : List Text → Lists → Lists
  unfolding add_query_word
  sort_words [] l = l
  sort_words (tmp ∷ words) l = sort_words words (add_query_word tmp l)

  unfoldable pub query_words : Text → Lists
  unfolding sort_words split_query
  query_words query = sort_words (split_query query) no_words

  module _ (translate : Text → Text) (index : Index) where
    -- Each word in turn, with the words before and after it.
    unfoldable pub search_objects : List Text → List Text → List Found
    unfolding perform_object_search
    search_objects before [] = []
    search_objects before (t ∷ after) =
        perform_object_search to_lower translate index t (before ++ after)
        ++ search_objects (before ++ t ∷ []) after

    -- The results, before they are sorted; `none` where the search of terms is.
    unfoldable pub query_results : (inherited : Text → Bool) → Text → Option (List Found)
    unfolding query_words search_objects perform_terms_search
    query_results inherited query =
        let l = query_words query in
        elim (perform_terms_search u inherited index l.searchterms l.excluded) [
          | none ↦ none
          | some pages ↦ some (search_objects [] l.objectterms ++ pages)
        ]

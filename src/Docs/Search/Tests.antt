-- ===== src/Docs/Search/Tests.antt =====
-- Runs of the search.
use mathlib.Core.List.{Perm}
use g_rpeakec_go.Prelude.{
  ℕ, ◌≡◌, ◌↔◌, refl, Bool, true, false, none, some, [], ◌∷◌, List, ◌==◌, if◌then◌else◌, ltb, ==_iff,
  arith,
}
use g_rpeakec_go.Prelude.Int.{pos, ◌+ℤ◌}
use g_rpeakec_go.Prelude.Text.{Text, codes, text_eq, text_eq_iff}
use g_rpeakec_go.Docs.Search.{one_file, files, Found, Index, Key, number, string, Underscore}
use g_rpeakec_go.Docs.Search.Objects.{perform_object_search}
use g_rpeakec_go.Docs.Search.Objects.Wanted.{FoundAll, perform_object_search_lem}
use g_rpeakec_go.Docs.Search.Terms.{
  FileMap, ScoreMap, score_all, escape_reg_exp, match_words, is_excluded, perform_terms_search,
}
use g_rpeakec_go.Docs.Search.Terms.Mapping.{IsMapping, match_words-IsMapping}
use g_rpeakec_go.Docs.Search.Terms.Excluded.{Among, is_excluded-IsMany}
use g_rpeakec_go.Docs.Search.Display.Order.{Ascends, sort_results_lem}
use g_rpeakec_go.Docs.Search.Query.{query_words}
use g_rpeakec_go.Docs.Search.Query.Dashes.{query_words-excluded}
use g_rpeakec_go.Docs.Search.Display.{Browser, sort_results, make_search_summary}
use g_rpeakec_go.Docs.Doctools.Highlight.{text, element, nil, cons}
use g_rpeakec_go.Docs.Search.Whole.{load_index}
use g_rpeakec_go.Docs.Search.Pulse.{new_search, perform_search, set_index, start, next, query_made}
use g_rpeakec_go.Docs.Search.Pulse.Runs.{IsPulsing, Reachable-IsPulsing, set_index-perform_search}

-- An index of three pages and one object.
abbrev same_text : Text → Text
same_text s = s

abbrev go_index : Index
go_index = record {
  docnames = codes "a" ∷ codes "b" ∷ codes "c" ∷ [];
  filenames = codes "a.rst" ∷ codes "b.rst" ∷ codes "c.rst" ∷ [];
  titles = codes "A" ∷ codes "B" ∷ codes "C" ∷ [];
  terms = (codes "error", files (0 ∷ 2 ∷ [])) ∷ (codes "grpc", one_file 1) ∷ [];
  titleterms = [];
  objects =
      (codes "pkerr", (codes "New", record { document = 1; kind = 0; prio = 1; anchor = [] }) ∷ [])
      ∷ [];
  objnames = λ n. record { key = codes "go-func"; label = codes "function" };
}

perform_object_search_runs :
    perform_object_search same_text same_text go_index (codes "New") []
    ≡ record {
      docname = codes "b";
      title = codes "pkerr.New";
      anchor = codes "#pkerr.New";
      descr = some (codes "function, in B");
      score = pos 16;
      filename = codes "b.rst";
    }
      ∷ []
unfolding perform_object_search ◌+ℤ◌
perform_object_search_runs = refl

perform_object_search_lem_example :
    FoundAll same_text same_text go_index
      (codes "New")
      []
      go_index.objects
      (perform_object_search same_text same_text go_index (codes "New") [])
perform_object_search_lem_example =
    perform_object_search_lem same_text same_text go_index (codes "New") []

escape_reg_exp_runs : escape_reg_exp (codes "a.b") ≡ codes "a\\.b"
unfolding escape_reg_exp
escape_reg_exp_runs = refl

abbrev no_names : Text → Bool
no_names s = false

abbrev empty_map : FileMap × ScoreMap
empty_map = ([], λ f w. none)

abbrev matched : FileMap × ScoreMap
matched = (
  (0, codes "error" ∷ []) ∷ (1, codes "grpc" ∷ []) ∷ (2, codes "error" ∷ []) ∷ [],
  score_all (codes "grpc") ((some (one_file 1), 5) ∷ (none, 15) ∷ [])
      (score_all (codes "error") ((some (files (0 ∷ 2 ∷ [])), 5) ∷ (none, 15) ∷ []) empty_map.1),
)

go_matched :
    match_words no_names go_index.terms [] (codes "error" ∷ codes "grpc" ∷ []) empty_map
    ≡ some matched
unfolding match_words
go_matched = refl

match_words-IsMapping_example : IsMapping matched.0
match_words-IsMapping_example =
    match_words-IsMapping no_names go_index.terms [] (codes "error" ∷ codes "grpc" ∷ []) empty_map
      matched tt go_matched

-- underscore's functions on lists.
abbrev same_key : Key → Key → Bool
same_key (number a) (number b) = a == b
same_key (number a) (string t) = false
same_key (string s) (number b) = false
same_key (string s) (string t) = text_eq s t

abbrev has_key : List Key → Key → Bool
has_key [] k = false
has_key (j ∷ js) k = if same_key j k then true else has_key js k

abbrev greatest : List ℕ → ℕ
greatest [] = 0
greatest (n ∷ ns) = let m = greatest ns in if ltb m n then n else m

abbrev list_functions : Underscore
list_functions = record {
  contains = has_key;
  index_of = λ ks k. if has_key ks k then some 0 else none;
  max_of = greatest;
}

same_key-lem : (j k : Key) → (same_key j k ≡ true) ↔ (j ≡ k)
same_key-lem (number a) (number b) = ground (arith, ==_iff a b)
same_key-lem (number a) (string t) = ground arith
same_key-lem (string s) (number b) = ground arith
same_key-lem (string s) (string t) = ground (arith, text_eq_iff s t)

has_key-Among : (ks : List Key) (k : Key) → (has_key ks k ≡ true) ↔ Among k ks
has_key-Among [] k = ground arith
has_key-Among (j ∷ ks) k = ground (arith, same_key-lem j k, has_key-Among ks k)

-- A page is found by its word, with the score of a word in the text.
perform_terms_search_runs :
    perform_terms_search list_functions no_names go_index (codes "grpc" ∷ []) []
    ≡ some (
        record {
          docname = codes "b";
          title = codes "B";
          anchor = [];
          descr = none;
          score = pos 5;
          filename = codes "b.rst";
        }
        ∷ [])
unfolding perform_terms_search
perform_terms_search_runs = refl

is_excluded-IsMany_example :
    is_excluded list_functions go_index.terms [] (codes "error" ∷ []) 2 ≡ false
unfolding text_eq
is_excluded-IsMany_example =
    is_excluded-IsMany list_functions go_index.terms [] (codes "error" ∷ []) 2 has_key-Among
      ((tt, tt), tt)

abbrev page_at : ℕ → Found
page_at n = record {
  docname = codes "a";
  title = codes "A";
  anchor = [];
  descr = none;
  score = pos n;
  filename = codes "a.rst";
}

sort_results_lem_example :
    Perm (sort_results same_text (page_at 5 ∷ page_at 2 ∷ [])) (page_at 5 ∷ page_at 2 ∷ [])
    × Ascends same_text (sort_results same_text (page_at 5 ∷ page_at 2 ∷ []))
sort_results_lem_example = sort_results_lem same_text (page_at 5 ∷ page_at 2 ∷ [])

Reachable-IsPulsing_example : IsPulsing (perform_search (codes "go") new_search)
Reachable-IsPulsing_example =
    Reachable-IsPulsing (perform_search (codes "go") new_search)
      (next start (query_made (codes "go") new_search))

set_index-perform_search_example :
    ((set_index go_index (perform_search (codes "go") new_search)).performed
      ≡ (codes "go", go_index) ∷ [])
    × ((perform_search (codes "go") (set_index go_index new_search)).performed
        ≡ (codes "go", go_index) ∷ [])
set_index-perform_search_example =
    set_index-perform_search new_search (codes "go") go_index refl refl

abbrev small_browser : Browser
small_browser = record {
  fetch = λ url. none;
  html_to_text = same_text;
  trim = same_text;
  url_encode = same_text;
  translate = same_text;
}

-- The word that is sought is marked, and the short text has an ellipsis behind it.
summary_marked :
    make_search_summary same_text small_browser
      (codes "an error")
      (codes "err" ∷ [])
      (codes "err" ∷ [])
    ≡ element (codes "div") (codes "context" ∷ []) 0 (
        cons (text (codes "an ")) (
          cons
            (element (codes "span") (codes "highlighted" ∷ []) 0 (cons (text (codes "err")) nil))
            (cons (text (codes "or...")) nil)))
unfolding make_search_summary
summary_marked = refl

load_index_failed :
    (load_index (codes "searchindex.js")).1 (codes "error") ≡ some (codes "searchindex.js")
unfolding load_index
load_index_failed = refl

query_words-excluded_example :
    (query_words same_text list_functions (codes "go -test")).excluded ≡ []
query_words-excluded_example =
    query_words-excluded same_text list_functions (codes "go -test") (λ s ok. ok)

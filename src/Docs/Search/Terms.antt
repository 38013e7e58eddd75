-- ===== src/Docs/Search/Terms.antt =====
-- `performTermsSearch`: the pages that hold the words of a query, and none of the excluded words.
use g_rpeakec_go.Prelude.{
  ℕ, zero, suc, ◌≡◌, refl, Bool, true, false, not, ◌&&◌, ◌||◌, Option, none, some, List, [], ◌∷◌,
  ◌++◌, map, length, get_elem?, any, all, ltb, ◌==◌, if◌then◌else◌,
}
use g_rpeakec_go.Prelude.Int.{ℤ, pos}
use g_rpeakec_go.Prelude.Text.{Text, codes, text_eq, show}
use g_rpeakec_go.Docs.Regex.{among}
use g_rpeakec_go.Docs.Strings.{index_of, found, text_at, lookup, mem}
use g_rpeakec_go.Docs.Search.{
  term_score, partial_term_score, title_score, partial_title_score, Found, Files, one_file, files,
  Index, Key, number, string, Underscore,
}
pub mod Pattern
pub mod Excluded
pub mod Mapping

-- The characters that have a meaning in a regular expression.
abbrev pub metacharacters : Text
metacharacters = codes ".*+-?^${}()|[]\\"

-- A backslash before each of them.
unfoldable pub escape_reg_exp : Text → Text
escape_reg_exp [] = []
escape_reg_exp (c ∷ s) =
    let rest = escape_reg_exp s in if among metacharacters c then b'\\' ∷ c ∷ rest else c ∷ rest

abbrev pub cons_to : ℕ → Option Text → Option Text
cons_to c none = none
cons_to c (some s) = some (c ∷ s)

-- The text that a pattern of plain and of escaped characters stands for. Any other pattern has a
-- meaning of its own, and is `none`.
unfoldable pub read_pattern : Text → Option Text
read_pattern [] = some []
read_pattern (c ∷ []) = if among metacharacters c then none else some (c ∷ [])
read_pattern (c ∷ d ∷ s) =
    let escaped = cons_to d (read_pattern s) in
    let plain = cons_to c (read_pattern (d ∷ s)) in
    if c == b'\\'
    then if among metacharacters d then escaped else none
    else if among metacharacters c
    then none
    else plain

-- `w.match(pattern)` for such a pattern.
abbrev pub matches_pattern : Option Text → Text → Bool
matches_pattern none w = false
matches_pattern (some p) w = found (index_of p w)

-- `!entry`: there is none, or it is the single file 0.
abbrev pub falsy : Option Files → Bool
falsy none = true
falsy (some (one_file f)) = f == 0
falsy (some (files fs)) = false

-- The words of a table that hold the pattern, when the word itself has no entry that counts.
abbrev partial_matches : Text → Option Files → ℕ → List (Text × Files) → List (Option Files × ℕ)
partial_matches word exact score [] = []
partial_matches word exact score ((w, f) ∷ table) =
    (if matches_pattern (read_pattern (escape_reg_exp word)) w && falsy exact
      then (some f, score) ∷ []
      else [])
    ++ partial_matches word exact score table

-- `_o`. A name that every object has from its prototype, such as `constructor`, reads as a value of
-- the engine, no file of the index: what the search makes of it is beyond this model, `none`.
abbrev pub word_files :
    (inherited : Text → Bool)
    → List (Text × Files)
    → List (Text × Files)
    → Text
    → Option (List (Option Files × ℕ))
word_files inherited terms titleterms word =
    if inherited word
    then none
    else some (
        (lookup word terms, term_score)
        ∷ (lookup word titleterms, title_score)
        ∷ (if ltb 2 (length word)
            then partial_matches word (lookup word terms) partial_term_score terms
              ++ partial_matches word (lookup word titleterms) partial_title_score titleterms
            else []))

abbrev pub file_list : Files → List ℕ
file_list (one_file f) = f ∷ []
file_list (files fs) = fs

abbrev pub opt_files : Option Files → List ℕ
opt_files none = []
opt_files (some fs) = file_list fs

-- The keys of `fileMap` are file numbers, which a loop over the object takes in order.
abbrev pub FileMap : Type 0
FileMap = List (ℕ × List Text)

abbrev pub find_file : ℕ → FileMap → Option (List Text)
find_file f [] = none
find_file f ((g, ws) ∷ m) = if f == g then some ws else find_file f m

abbrev pub put_file : ℕ → List Text → FileMap → FileMap
put_file f ws [] = (f, ws) ∷ []
put_file f ws ((g, vs) ∷ m) =
    let rest = put_file f ws m in
    if f == g then (f, ws) ∷ m else if ltb f g then (f, ws) ∷ (g, vs) ∷ m else (g, vs) ∷ rest

-- What the mapping holds for a file after one more match of a word.
abbrev pub add_word : Text → Option (List Text) → List Text
add_word word none = word ∷ []
add_word word (some ws) = if mem word ws then word ∷ [] else ws ++ word ∷ []

unfoldable pub map_files : Text → List ℕ → FileMap → FileMap
unfolding text_eq
map_files word [] m = m
map_files word (f ∷ fs) m = map_files word fs (put_file f (add_word word (find_file f m)) m)

-- `scoreMap[file][word] = score`; the last assignment counts.
abbrev pub ScoreMap : Type 0
ScoreMap = ℕ → Text → Option ℕ

abbrev pub set_score : ℕ → Text → ℕ → ScoreMap → ScoreMap
set_score f word score m = λ g w. if f == g && text_eq word w then some score else m g w

abbrev pub score_files : Text → ℕ → List ℕ → ScoreMap → ScoreMap
score_files word score [] m = m
score_files word score (f ∷ fs) m = score_files word score fs (set_score f word score m)

abbrev pub score_all : Text → List (Option Files × ℕ) → ScoreMap → ScoreMap
score_all word [] m = m
score_all word ((fs, score) ∷ o) m = score_all word o (score_files word score (opt_files fs) m)

abbrev pub all_files : List (Option Files × ℕ) → List ℕ
all_files [] = []
all_files ((fs, score) ∷ o) = opt_files fs ++ all_files o

abbrev pub no_files : List (Option Files × ℕ) → Bool
no_files o = all (λ x. elim x.0 [ none ↦ true | some _ ↦ false ]) o

-- The loop over the words of the query, which stops at a word that nothing holds.
unfoldable pub match_words :
    (inherited : Text → Bool)
    → List (Text × Files)
    → List (Text × Files)
    → List Text
    → FileMap × ScoreMap
    → Option (FileMap × ScoreMap)
unfolding map_files escape_reg_exp read_pattern text_eq index_of
match_words inherited terms titleterms [] m = some m
match_words inherited terms titleterms (word ∷ words) m =
    elim (word_files inherited terms titleterms word) [
      | none ↦ none
      | some o ↦
          let next =
            match_words inherited terms titleterms words
              (map_files word (all_files o) m.0, score_all word o m.1) in
          if no_files o then some m else next
    ]

-- `terms[word] == file` for a file that is a key: a single file is compared as a number, and a list
-- as the text of its elements with commas.
unfoldable pub commas : List ℕ → Text
commas [] = []
commas (f ∷ []) = show f
commas (f ∷ g ∷ fs) = show f ++ codes "," ++ commas (g ∷ fs)

abbrev pub loosely_equal : Option Files → ℕ → Bool
loosely_equal none f = false
loosely_equal (some (one_file g)) f = f == g
loosely_equal (some (files fs)) f = text_eq (commas fs) (show f)

-- What `contains` is given for `terms[word] || []`: a single file is no list and holds nothing.
abbrev pub keys_of : Option Files → List Key
keys_of none = []
keys_of (some (one_file g)) = []
keys_of (some (files fs)) = map number fs

module _ (u : Underscore) where
  abbrev pub is_excluded_by : List (Text × Files) → List (Text × Files) → ℕ → Text → Bool
  is_excluded_by terms titleterms f word =
      loosely_equal (lookup word terms) f
      || loosely_equal (lookup word titleterms) f
      || u.contains (keys_of (lookup word terms)) (string (show f))
      || u.contains (keys_of (lookup word titleterms)) (string (show f))

  abbrev pub is_excluded : List (Text × Files) → List (Text × Files) → List Text → ℕ → Bool
  is_excluded terms titleterms excluded f = any (is_excluded_by terms titleterms f) excluded

  -- Words of at most two letters may be missing.
  abbrev pub long_words : List Text → ℕ
  long_words [] = 0
  long_words (t ∷ ts) = if ltb 2 (length t) then suc (long_words ts) else long_words ts

  abbrev pub has_all_words : List Text → List Text → Bool
  has_all_words searchterms found_words =
      length found_words == length searchterms || length found_words == long_words searchterms

  abbrev score_value : Option ℕ → ℕ
  score_value none = 0
  score_value (some s) = s

  abbrev pub page_result : Index → ScoreMap → ℕ → List Text → Found
  page_result index scores f words = record {
    docname = text_at (get_elem? index.docnames f);
    title = text_at (get_elem? index.titles f);
    anchor = [];
    descr = none;
    score = pos (u.max_of (map (λ w. score_value (scores f w)) words));
    filename = text_at (get_elem? index.filenames f);
  }

  abbrev pub is_result : Index → List Text → List Text → ℕ → List Text → Bool
  is_result index searchterms excluded f words =
      has_all_words searchterms words && not (is_excluded index.terms index.titleterms excluded f)

  unfoldable pub collect_pages :
      Index → List Text → List Text → ScoreMap → FileMap → List Found → List Found
  unfolding show text_eq commas
  collect_pages index searchterms excluded scores [] results = results
  collect_pages index searchterms excluded scores ((f, words) ∷ m) results =
      let with_it =
        collect_pages index searchterms excluded scores m
          (results ++ page_result index scores f words ∷ []) in
      let without = collect_pages index searchterms excluded scores m results in
      if is_result index searchterms excluded f words then with_it else without

  -- `none` where a word of the query or an excluded one is an inherited name.
  unfoldable pub perform_terms_search :
      (inherited : Text → Bool) → Index → List Text → List Text → Option (List Found)
  unfolding match_words collect_pages
  perform_terms_search inherited index searchterms excluded =
      elim (match_words inherited index.terms index.titleterms searchterms ([], λ f w. none)) [
        | none ↦ none
        | some (file_map, scores) ↦
            if any inherited excluded
            then none
            else some (collect_pages index searchterms excluded scores file_map [])
      ]

-- ===== src/Docs/Search/Terms/Mapping.antt =====
-- The mapping from files to the words that they hold.
use mathlib.Core.Path.{subst}
use g_rpeakec_go.Prelude.{
  ℕ, ◌<◌, ◌≡◌, ◌≢◌, refl, ap, sym, ◌∙◌, Bool, if◌then◌else◌, true, false, Option, none, some, inl,
  inr, List, [], ◌∷◌, ◌++◌, ltb, ◌==◌, ==_iff, All, Bool-cases, arith,
}
use g_rpeakec_go.Prelude.Text.{Text, text_eq, text_eq_iff, text_eq_refl}
use g_rpeakec_go.Docs.Strings.{mem}
use g_rpeakec_go.Docs.Search.{Files}
use g_rpeakec_go.Docs.Search.Terms.{
  FileMap, ScoreMap, find_file, put_file, add_word, map_files, match_words, no_files, word_files,
  all_files, score_all,
}

find_file-put_file :
    (f : ℕ) (ws : List Text) (m : FileMap) → find_file f (put_file f ws m) ≡ some ws
find_file-put_file f ws [] = ground arith
find_file-put_file f ws ((g, vs) ∷ m) = ground (arith, find_file-put_file f ws m)

find_file-put_file_other :
    (f g : ℕ) (ws : List Text) (m : FileMap) → f ≢ g → find_file f (put_file g ws m) ≡ find_file f m
find_file-put_file_other f g ws [] ne = ground arith
find_file-put_file_other f g ws ((h, vs) ∷ m) ne =
    ground (arith, find_file-put_file_other f g ws m ne)

mem-last : (w : Text) (ws : List Text) → mem w (ws ++ w ∷ []) ≡ true
mem-last w [] = rw (text_eq_refl w) refl
mem-last w (v ∷ ws) = ground (arith, mem-last w ws)

mem-add_word : (w : Text) (o : Option (List Text)) → mem w (add_word w o) ≡ true
mem-add_word w none = mem-last w []
mem-add_word w (some ws) = elim (Bool-cases (mem w ws)) [
  | inl e ↦ rw e (mem-last w [])
  | inr e ↦ rw e (mem-last w ws)
]

-- A file in which a word is matched twice ends up with this word alone, whatever words were found
-- in it before, since the second match sets its list anew.
pub map_files-twice :
    (word : Text) (f : ℕ) (m : FileMap)
    → find_file f (map_files word (f ∷ f ∷ []) m) ≡ some (word ∷ [])
unfolding map_files
map_files-twice word f m =
    let ws = add_word word (find_file f m) in
    find_file-put_file f _ (put_file f ws m)
    ∙ ap (λ o. some (add_word word o)) (find_file-put_file f ws m)
    ∙ rw (mem-add_word word (find_file f m)) refl

-- Each word at most once.
abbrev pub NoRepeat : List Text → Type 0
NoRepeat [] = Unit
NoRepeat (w ∷ ws) = (mem w ws ≡ false) × NoRepeat ws

-- The keys of a mapping ascend, and no list of words repeats one.
abbrev pub IsMapping : FileMap → Type 0
IsMapping [] = Unit
IsMapping ((f, ws) ∷ m) = NoRepeat ws × All (λ e. f < e.0) m × IsMapping m

mem-last_other :
    (v w : Text) (ws : List Text)
    → mem v ws ≡ false
    → text_eq w v ≡ false
    → mem v (ws ++ w ∷ []) ≡ false
mem-last_other v w [] h ne = rw ne refl
mem-last_other v w (u ∷ ws) h ne = ground (arith, mem-last_other v w ws, h, ne)

text_eq_sym : (s t : Text) → text_eq s t ≡ false → text_eq t s ≡ false
text_eq_sym s t h = ground (arith, text_eq_iff s t, text_eq_iff t s)

pub NoRepeat-last :
    (w : Text) (ws : List Text) → mem w ws ≡ false → NoRepeat ws → NoRepeat (ws ++ w ∷ [])
NoRepeat-last w [] h ok = (refl, tt)
NoRepeat-last w (v ∷ ws) h (here, ok) =
    let ne : text_eq v w ≡ false = ground (arith, h) in
    let rest : mem w ws ≡ false = ground (arith, h) in
    (mem-last_other v w ws here (text_eq_sym v w ne), NoRepeat-last w ws rest ok)

abbrev IsWords : Option (List Text) → Type 0
IsWords none = Unit
IsWords (some ws) = NoRepeat ws

add_word-NoRepeat : (w : Text) (o : Option (List Text)) → IsWords o → NoRepeat (add_word w o)
add_word-NoRepeat w none ok = (refl, tt)
add_word-NoRepeat w (some ws) ok = elim (Bool-cases (mem w ws)) [
  | inl e ↦ rw e (refl, tt)
  | inr e ↦ rw e (NoRepeat-last w ws e ok)
]

find_file-IsWords : (f : ℕ) (m : FileMap) → IsMapping m → IsWords (find_file f m)
find_file-IsWords f [] ok = tt
find_file-IsWords f ((g, ws) ∷ m) (here, _, ok) = elim (Bool-cases (f == g)) [
  | inl e ↦ rw e here
  | inr e ↦ rw e (find_file-IsWords f m ok)
]

put_file-above :
    (g f : ℕ) (ws : List Text) (m : FileMap)
    → g < f
    → All (λ e. g < e.0) m
    → All (λ e. g < e.0) (put_file f ws m)
put_file-above g f ws [] lt ok = (lt, tt)
put_file-above g f ws ((h, vs) ∷ m) lt (here, ok) = elim (Bool-cases (f == h)) [
  | inl e ↦ rw e (lt, ok)
  | inr e ↦ elim (Bool-cases (ltb f h)) [
    | inl q ↦ rw e (rw q (lt, (here, ok)))
    | inr q ↦ rw e (rw q (here, put_file-above g f ws m lt ok))
  ]
]

above_trans : (f g : ℕ) (m : FileMap) → f < g → All (λ e. g < e.0) m → All (λ e. f < e.0) m
above_trans f g [] lt ok = tt
above_trans f g ((h, vs) ∷ m) lt (here, ok) = (omega (arith, here), above_trans f g m lt ok)

put_file-IsMapping :
    (f : ℕ) (ws : List Text) (m : FileMap) → NoRepeat ws → IsMapping m → IsMapping (put_file f ws m)
put_file-IsMapping f ws [] new ok = (new, tt, tt)
put_file-IsMapping f ws ((g, vs) ∷ m) new (here, above, ok) = elim (Bool-cases (f == g)) [
  | inl e ↦ let same : g ≡ f = sym ((==_iff f g).0 e) in rw e (new, above_eq g f m same above, ok)
  | inr e ↦ elim (Bool-cases (ltb f g)) [
    | inl q ↦
        let lt : f < g = ground (arith, q) in
        rw e (rw q (new, (lt, above_trans f g m lt above), (here, above, ok)))
    | inr q ↦
        let gt : g < f = ground (arith, e, q) in
        rw e (rw q (here, put_file-above g f ws m gt above, put_file-IsMapping f ws m new ok))
  ]
]
  where
    above_eq : (g f : ℕ) (m : FileMap) → g ≡ f → All (λ e. g < e.0) m → All (λ e. f < e.0) m
    above_eq g f [] same ok = tt
    above_eq g f ((h, vs) ∷ m) same (here, ok) = (omega (arith, here, same), above_eq g f m same ok)

map_files-IsMapping :
    (word : Text) (fs : List ℕ) (m : FileMap) → IsMapping m → IsMapping (map_files word fs m)
unfolding map_files
map_files-IsMapping word [] m ok = ok
map_files-IsMapping word (f ∷ fs) m ok = map_files-IsMapping word fs _ (
    put_file-IsMapping f _ m (add_word-NoRepeat word (find_file f m) (find_file-IsWords f m ok)) ok)

abbrev IsMappingOf : Option (FileMap × ScoreMap) → Type 0
IsMappingOf none = Unit
IsMappingOf (some m) = IsMapping m.0

-- What a round of the loop comes to, given what the later rounds keep.
round-IsMapping :
    (word : Text) (m m' : FileMap × ScoreMap) (o : Option (List (Option Files × ℕ)))
    (next : FileMap × ScoreMap → Option (FileMap × ScoreMap))
    → ((n : FileMap × ScoreMap) → IsMapping n.0 → next n ≡ some m' → IsMapping m'.0)
    → IsMapping m.0
    → (elim o [
      | none ↦ none
      | some fs ↦
          let later = next (map_files word (all_files fs) m.0, score_all word fs m.1) in
          if no_files fs then some m else later
    ])
      ≡ some m'
    → IsMapping m'.0
round-IsMapping word m m' none next later ok same = cc same
round-IsMapping word m m' (some fs) next later ok same = elim (Bool-cases (no_files fs)) [
  | inl e ↦ subst IsMappingOf (rw e at same) ok
  | inr e ↦
      later (map_files word (all_files fs) m.0, score_all word fs m.1)
        (map_files-IsMapping word (all_files fs) m.0 ok) (rw e at same)
]

-- The loop over the words of a query, where none of them is a name that every object has, keeps the
-- mapping in order: the files ascend, each stands once, and no word stands twice for a file.
pub match_words-IsMapping :
    (inherited : Text → Bool) (terms titleterms : List (Text × Files)) (words : List Text)
    (m m' : FileMap × ScoreMap)
    → IsMapping m.0
    → match_words inherited terms titleterms words m ≡ some m'
    → IsMapping m'.0
unfolding match_words
match_words-IsMapping inherited terms titleterms [] m m' ok same = subst IsMappingOf same ok
match_words-IsMapping inherited terms titleterms (word ∷ words) m m' ok same =
    round-IsMapping word m m' (word_files inherited terms titleterms word)
      (match_words inherited terms titleterms words)
      (λ n ok'. match_words-IsMapping inherited terms titleterms words n m' ok') ok same

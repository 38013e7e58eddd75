-- ===== src/Docs/Stemmer.antt =====
-- The Porter stemmer of docs/_static/language_data.js, one definition for each step of `stemWord`.
use g_rpeakec_go.Prelude.{
  ℕ, zero, suc, ◌+◌, ◌≡◌, refl, Bool, true, false, not, ◌&&◌, ◌||◌, Option, none, some, List, [],
  ◌∷◌, ◌++◌, map, length, any, ltb, ◌==◌, if◌then◌else◌,
}
use g_rpeakec_go.Prelude.Text.{Text, codes, text_eq, starts_with}
use g_rpeakec_go.Docs.Regex.{
  Re, one, many, word, seq, alt, group, again, finish, opt, match_start, exec, is_some, among, dot,
  drop,
}
mod Bounds
pub mod Start
mod Tests

-- The suffixes of step 2 with what replaces them.
abbrev pub step2_list : List (Text × Text)
step2_list =
    (codes "ational", codes "ate")
    ∷ (codes "tional", codes "tion")
    ∷ (codes "enci", codes "ence")
    ∷ (codes "anci", codes "ance")
    ∷ (codes "izer", codes "ize")
    ∷ (codes "bli", codes "ble")
    ∷ (codes "alli", codes "al")
    ∷ (codes "entli", codes "ent")
    ∷ (codes "eli", codes "e")
    ∷ (codes "ousli", codes "ous")
    ∷ (codes "ization", codes "ize")
    ∷ (codes "ation", codes "ate")
    ∷ (codes "ator", codes "ate")
    ∷ (codes "alism", codes "al")
    ∷ (codes "iveness", codes "ive")
    ∷ (codes "fulness", codes "ful")
    ∷ (codes "ousness", codes "ous")
    ∷ (codes "aliti", codes "al")
    ∷ (codes "iviti", codes "ive")
    ∷ (codes "biliti", codes "ble")
    ∷ (codes "logi", codes "log")
    ∷ []

abbrev pub step3_list : List (Text × Text)
step3_list =
    (codes "icate", codes "ic")
    ∷ (codes "ative", codes "")
    ∷ (codes "alize", codes "al")
    ∷ (codes "iciti", codes "ic")
    ∷ (codes "ical", codes "ic")
    ∷ (codes "ful", codes "")
    ∷ (codes "ness", codes "")
    ∷ []

abbrev text_of : Option Text → Text
text_of none = codes "undefined"
text_of (some t) = t

abbrev find_rule : Text → List (Text × Text) → Option Text
find_rule s [] = none
find_rule s ((from, to) ∷ rules) = if text_eq from s then some to else find_rule s rules

-- `list[suffix]`, which is put into a text.
abbrev pub replacement : List (Text × Text) → Text → Text
replacement rules s = text_of (find_rule s rules)

-- `^(.+?)(...)$`: the shortest start that leaves one of the ends, and that end.
abbrev pub extend_stem : ℕ → Option (Text × Text) → Option (Text × Text)
extend_stem c none = none
extend_stem c (some (stem, s)) = some (c ∷ stem, s)

unfoldable pub split_end : (Text → Bool) → Text → Option (Text × Text)
split_end ends [] = none
split_end ends (c ∷ w) =
    let later = extend_stem c (split_end ends w) in
    if not (dot c) then none else if ends w then some (c ∷ [], w) else later

abbrev pub one_of : List Text → Text → Bool
one_of ts s = any (λ t. text_eq t s) ts

-- `/.$/` replaced by nothing.
unfoldable pub chop : Text → Text
chop [] = []
chop (c ∷ []) = if dot c then [] else c ∷ []
chop (c ∷ d ∷ w) = c ∷ chop (d ∷ w)

abbrev consonant : Re
consonant = one (λ c. not (among (codes "aeiou") c))

abbrev vowel : Re
vowel = one (among (codes "aeiouy"))

-- `C` and `V`

abbrev consonants : Re
consonants = seq consonant (many (λ c. not (among (codes "aeiouy") c)))

abbrev vowel_run : Re
vowel_run = seq vowel (many (among (codes "aeiou")))

-- `mgr0`, `meq1`, `mgr1` and `s_v`, each behind `^`.

abbrev measure_above_0 : Re
measure_above_0 = seq (opt consonants) (seq vowel_run consonants)

abbrev measure_1 : Re
measure_1 = seq (opt consonants) (seq vowel_run (seq consonants (seq (opt vowel_run) finish)))

abbrev measure_above_1 : Re
measure_above_1 = seq (opt consonants) (seq vowel_run (seq consonants (seq vowel_run consonants)))

abbrev vowel_in_stem : Re
vowel_in_stem = seq (opt consonants) vowel

unfoldable pub test : Re → Text → Bool
unfolding match_start
test r w = is_some (match_start r w)

-- `^Cv[^aeiouwxy]$`
abbrev short_word : Re
short_word = seq consonants (seq vowel (seq (one (λ c. not (among (codes "aeiouwxy") c))) finish))

-- `([^aeiouylsz])\1$`, sought anywhere
abbrev double_consonant : Re
double_consonant =
    seq (group 1 (one (λ c. not (among (codes "aeiouylsz") c)))) (seq (again 1) finish)

abbrev pub non_s_then_s : Text → Bool
non_s_then_s (c ∷ d ∷ []) = not (c == b's') && d == b's'
non_s_then_s _ = false

-- Both patterns end in `s`, and the replacement keeps all but the `es` or the `s`.
abbrev pub without_plural : Text → Option (Text × Text) → Option (Text × Text) → Text
without_plural w (some (stem, s)) other = stem ++ chop (chop s)
without_plural w none (some (stem, s)) = stem ++ chop s
without_plural w none none = w

unfoldable pub step_1a : Text → Text
unfolding split_end chop text_eq
step_1a w =
    without_plural w (split_end (one_of (codes "sses" ∷ codes "ies" ∷ [])) w)
      (split_end non_s_then_s w)

-- What is added or cut once `ed` or `ing` is gone.
unfoldable pub mend : Text → Text
unfolding exec test chop
mend w =
    if is_some
      (exec (seq (alt (word (codes "at")) (alt (word (codes "bl")) (word (codes "iz")))) finish) w)
    then w ++ codes "e"
    else if is_some (exec double_consonant w)
    then chop w
    else if test short_word w
    then w ++ codes "e"
    else w

abbrev pub past_tense : Text → Option (Text × Text) → Option (Text × Text) → Text
past_tense w (some (stem, s)) other = if test measure_above_0 stem then chop w else w
past_tense w none (some (stem, s)) = if test vowel_in_stem stem then mend stem else w
past_tense w none none = w

unfoldable pub step_1b : Text → Text
unfolding split_end chop text_eq test mend
step_1b w =
    past_tense w (split_end (one_of (codes "eed" ∷ [])) w)
      (split_end (one_of (codes "ed" ∷ codes "ing" ∷ [])) w)

-- The stem takes the place of the word, with another end, when a pattern matches the stem.
abbrev pub swap_end : Re → (Text → Text) → Text → Option (Text × Text) → Text
swap_end r to w none = w
swap_end r to w (some (stem, s)) = if test r stem then stem ++ to s else w

unfoldable pub step_1c : Text → Text
unfolding split_end text_eq test
step_1c w = swap_end vowel_in_stem (λ s. codes "i") w (split_end (one_of (codes "y" ∷ [])) w)

abbrev pub step2_ends : List Text
step2_ends =
    codes "ational"
    ∷ codes "tional"
    ∷ codes "enci"
    ∷ codes "anci"
    ∷ codes "izer"
    ∷ codes "bli"
    ∷ codes "alli"
    ∷ codes "entli"
    ∷ codes "eli"
    ∷ codes "ousli"
    ∷ codes "ization"
    ∷ codes "ation"
    ∷ codes "ator"
    ∷ codes "alism"
    ∷ codes "iveness"
    ∷ codes "fulness"
    ∷ codes "ousness"
    ∷ codes "aliti"
    ∷ codes "iviti"
    ∷ codes "biliti"
    ∷ codes "logi"
    ∷ []

unfoldable pub step_2 : Text → Text
unfolding split_end text_eq test
step_2 w = swap_end measure_above_0 (replacement step2_list) w (split_end (one_of step2_ends) w)

abbrev pub step3_ends : List Text
step3_ends =
    codes "icate"
    ∷ codes "ative"
    ∷ codes "alize"
    ∷ codes "iciti"
    ∷ codes "ical"
    ∷ codes "ful"
    ∷ codes "ness"
    ∷ []

unfoldable pub step_3 : Text → Text
unfolding split_end text_eq test
step_3 w = swap_end measure_above_0 (replacement step3_list) w (split_end (one_of step3_ends) w)

abbrev pub step4_ends : List Text
step4_ends =
    codes "al"
    ∷ codes "ance"
    ∷ codes "ence"
    ∷ codes "er"
    ∷ codes "ic"
    ∷ codes "able"
    ∷ codes "ible"
    ∷ codes "ant"
    ∷ codes "ement"
    ∷ codes "ment"
    ∷ codes "ent"
    ∷ codes "ou"
    ∷ codes "ism"
    ∷ codes "ate"
    ∷ codes "iti"
    ∷ codes "ous"
    ∷ codes "ive"
    ∷ codes "ize"
    ∷ []

-- `(s|t)(ion)`; the stem keeps the first letter of the end.
abbrev pub s_or_t : Text → Text
s_or_t [] = []
s_or_t (c ∷ s) = c ∷ []

abbrev pub cut_ion : Text → Option (Text × Text) → Text
cut_ion w none = w
cut_ion w (some (stem, s)) = if test measure_above_1 (stem ++ s_or_t s) then stem ++ s_or_t s else w

abbrev pub cut_end : Text → Option (Text × Text) → Option (Text × Text) → Text
cut_end w (some (stem, s)) other = if test measure_above_1 stem then stem else w
cut_end w none other = cut_ion w other

unfoldable pub step_4 : Text → Text
unfolding split_end text_eq test
step_4 w =
    cut_end w (split_end (one_of step4_ends) w)
      (split_end (one_of (codes "sion" ∷ codes "tion" ∷ [])) w)

abbrev pub cut_e : Text → Option (Text × Text) → Text
cut_e w none = w
cut_e w (some (stem, s)) =
    if test measure_above_1 stem || test measure_1 stem && not (test short_word stem)
    then stem
    else w

abbrev pub cut_l : Text → Text
cut_l w =
    if is_some (exec (seq (word (codes "ll")) finish) w) && test measure_above_1 w
    then chop w
    else w

unfoldable pub step_5 : Text → Text
unfolding split_end text_eq test exec chop
step_5 w = cut_l (cut_e w (split_end (one_of (codes "e" ∷ [])) w))

-- An initial `y` is a consonant, which the steps see as `Y`.

abbrev pub hide_y : Bool → Text → Text
hide_y y w = if y then b'Y' ∷ drop 1 w else w

abbrev pub show_y : Bool → Text → Text
show_y y w = if y then b'y' ∷ drop 1 w else w

unfoldable pub stem_word : Text → Text
unfolding step_1a step_1b step_1c step_2 step_3 step_4 step_5 starts_with
stem_word w =
    let y = starts_with (codes "y") w in
    if ltb (length w) 3
    then w
    else show_y y (step_5 (step_4 (step_3 (step_2 (step_1c (step_1b (step_1a (hide_y y w))))))))

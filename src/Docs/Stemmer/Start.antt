-- ===== src/Docs/Stemmer/Start.antt =====
-- The first letter through the steps of the stemmer.
use g_rpeakec_go.Prelude.{
  ℕ, ◌≡◌, refl, ap, sym, ◌∙◌, Bool, true, false, not, Option, none, some, inl, inr, [], ◌∷◌, ◌++◌,
  length, ltb, append-nil, Bool-cases, arith, if◌then◌else◌,
}
use g_rpeakec_go.Prelude.Text.{Text, codes, starts_with}
use g_rpeakec_go.Docs.Regex.{Re, dot}
use g_rpeakec_go.Docs.Stemmer.{
  split_end, extend_stem, one_of, chop, replacement, step2_list, step2_ends, step3_list, step3_ends,
  step4_ends, non_s_then_s, step_1a, step_1b, step_1c, step_2, step_3, step_4, step_5, mend,
  swap_end, past_tense, without_plural, cut_end, cut_e, cut_l, vowel_in_stem, measure_above_0,
  hide_y, show_y, stem_word,
}

-- The text does not begin with a dash.
abbrev pub NoDash : Text → Type 0
NoDash w = starts_with (codes "-") w ≡ false

-- The stem that `^(.+?)(...)$` finds begins as the word does, whatever is put behind it.
abbrev Begins : Text → Option (Text × Text) → Type 0
Begins w none = Unit
Begins w (some (stem, s)) =
    (x : Text) → starts_with (codes "-") (stem ++ x) ≡ starts_with (codes "-") w

Begins-extend : (c : ℕ) (w : Text) (o : Option (Text × Text)) → Begins (c ∷ w) (extend_stem c o)
unfolding starts_with
Begins-extend c w none = tt
Begins-extend c w (some (stem, s)) = λ x. refl

split_end-Begins : (ends : Text → Bool) (w : Text) → Begins w (split_end ends w)
unfolding split_end starts_with
split_end-Begins ends [] = tt
split_end-Begins ends (c ∷ w) =
    if_Begins (extend_stem c (split_end ends w)) (not (dot c)) (ends w)
      (Begins-extend c w (split_end ends w))
  where
    if_Begins :
        (later : Option (Text × Text)) (stop here : Bool)
        → Begins (c ∷ w) later
        → Begins (c ∷ w) (if stop then none else if here then some (c ∷ [], w) else later)
    if_Begins later true here h = tt
    if_Begins later false true h = λ x. refl
    if_Begins later false false h = h

stem-NoDash : (w stem s : Text) → NoDash w → Begins w (some (stem, s)) → NoDash stem
stem-NoDash w stem s ok b = ap (λ v. starts_with (codes "-") v) (sym (append-nil stem)) ∙ b [] ∙ ok

chop-NoDash : (w : Text) → NoDash w → NoDash (chop w)
unfolding chop starts_with
chop-NoDash [] ok = refl
chop-NoDash (c ∷ []) ok = ground arith
chop-NoDash (c ∷ d ∷ w) ok = ok

append_e-NoDash : (w : Text) → NoDash w → NoDash (w ++ codes "e")
unfolding starts_with
append_e-NoDash [] ok = refl
append_e-NoDash (c ∷ w) ok = ok

mend-NoDash : (w : Text) → NoDash w → NoDash (mend w)
unfolding mend
mend-NoDash w ok = ground (arith, ok, chop-NoDash w ok, append_e-NoDash w ok)

swap_end-NoDash :
    (r : Re) (to : Text → Text) (w : Text) (o : Option (Text × Text))
    → NoDash w
    → Begins w o
    → NoDash (swap_end r to w o)
swap_end-NoDash r to w none ok b = ok
swap_end-NoDash r to w (some (stem, s)) ok b = ground (arith, ok, b (to s))

without_plural-NoDash :
    (w : Text) (o o' : Option (Text × Text))
    → NoDash w
    → Begins w o
    → Begins w o'
    → NoDash (without_plural w o o')
without_plural-NoDash w (some (stem, s)) o' ok b b' = b (chop (chop s)) ∙ ok
without_plural-NoDash w none (some (stem, s)) ok b b' = b' (chop s) ∙ ok
without_plural-NoDash w none none ok b b' = ok

past_tense-NoDash :
    (w : Text) (o o' : Option (Text × Text))
    → NoDash w
    → Begins w o
    → Begins w o'
    → NoDash (past_tense w o o')
past_tense-NoDash w (some (stem, s)) o' ok b b' = ground (arith, ok, chop-NoDash w ok)
past_tense-NoDash w none (some (stem, s)) ok b b' =
    ground (arith, ok, mend-NoDash stem (stem-NoDash w stem s ok b'))
past_tense-NoDash w none none ok b b' = ok

cut_end-NoDash :
    (w : Text) (o o' : Option (Text × Text))
    → NoDash w
    → Begins w o
    → Begins w o'
    → NoDash (cut_end w o o')
cut_end-NoDash w (some (stem, s)) o' ok b b' = ground (arith, ok, stem-NoDash w stem s ok b)
cut_end-NoDash w none none ok b b' = ok
cut_end-NoDash w none (some (stem, [])) ok b b' = ground (arith, ok, b' [])
cut_end-NoDash w none (some (stem, c ∷ s)) ok b b' = ground (arith, ok, b' (c ∷ []))

cut_e-NoDash : (w : Text) (o : Option (Text × Text)) → NoDash w → Begins w o → NoDash (cut_e w o)
cut_e-NoDash w none ok b = ok
cut_e-NoDash w (some (stem, s)) ok b = ground (arith, ok, stem-NoDash w stem s ok b)

cut_l-NoDash : (w : Text) → NoDash w → NoDash (cut_l w)
cut_l-NoDash w ok = ground (arith, ok, chop-NoDash w ok)

step_1a-NoDash : (w : Text) → NoDash w → NoDash (step_1a w)
unfolding step_1a
step_1a-NoDash w ok =
    let p = one_of (codes "sses" ∷ codes "ies" ∷ []) in
    without_plural-NoDash w (split_end p w) (split_end non_s_then_s w) ok (split_end-Begins p w)
      (split_end-Begins non_s_then_s w)

step_1b-NoDash : (w : Text) → NoDash w → NoDash (step_1b w)
unfolding step_1b
step_1b-NoDash w ok =
    let p = one_of (codes "eed" ∷ []) in
    let q = one_of (codes "ed" ∷ codes "ing" ∷ []) in
    past_tense-NoDash w (split_end p w) (split_end q w) ok (split_end-Begins p w)
      (split_end-Begins q w)

step_1c-NoDash : (w : Text) → NoDash w → NoDash (step_1c w)
unfolding step_1c
step_1c-NoDash w ok =
    let p = one_of (codes "y" ∷ []) in
    swap_end-NoDash vowel_in_stem (λ s. codes "i") w (split_end p w) ok (split_end-Begins p w)

step_2-NoDash : (w : Text) → NoDash w → NoDash (step_2 w)
unfolding step_2
step_2-NoDash w ok =
    let p = one_of step2_ends in
    swap_end-NoDash measure_above_0 (replacement step2_list) w (split_end p w) ok
      (split_end-Begins p w)

step_3-NoDash : (w : Text) → NoDash w → NoDash (step_3 w)
unfolding step_3
step_3-NoDash w ok =
    let p = one_of step3_ends in
    swap_end-NoDash measure_above_0 (replacement step3_list) w (split_end p w) ok
      (split_end-Begins p w)

step_4-NoDash : (w : Text) → NoDash w → NoDash (step_4 w)
unfolding step_4
step_4-NoDash w ok =
    let p = one_of step4_ends in
    let q = one_of (codes "sion" ∷ codes "tion" ∷ []) in
    cut_end-NoDash w (split_end p w) (split_end q w) ok (split_end-Begins p w)
      (split_end-Begins q w)

step_5-NoDash : (w : Text) → NoDash w → NoDash (step_5 w)
unfolding step_5
step_5-NoDash w ok =
    let p = one_of (codes "e" ∷ []) in
    cut_l-NoDash (cut_e w (split_end p w))
      (cut_e-NoDash w (split_end p w) ok (split_end-Begins p w))

abbrev steps : Text → Text
steps w = step_5 (step_4 (step_3 (step_2 (step_1c (step_1b (step_1a w))))))

steps-NoDash : (w : Text) → NoDash w → NoDash (steps w)
steps-NoDash w ok =
    let a = step_1a w in
    let b = step_1b a in
    let c = step_1c b in
    let d = step_2 c in
    let e = step_3 d in
    let at_c = step_1c-NoDash b (step_1b-NoDash a (step_1a-NoDash w ok)) in
    step_5-NoDash (step_4 e) (step_4-NoDash e (step_3-NoDash d (step_2-NoDash c at_c)))

hide_y-NoDash : (y : Bool) (w : Text) → NoDash w → NoDash (hide_y y w)
unfolding starts_with
hide_y-NoDash true w ok = refl
hide_y-NoDash false w ok = ok

show_y-NoDash : (y : Bool) (w : Text) → NoDash w → NoDash (show_y y w)
unfolding starts_with
show_y-NoDash true w ok = refl
show_y-NoDash false w ok = ok

-- A word that does not begin with a dash has a stem that does not.
pub stem_word-NoDash : (w : Text) → NoDash w → NoDash (stem_word w)
unfolding stem_word
stem_word-NoDash w ok =
    let y = starts_with (codes "y") w in
    let shown =
      show_y-NoDash y (steps (hide_y y w)) (steps-NoDash (hide_y y w) (hide_y-NoDash y w ok)) in
    elim (Bool-cases (ltb (length w) 3)) [ inl e ↦ rw e ok | inr e ↦ rw e shown ]

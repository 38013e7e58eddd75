-- ===== src/Docs/Stemmer/Bounds.antt =====
-- Lengths through the steps of the stemmer.
use g_rpeakec_go.Prelude.{
  ℕ, suc, ◌+◌, ◌≤◌, ◌≡◌, refl, ap, Bool, true, false, Option, none, some, inl, inr, List, [], ◌∷◌,
  length, length-append, all, leb, ltb, Bool-cases, arith, not, if◌then◌else◌,
}
use g_rpeakec_go.Prelude.Text.{Text, codes, text_eq, text_eq_iff, starts_with}
use g_rpeakec_go.Docs.Regex.{Re, dot}
use g_rpeakec_go.Docs.Stemmer.{
  split_end, extend_stem, one_of, chop, replacement, step2_list, step2_ends, step3_list, step3_ends,
  step_1a, step_1b, step_1c, step_2, step_3, step_4, step_5, mend, swap_end, past_tense,
  without_plural, cut_end, cut_e, cut_l, vowel_in_stem, measure_above_0, hide_y, show_y, stem_word,
}

-- What `^(.+?)(...)$` finds makes up the word, and its end is one of those sought.
abbrev Splits : (Text → Bool) → Text → Option (Text × Text) → Type 0
Splits ends w none = Unit
Splits ends w (some (stem, s)) = (length stem + length s ≡ length w) × (ends s ≡ true)

Splits-extend :
    (ends : Text → Bool) (c : ℕ) (w : Text) (o : Option (Text × Text))
    → Splits ends w o
    → Splits ends (c ∷ w) (extend_stem c o)
Splits-extend ends c w none h = tt
Splits-extend ends c w (some (stem, s)) (e, h) = (omega (arith, e), h)

split_end-Splits : (ends : Text → Bool) (w : Text) → Splits ends w (split_end ends w)
unfolding split_end
split_end-Splits ends [] = tt
split_end-Splits ends (c ∷ w) =
    if_Splits _ (not (dot c)) (ends w) refl
      (Splits-extend ends c w (split_end ends w) (split_end-Splits ends w))
  where
    if_Splits :
        (later : Option (Text × Text)) (stop here : Bool)
        → ends w ≡ here
        → Splits ends (c ∷ w) later
        → Splits ends (c ∷ w) (if stop then none else if here then some (c ∷ [], w) else later)
    if_Splits later true here e h = tt
    if_Splits later false true e h = (omega arith, e)
    if_Splits later false false e h = h

one_of-all :
    (p : Text → Bool) (ts : List Text) (s : Text)
    → all p ts ≡ true
    → one_of ts s ≡ true
    → p s ≡ true
one_of-all p [] s h e = ground (arith, e)
one_of-all p (t ∷ ts) s h e = elim (Bool-cases (text_eq t s)) [
  | inl q ↦ ground (arith, h, ap p ((text_eq_iff t s).0 q))
  | inr q ↦ one_of-all p ts s (ground (arith, h)) (ground (arith, e, q))
]

-- Every end of a list is at least as long as what takes its place.
abbrev ends_bound : (Text → Text) → List Text → Bool
ends_bound to ts = all (λ s. leb (length (to s)) (length s)) ts

one_of-le :
    (to : Text → Text) (ts : List Text) (s : Text)
    → ends_bound to ts ≡ true
    → one_of ts s ≡ true
    → length (to s) ≤ length s
one_of-le to ts s h e = ground (arith, one_of-all (λ s. leb (length (to s)) (length s)) ts s h e)

chop-le : (w : Text) → length (chop w) ≤ length w
unfolding chop
chop-le [] = omega arith
chop-le (c ∷ []) = ground arith
chop-le (c ∷ d ∷ w) = omega (arith, chop-le (d ∷ w))

mend-le : (w : Text) → length (mend w) ≤ suc (length w)
unfolding mend
mend-le w = ground (arith, chop-le w, length-append w (codes "e"))

swap_end-le :
    (r : Re) (to : Text → Text) (ts : List Text) (w : Text) (o : Option (Text × Text))
    → ends_bound to ts ≡ true
    → Splits (one_of ts) w o
    → length (swap_end r to w o) ≤ length w
swap_end-le r to ts w none h ok = omega arith
swap_end-le r to ts w (some (stem, s)) h (e, ok) =
    let fits = one_of-le to ts s h ok in ground (arith, length-append stem (to s))

-- Ends of at least two letters.
abbrev two_letters : Text → Bool
two_letters s = leb 2 (length s)

without_plural-le :
    (p q : Text → Bool) (w : Text) (o o' : Option (Text × Text))
    → Splits p w o
    → Splits q w o'
    → length (without_plural w o o') ≤ length w
without_plural-le p q w (some (stem, s)) o' ok ok' =
    omega (arith, ok.0, length-append stem (chop (chop s)), chop-le s, chop-le (chop s))
without_plural-le p q w none (some (stem, s)) ok ok' =
    omega (arith, ok'.0, length-append stem (chop s), chop-le s)
without_plural-le p q w none none ok ok' = omega arith

past_tense-le :
    (p : Text → Bool) (w : Text) (o o' : Option (Text × Text))
    → Splits p w o
    → Splits (one_of (codes "ed" ∷ codes "ing" ∷ [])) w o'
    → length (past_tense w o o') ≤ length w
past_tense-le p w (some (stem, s)) o' ok ok' = ground (arith, chop-le w)
past_tense-le p w none (some (stem, s)) ok (e, ok') =
    let long = one_of-all two_letters (codes "ed" ∷ codes "ing" ∷ []) s refl ok' in
    ground (arith, mend-le stem)
past_tense-le p w none none ok ok' = omega arith

cut_end-le :
    (p q : Text → Bool) (w : Text) (o o' : Option (Text × Text))
    → Splits p w o
    → Splits q w o'
    → length (cut_end w o o') ≤ length w
cut_end-le p q w (some (stem, s)) o' ok ok' = ground arith
cut_end-le p q w none none ok ok' = omega arith
cut_end-le p q w none (some (stem, [])) ok (e, _) = ground (arith, length-append stem [])
cut_end-le p q w none (some (stem, c ∷ s)) ok (e, _) = ground (arith, length-append stem (c ∷ []))

cut_e-le :
    (p : Text → Bool) (w : Text) (o : Option (Text × Text))
    → Splits p w o
    → length (cut_e w o) ≤ length w
cut_e-le p w none ok = omega arith
cut_e-le p w (some (stem, s)) ok = ground arith

cut_l-le : (w : Text) → length (cut_l w) ≤ length w
cut_l-le w = ground (arith, chop-le w)

step_1a-le : (w : Text) → length (step_1a w) ≤ length w
unfolding step_1a
step_1a-le w = without_plural-le _ _ w _ _ (split_end-Splits _ w) (split_end-Splits _ w)

step_1b-le : (w : Text) → length (step_1b w) ≤ length w
unfolding step_1b
step_1b-le w = past_tense-le _ w _ _ (split_end-Splits _ w) (split_end-Splits _ w)

step_1c-le : (w : Text) → length (step_1c w) ≤ length w
unfolding step_1c
step_1c-le w =
    swap_end-le vowel_in_stem (λ s. codes "i") (codes "y" ∷ []) w _ refl (split_end-Splits _ w)

step_2-le : (w : Text) → length (step_2 w) ≤ length w
unfolding step_2
step_2-le w =
    swap_end-le measure_above_0 (replacement step2_list) step2_ends w _ refl (split_end-Splits _ w)

step_3-le : (w : Text) → length (step_3 w) ≤ length w
unfolding step_3
step_3-le w =
    swap_end-le measure_above_0 (replacement step3_list) step3_ends w _ refl (split_end-Splits _ w)

step_4-le : (w : Text) → length (step_4 w) ≤ length w
unfolding step_4
step_4-le w = cut_end-le _ _ w _ _ (split_end-Splits _ w) (split_end-Splits _ w)

step_5-le : (w : Text) → length (step_5 w) ≤ length w
unfolding step_5
step_5-le w =
    let ends = one_of (codes "e" ∷ []) in
    omega (
      arith,
      cut_l-le (cut_e w (split_end ends w)),
      cut_e-le ends w (split_end ends w) (split_end-Splits ends w),
    )

-- Showing the first letter again undoes the hiding, and never makes the word longer.
show-le :
    (short y : Bool) (c : ℕ) (w v : Text)
    → length v ≤ length (hide_y y (c ∷ w))
    → length (if short then c ∷ w else show_y y v) ≤ length (c ∷ w)
show-le true y c w v h = omega arith
show-le false false c w v h = h
show-le false true c w [] h = omega arith
show-le false true c w (d ∷ v) h = h

abbrev steps : Text → Text
steps w = step_5 (step_4 (step_3 (step_2 (step_1c (step_1b (step_1a w))))))

steps-le : (w : Text) → length (steps w) ≤ length w
steps-le w =
    let a = step_1a w in
    let b = step_1b a in
    let c = step_1c b in
    let d = step_2 c in
    let e = step_3 d in
    omega (
      arith,
      step_1a-le w,
      step_1b-le a,
      step_1c-le b,
      step_2-le c,
      step_3-le d,
      step_4-le e,
      step_5-le (step_4 e),
    )

-- The stem of a word is no longer than the word: a step that adds a letter has cut at least two
-- before, and no end is replaced by a longer one.
pub stem_word-le : (w : Text) → length (stem_word w) ≤ length w
unfolding stem_word
stem_word-le [] = omega arith
stem_word-le (c ∷ w) =
    let y = starts_with (codes "y") (c ∷ w) in
    let hidden = hide_y y (c ∷ w) in
    show-le (ltb (length (c ∷ w)) 3) y c w (steps hidden) (steps-le hidden)

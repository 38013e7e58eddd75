-- ===== src/Docs/Search/Terms/Pattern.antt =====
-- The pattern of a word.
use g_rpeakec_go.Prelude.{
  ℕ, ◌≡◌, refl, ap, ◌∙◌, false, inl, inr, some, [], ◌∷◌, ◌==◌, Bool-cases, arith,
}
use g_rpeakec_go.Prelude.Text.{Text}
use g_rpeakec_go.Docs.Regex.{among}
use g_rpeakec_go.Docs.Search.Terms.{metacharacters, escape_reg_exp, cons_to, read_pattern}

read_pattern-plain :
    (c : ℕ) (s : Text)
    → among metacharacters c ≡ false
    → read_pattern (c ∷ s) ≡ cons_to c (read_pattern s)
unfolding read_pattern
read_pattern-plain c [] h = rw h refl
read_pattern-plain c (d ∷ s) h =
    let n : (c == b'\\') ≡ false = ground (arith, h) in rw n (rw h refl)

-- The pattern that escapeRegExp makes of a text stands for just that text: no character of it is
-- read as an operator.
pub read_pattern-escape_reg_exp : (s : Text) → read_pattern (escape_reg_exp s) ≡ some s
unfolding read_pattern escape_reg_exp
read_pattern-escape_reg_exp [] = refl
read_pattern-escape_reg_exp (c ∷ s) = elim (Bool-cases (among metacharacters c)) [
  | inl e ↦ rw e (rw e (ap (cons_to c) (read_pattern-escape_reg_exp s)))
  | inr e ↦
      rw e
        (read_pattern-plain c (escape_reg_exp s) e ∙ ap (cons_to c) (read_pattern-escape_reg_exp s))
]

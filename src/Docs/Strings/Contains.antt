-- ===== src/Docs/Strings/Contains.antt =====
-- What `indexOf` finds: a text inside a text.
use g_rpeakec_go.Prelude.{
  ◌≡◌, ◌↔◌, refl, ap, sym, ◌∙◌, Bool-cases, inl, inr, true, [], ◌∷◌, ◌++◌, arith,
}
use g_rpeakec_go.Prelude.Text.{Text, starts_with}
use g_rpeakec_go.Docs.Strings.{index_of, found}

abbrev pub BeginsWith : Text → Text → Type 0
BeginsWith p s = (post : Text) × (s ≡ p ++ post)

abbrev pub Contains : Text → Text → Type 0
Contains p s = (pre : Text) × (post : Text) × (s ≡ pre ++ p ++ post)

begins : (p s : Text) → starts_with p s ≡ true → BeginsWith p s
unfolding starts_with
begins [] s h = (s, refl)
begins (c ∷ p) [] h = cc h
begins (c ∷ p) (d ∷ s) h =
    let (post, e) = begins p s (ground (arith, h)) in
    let same : c ≡ d = ground (arith, h) in (post, ap (λ x. x ∷ s) (sym same) ∙ ap (λ t. c ∷ t) e)

begins_back : (p post : Text) → starts_with p (p ++ post) ≡ true
unfolding starts_with
begins_back [] post = refl
begins_back (c ∷ p) post = ground (arith, begins_back p post)

Contains-of : (p s : Text) → found (index_of p s) ≡ true → Contains p s
unfolding index_of
Contains-of p [] h = elim (Bool-cases (starts_with p [])) [
  | inl e ↦ let (post, q) = begins p [] e in ([], post, q)
  | inr e ↦ cc (rw e at h)
]
Contains-of p (c ∷ s) h = elim (Bool-cases (starts_with p (c ∷ s))) [
  | inl e ↦ let (post, q) = begins p (c ∷ s) e in ([], post, q)
  | inr e ↦
      let later : found (index_of p s) ≡ true = ground (arith, h, e) in
      let (pre, post, q) = Contains-of p s later in (c ∷ pre, post, ap (λ t. c ∷ t) q)
]

found_at : (p pre post : Text) → found (index_of p (pre ++ p ++ post)) ≡ true
unfolding index_of starts_with
found_at [] [] [] = refl
found_at [] [] (d ∷ post) = refl
found_at (c ∷ p) [] post = rw (begins_back (c ∷ p) post) refl
found_at p (d ∷ pre) post = ground (arith, found_at p pre post)

-- A text is found exactly where it stands in the other.
pub found_iff : (p s : Text) → (found (index_of p s) ≡ true) ↔ Contains p s
found_iff p s = (Contains-of p s, λ (pre, post, e). rw e (found_at p pre post))

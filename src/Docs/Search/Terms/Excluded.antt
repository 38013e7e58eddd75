-- ===== src/Docs/Search/Terms/Excluded.antt =====
-- The test for excluded words.
use g_rpeakec_go.Prelude.{
  ℕ, zero, suc, ◌+◌, ◌/◌, ◌%◌, ◌≡◌, ◌∙◌, ◌↔◌, ◌⊎◌, refl, ap, Bool, true, false, ◌||◌, Option, none,
  some, inl, inr, List, [], ◌∷◌, ◌++◌, map, any, ◌==◌, All, Bool-cases, arith,
}
use g_rpeakec_go.Prelude.Text.{Text, codes, text_eq_iff, decimal, show}
use g_rpeakec_go.Docs.Strings.{lookup}
use g_rpeakec_go.Docs.Search.{Files, one_file, files, Key, number, string, Underscore}
use g_rpeakec_go.Docs.Search.Terms.{loosely_equal, keys_of, is_excluded_by, is_excluded, commas}

-- The text has a comma.
abbrev has_comma : Text → Bool
has_comma s = any (λ c. c == b',') s

has_comma-append : (s t : Text) → has_comma (s ++ t) ≡ (has_comma s || has_comma t)
has_comma-append [] t = refl
has_comma-append (c ∷ s) t = ground (arith, has_comma-append s t)

decimal-no_comma :
    (fuel n : ℕ) (out : Text) → has_comma out ≡ false → has_comma (decimal fuel n out) ≡ false
unfolding decimal
decimal-no_comma zero n out h = h
decimal-no_comma (suc fuel) n out h =
    let digit : has_comma ((b'0' + n % 10) ∷ out) ≡ false = ground (arith, h) in
    elim (Bool-cases (n / 10 == 0)) [
      | inl e ↦ rw e digit
      | inr e ↦ rw e (decimal-no_comma fuel (n / 10) ((b'0' + n % 10) ∷ out) digit)
    ]

show-no_comma : (n : ℕ) → has_comma (show n) ≡ false
unfolding show
show-no_comma n = decimal-no_comma (suc n) n [] refl

-- The text of a list of two elements has a comma.
commas-comma : (f g : ℕ) (fs : List ℕ) → has_comma (commas (f ∷ g ∷ fs)) ≡ true
unfolding commas
commas-comma f g fs =
    has_comma-append (show f ++ codes ",") (commas (g ∷ fs))
    ∙ rw (has_comma-append (show f) (codes ",")) (rw (show-no_comma f) refl)

not_loosely_equal :
    (g h : ℕ) (gs : List ℕ) (f : ℕ) → loosely_equal (some (files (g ∷ h ∷ gs))) f ≡ false
not_loosely_equal g h gs f = ground (
  arith,
  ap has_comma,
  text_eq_iff (commas (g ∷ h ∷ gs)) (show f),
  commas-comma g h gs,
  show-no_comma f,
)

abbrev pub Among : Key → List Key → Type 0
Among k [] = ⊥
Among k (j ∷ ks) = (j ≡ k) ⊎ Among k ks

-- underscore compares with `===`, so that a number and a string differ.
abbrev pub IsStrict : Underscore → Type 0
IsStrict u = (ks : List Key) (k : Key) → (u.contains ks k ≡ true) ↔ Among k ks

no_string : (fs : List ℕ) (s : Text) → ¬ Among (string s) (map number fs)
no_string [] s h = h
no_string (f ∷ fs) s (inl e) = ground (arith, e)
no_string (f ∷ fs) s (inr h) = no_string fs s h

-- No entry, or a list of at least two files.
abbrev pub IsMany : Option Files → Type 0
IsMany none = Unit
IsMany (some (one_file f)) = ⊥
IsMany (some (files [])) = ⊥
IsMany (some (files (f ∷ []))) = ⊥
IsMany (some (files (f ∷ g ∷ fs))) = Unit

not_equal-IsMany : (o : Option Files) (f : ℕ) → IsMany o → loosely_equal o f ≡ false
not_equal-IsMany none f h = refl
not_equal-IsMany (some (one_file _)) f h = absurd h
not_equal-IsMany (some (files [])) f h = absurd h
not_equal-IsMany (some (files (g ∷ []))) f h = absurd h
not_equal-IsMany (some (files (g ∷ h ∷ gs))) f _ = not_loosely_equal g h gs f

module _ (u : Underscore) where
  not_contains :
      (o : Option Files) (s : Text) → IsStrict u → u.contains (keys_of o) (string s) ≡ false
  not_contains o s strict = elim (Bool-cases (u.contains (keys_of o) (string s))) [
    | inl e ↦ absurd (no_key o ((strict (keys_of o) (string s)).0 e))
    | inr e ↦ e
  ]
    where
      no_key : (o : Option Files) → ¬ Among (string s) (keys_of o)
      no_key none h = h
      no_key (some (one_file f)) h = h
      no_key (some (files fs)) h = no_string fs s h

  not_excluded_by :
      (terms titleterms : List (Text × Files)) (f : ℕ) (word : Text)
      → IsStrict u
      → IsMany (lookup word terms)
      → IsMany (lookup word titleterms)
      → is_excluded_by u terms titleterms f word ≡ false
  not_excluded_by terms titleterms f word strict in_terms in_titles =
      rw (not_equal-IsMany (lookup word terms) f in_terms) (
        rw (not_equal-IsMany (lookup word titleterms) f in_titles) (
          rw (not_contains (lookup word terms) (show f) strict)
            (not_contains (lookup word titleterms) (show f) strict)))

  -- Given that `contains` compares strictly: excluded words each of which has, in either of the two
  -- tables, no entry or a list of at least two files exclude no file, since a file is a string,
  -- which no list of numbers contains and no list of two numbers equals. A word that has in one of
  -- the tables a single file is not meant.
  pub is_excluded-IsMany :
      (terms titleterms : List (Text × Files)) (excluded : List Text) (f : ℕ)
      → IsStrict u
      → All (λ w. IsMany (lookup w terms) × IsMany (lookup w titleterms)) excluded
      → is_excluded u terms titleterms excluded f ≡ false
  is_excluded-IsMany terms titleterms [] f strict many = refl
  is_excluded-IsMany terms titleterms (w ∷ ws) f strict ((in_terms, in_titles), many) =
      rw (not_excluded_by terms titleterms f w strict in_terms in_titles)
        (is_excluded-IsMany terms titleterms ws f strict many)

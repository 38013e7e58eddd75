-- ===== src/Docs/Regex.antt =====
-- Regular expressions as the page scripts write them: a backtracking matcher that lists every way
-- to match, the preferred one first, with the texts of the numbered groups. The scripts repeat
-- single characters only.
use g_rpeakec_go.Prelude.{
  ℕ, zero, suc, ◌-◌, Bool, true, false, not, ◌&&◌, ◌||◌, Option, none, some, List, [], ◌∷◌, ◌++◌,
  map, length, any, leb, ◌==◌, if◌then◌else◌,
}
use g_rpeakec_go.Prelude.Text.{Text, starts_with}

pub data Re : Type 0 where
  -- one character of a class
  one : (ℕ → Bool) → Re
  -- as many as there are, or as few as will do
  many lazy : (ℕ → Bool) → Re
  word : Text → Re
  seq alt : Re → Re → Re
  group : ℕ → Re → Re
  -- the text of a group, again
  again : ℕ → Re
  empty finish : Re

-- What is left of the text, and the groups found.
pub record Match : Type 0 where
  pub rest : Text
  pub groups : List (ℕ × Text)

abbrev pub take : ℕ → Text → Text
take zero s = []
take (suc n) [] = []
take (suc n) (c ∷ s) = c ∷ take n s

abbrev pub drop : ℕ → Text → Text
drop zero s = s
drop (suc n) [] = []
drop (suc n) (c ∷ s) = drop n s

abbrev pub find_group : ℕ → List (ℕ × Text) → Option Text
find_group n [] = none
find_group n ((k, t) ∷ gs) = if k == n then some t else find_group n gs

abbrev concat_map {ℓ} : {A B : Type ℓ} → (A → List B) → List A → List B
concat_map f [] = []
concat_map f (x ∷ xs) = f x ++ concat_map f xs

-- What is left after each number of characters of a class, most characters first.
abbrev greedy_rests : (ℕ → Bool) → Text → List Text
greedy_rests p [] = [] ∷ []
greedy_rests p (c ∷ s) = let more = greedy_rests p s in (if p c then more else []) ++ (c ∷ s) ∷ []

abbrev lazy_rests : (ℕ → Bool) → Text → List Text
lazy_rests p [] = [] ∷ []
lazy_rests p (c ∷ s) = let more = lazy_rests p s in (c ∷ s) ∷ (if p c then more else [])

abbrev at_rests : Match → List Text → List Match
at_rests m = map (λ s. record { rest = s; groups = m.groups })

abbrev after_word : Text → Match → List Match
after_word t m = if starts_with t m.rest then at_rests m (drop (length t) m.rest ∷ []) else []

abbrev one_char : (ℕ → Bool) → Match → Text → List Match
one_char p m [] = []
one_char p m (c ∷ s) = if p c then at_rests m (s ∷ []) else []

abbrev at_end : Match → Text → List Match
at_end m [] = m ∷ []
at_end m (c ∷ s) = []

-- A reference to a group that has not matched matches the empty text.
abbrev group_again : Option Text → Match → List Match
group_again none m = m ∷ []
group_again (some t) m = after_word t m

abbrev close_group : ℕ → Text → Match → Match
close_group n before m = record {
  rest = m.rest;
  groups = (n, take (length before - length m.rest) before) ∷ m.groups;
}

unfoldable pub matches : Re → Match → List Match
unfolding starts_with
matches (one p) m = one_char p m m.rest
matches (many p) m = at_rests m (greedy_rests p m.rest)
matches (lazy p) m = at_rests m (lazy_rests p m.rest)
matches (word t) m = after_word t m
matches (seq r q) m = concat_map (matches q) (matches r m)
matches (alt r q) m = matches r m ++ matches q m
matches (group n r) m = map (close_group n m.rest) (matches r m)
matches (again n) m = group_again (find_group n m.groups) m
matches empty m = m ∷ []
matches finish m = at_end m m.rest

abbrev pub opt : Re → Re
opt r = alt r empty

abbrev pub fresh : Text → Match
fresh s = record { rest = s; groups = [] }

abbrev first_of : List Match → Option Match
first_of [] = none
first_of (m ∷ ms) = some m

-- The preferred match of an expression that begins with `^`.
unfoldable pub match_start : Re → Text → Option Match
unfolding matches
match_start r s = first_of (matches r (fresh s))

-- `exec` without `^`: the first place where there is a match.
unfoldable pub exec : Re → Text → Option Match
unfolding matches
exec r [] = first_of (matches r (fresh []))
exec r (c ∷ s) =
    let later = exec r s in
    elim (first_of (matches r (fresh (c ∷ s)))) [ none ↦ later | some m ↦ some m ]

abbrev pub is_some {ℓ} : {A : Type ℓ} → Option A → Bool
is_some none = false
is_some (some x) = true

abbrev pub among : Text → ℕ → Bool
among cs c = any (λ d. d == c) cs

-- `.`, which stops at the end of a line.
abbrev pub dot : ℕ → Bool
dot c = not (among (10 ∷ 13 ∷ 8232 ∷ 8233 ∷ []) c)

abbrev pub between : ℕ → ℕ → ℕ → Bool
between a b c = leb a c && leb c b

-- `\w`
abbrev pub word_char : ℕ → Bool
word_char c = between b'0' b'9' c || between b'A' b'Z' c || c == b'_' || between b'a' b'z' c

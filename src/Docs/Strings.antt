-- ===== src/Docs/Strings.antt =====
-- The methods of strings that the page scripts call.
pub mod Contains
use g_rpeakec_go.Prelude.{
  ℕ, suc, Bool, true, false, Option, none, some, List, [], ◌∷◌, ltb, ◌==◌, if◌then◌else◌, ◌+◌, ◌++◌,
  ◌≡◌, refl, length,
}
use g_rpeakec_go.Prelude.Text.{Text, codes, text_eq, starts_with}
use g_rpeakec_go.Docs.Regex.{take, drop}

abbrev add_one : Option ℕ → Option ℕ
add_one none = none
add_one (some n) = some (suc n)

-- `s.indexOf(p)`, where -1 is `none`.
unfoldable pub index_of : Text → Text → Option ℕ
unfolding starts_with
index_of p [] = if starts_with p [] then some 0 else none
index_of p (c ∷ s) =
    let later = add_one (index_of p s) in if starts_with p (c ∷ s) then some 0 else later

abbrev put_at : Text → Text → Text → Option ℕ → Text
put_at old new s none = s
put_at old new s (some i) = take i s ++ new ++ drop (i + length old) s

-- `s.replace(old, new)` of two strings, which takes the place of the first match alone. `new` has
-- no `$`.
unfoldable pub replace_first : Text → Text → Text → Text
unfolding index_of
replace_first old new s = put_at old new s (index_of old s)

replace_first_runs : replace_first (codes "%s") (codes "3") (codes "a %s b %s") ≡ codes "a 3 b %s"
unfolding replace_first
replace_first_runs = refl

abbrev pub found : Option ℕ → Bool
found none = false
found (some n) = true

abbrev pub join_first : ℕ → List Text → List Text
join_first c [] = (c ∷ []) ∷ []
join_first c (p ∷ ps) = (c ∷ p) ∷ ps

-- `s.split(c)` at one character.
unfoldable pub split : ℕ → Text → List Text
split c [] = [] ∷ []
split c (d ∷ s) = let more = split c s in if d == c then [] ∷ more else join_first d more

abbrev pub last_part : List Text → Text
last_part [] = []
last_part (p ∷ []) = p
last_part (p ∷ q ∷ ps) = last_part (q ∷ ps)

-- An element that is not there reads as `undefined` where it is put into a text.
abbrev pub text_at : Option Text → Text
text_at none = codes "undefined"
text_at (some t) = t

abbrev pub lookup {ℓ} : {A : Type ℓ} → Text → List (Text × A) → Option A
lookup k [] = none
lookup k ((j, a) ∷ m) = if text_eq j k then some a else lookup k m

-- `Array.prototype.slice`, `concat` and `includes` on lists.
abbrev pub mem : Text → List Text → Bool
mem t [] = false
mem t (x ∷ xs) = if text_eq x t then true else mem t xs

-- Comparison of strings by their code units: whether the first is below the second.
unfoldable pub text_ltb : Text → Text → Bool
text_ltb [] [] = false
text_ltb [] (c ∷ t) = true
text_ltb (c ∷ s) [] = false
text_ltb (c ∷ s) (d ∷ t) = if c == d then text_ltb s t else ltb c d

-- An exception that a call throws ends the calls after it.
infixl 10 ◌>>=◌
abbrev pub ◌>>=◌ {ℓ κ} : {A : Type ℓ} → {B : Type κ} → Option A → (A → Option B) → Option B
none >>= f = none
some a >>= f = f a

-- ===== src/Prelude/Text.antt =====
-- Text as lists of code points, with the tests and searches that the sources use.
use Prim.Native.Nat.{ℕ, zero, suc, ◌+◌, ◌-◌, ◌/◌, ◌%◌}
use Prim.Native.Char.{code}
use Prim.Native.String.{String}
use mathlib.Core.Path.{◌≡◌, refl}
use mathlib.Core.Logic.{◌↔◌}
use mathlib.Core.Bool.{Bool, true, false, ◌&&◌}
use mathlib.Core.List.{List, [], ◌∷◌, ◌++◌}
use native.Mathlib.Omega.{arith}
use g_rpeakec_go.Prelude.Lists.{length}
use g_rpeakec_go.Prelude.Tests.{◌==◌, if◌then◌else◌}

abbrev pub Text : Type 0
Text = List ℕ

-- The code points of a literal.
abbrev pub codes : String → Text
codes String.[] = []
codes (String.◌∷◌ c s) = code c ∷ codes s

unfoldable pub text_eq : Text → Text → Bool
text_eq [] [] = true
text_eq [] (y ∷ ys) = false
text_eq (x ∷ xs) [] = false
text_eq (x ∷ xs) (y ∷ ys) = (x == y) && text_eq xs ys

pub text_eq_iff : (s t : Text) → (text_eq s t ≡ true) ↔ (s ≡ t)
unfolding text_eq
text_eq_iff [] [] = (λ _. refl, λ _. refl)
text_eq_iff [] (y ∷ ys) = ground arith
text_eq_iff (x ∷ xs) [] = ground arith
text_eq_iff (x ∷ xs) (y ∷ ys) = ground (arith, text_eq_iff xs ys)

pub text_eq_refl : (s : Text) → text_eq s s ≡ true
text_eq_refl s = (text_eq_iff s s).1 refl

-- The decimal digits of a number, with fuel; `n` itself is enough, since each round divides by 10.
unfoldable pub decimal : ℕ → ℕ → Text → Text
decimal zero n out = out
decimal (suc fuel) n out =
    let longer = decimal fuel (n / 10) ((b'0' + n % 10) ∷ out) in
    if n / 10 == 0 then (b'0' + n % 10) ∷ out else longer

-- `%v` of an unsigned number.
unfoldable pub show : ℕ → Text
unfolding decimal
show n = decimal (suc n) n []

show_runs : show 1042 ≡ codes "1042"
unfolding show
show_runs = refl

unfoldable pub starts_with : Text → Text → Bool
starts_with [] s = true
starts_with (p ∷ ps) [] = false
starts_with (p ∷ ps) (x ∷ xs) = (p == x) && starts_with ps xs

-- `strings.Replace(s, old, new, -1)` for a nonempty `old`; `skip` counts what is left of a match.
module _ (old new : Text) where
  replace_from : ℕ → Text → Text
  replace_from skip [] = []
  replace_from (suc skip) (x ∷ xs) = replace_from skip xs
  replace_from zero (x ∷ xs) =
      let hit = new ++ replace_from (length old - 1) xs in
      let miss = x ∷ replace_from zero xs in if starts_with old (x ∷ xs) then hit else miss

  unfoldable pub replace : Text → Text
  unfolding replace_from starts_with
  replace s = replace_from 0 s

replace_runs : replace (codes "aa") (codes "b") (codes "caaad") ≡ codes "cbad"
unfolding replace
replace_runs = refl

-- ===== src/Prelude/Decimal.antt =====
-- strconv.Itoa and strconv.Atoi, for an int of 64 bits.
use g_rpeakec_go.Prelude.Tests.{ltb, leb, ◌==◌, if◌then◌else◌, Bool-cases}
use g_rpeakec_go.Prelude.Int.{ℤ, pos, negsuc}
use g_rpeakec_go.Prelude.Text.{Text, codes, decimal, show}
use Prim.Native.Nat.{ℕ, zero, suc, ◌+◌, ◌-◌, ◌*◌, ◌/◌, ◌%◌, ◌^◌, ◌<◌}
use mathlib.Core.Path.{◌≡◌, refl, ap, ◌∙◌}
use mathlib.Core.Logic.{inl, inr}
use mathlib.Core.Bool.{◌&&◌}
use mathlib.Core.Option.{Option, none, some}
use mathlib.Core.List.{[], ◌∷◌}
use native.Mathlib.Omega.{arith}

unfoldable pub itoa : ℤ → Text
itoa (pos n) = show n
itoa (negsuc n) = b'-' ∷ show (suc n)

-- The value of a run of digits, read from the left.
digits_from : ℕ → Text → Option ℕ
digits_from acc [] = some acc
digits_from acc (c ∷ cs) =
    let more = digits_from (acc * 10 + (c - b'0')) cs in
    if leb b'0' c && leb c b'9' then more else none

unsigned : Text → Option ℕ
unsigned [] = none
unsigned (c ∷ cs) = digits_from 0 (c ∷ cs)

abbrev checked_pos : Option ℕ → Option ℤ
checked_pos none = none
checked_pos (some n) = if ltb n (2 ^ 63) then some (pos n) else none

abbrev checked_neg : Option ℕ → Option ℤ
checked_neg none = none
checked_neg (some zero) = some (pos 0)
checked_neg (some (suc n)) = if ltb n (2 ^ 63) then some (negsuc n) else none

-- `none` is the error, of syntax or of range.
unfoldable pub atoi : Text → Option ℤ
unfolding unsigned digits_from
atoi [] = none
atoi (c ∷ cs) =
    if c == b'-'
    then checked_neg (unsigned cs)
    else if c == b'+'
    then checked_pos (unsigned cs)
    else checked_pos (unsigned (c ∷ cs))

atoi_runs : atoi (codes "-120") ≡ some (negsuc 119)
unfolding atoi
atoi_runs = refl

-- An int of 64 bits.
abbrev pub IsInt64 : ℤ → Type 0
IsInt64 (pos n) = n < 2 ^ 63
IsInt64 (negsuc n) = n < 2 ^ 63

digits_from-digit :
    (acc d : ℕ) (out : Text)
    → d < 10
    → digits_from acc ((b'0' + d) ∷ out) ≡ digits_from (acc * 10 + d) out
unfolding digits_from
digits_from-digit acc d out h =
    let e : acc * 10 + (b'0' + d - b'0') ≡ acc * 10 + d = omega arith in rw e (ground arith)

digits_from-decimal :
    (fuel n : ℕ) (out : Text) → n < fuel → digits_from 0 (decimal fuel n out) ≡ digits_from n out
unfolding decimal
digits_from-decimal zero n out h = absurd (omega arith)
digits_from-decimal (suc fuel) n out h = elim (Bool-cases (n / 10 == 0)) [
  | inl last ↦
      let e : n % 10 ≡ n = ground arith in
      rw last
        (digits_from-digit 0 (n % 10) out (omega arith) ∙ ap (λ k. digits_from k out) (omega arith))
  | inr more ↦
      let e : n / 10 * 10 + n % 10 ≡ n = omega arith in
      rw more (
        digits_from-decimal fuel (n / 10) ((b'0' + n % 10) ∷ out) (ground arith)
        ∙ digits_from-digit (n / 10) (n % 10) out (omega arith)
        ∙ ap (λ k. digits_from k out) e)
]

-- A decimal begins with a digit.
decimal-head :
    (fuel n : ℕ) (out : Text)
    → n < fuel
    → (d : ℕ) × (rest : Text) × (decimal fuel n out ≡ (b'0' + d) ∷ rest) × (d < 10)
unfolding decimal
decimal-head zero n out h = absurd (omega arith)
decimal-head (suc fuel) n out h = elim (Bool-cases (n / 10 == 0)) [
  | inl last ↦ (n % 10, out, rw last, omega arith)
  | inr more ↦
      let (d, rest, e, lt) = decimal-head fuel (n / 10) ((b'0' + n % 10) ∷ out) (ground arith) in
      (d, rest, rw more e, lt)
]

unsigned-show : (n : ℕ) → unsigned (show n) ≡ some n
unfolding show unsigned digits_from
unsigned-show n =
    let (d, rest, e, _) = decimal-head (suc n) n [] (omega arith) in
    let read : digits_from 0 (decimal (suc n) n []) ≡ some n =
      digits_from-decimal (suc n) n [] (omega arith) in
    rw e (rw e at read)

show-head : (n : ℕ) → (d : ℕ) × (rest : Text) × (show n ≡ (b'0' + d) ∷ rest) × (d < 10)
unfolding show
show-head n = decimal-head (suc n) n [] (omega arith)

-- Atoi reads back what Itoa prints.
pub atoi-itoa : (x : ℤ) → IsInt64 x → atoi (itoa x) ≡ some x
unfolding itoa atoi
atoi-itoa (pos n) h =
    let (d, rest, e, _) = show-head n in
    let read : unsigned ((b'0' + d) ∷ rest) ≡ some n = rw e at (unsigned-show n) in
    rw e (rw read (ground arith))
atoi-itoa (negsuc n) h = rw (unsigned-show (suc n)) (ground arith)

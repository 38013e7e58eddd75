-- ===== src/Docs/Words.antt =====
-- `splitQuery` of docs/_static/language_data.js: the words of a query, and the table of the code
-- units between words.
use g_rpeakec_go.Prelude.{
  ℕ, zero, suc, ◌+◌, ◌-◌, ◌≡◌, refl, Bool, true, false, ◌||◌, Option, none, some, List, [], ◌∷◌,
  ◌++◌, any, ◌==◌, if◌then◌else◌,
}
use g_rpeakec_go.Prelude.Text.{Text}
use g_rpeakec_go.Docs.Regex.{take, drop, between}
mod Tables
pub use Tables.*
pub mod Laws
mod Tests

-- Whether one of the loops that fill the table sets the entry.
unfoldable pub split_chars : ℕ → Bool
split_chars c = any (λ d. d == c) singles || any (λ r. between r.0 r.1 c) ranges

-- `query.slice(start, end)`
abbrev pub slice : ℕ → ℕ → Text → Text
slice start end s = take (end - start) (drop start s)

abbrev pub last_word : Option ℕ → Text → List Text → List Text
last_word none query result = result
last_word (some start) query result = result ++ drop start query ∷ []

-- `start` is -1 between words.
module _ (query : Text) where
  unfoldable pub split_loop : ℕ → Text → Option ℕ → List Text → List Text
  split_loop i [] start result = last_word start query result
  split_loop i (c ∷ rest) none result =
      let skip = split_loop (suc i) rest none result in
      let begin = split_loop (suc i) rest (some i) result in if split_chars c then skip else begin
  split_loop i (c ∷ rest) (some start) result =
      let close = split_loop (suc i) rest none (result ++ slice start i query ∷ []) in
      let keep = split_loop (suc i) rest (some start) result in
      if split_chars c then close else keep

unfoldable pub split_query : Text → List Text
unfolding split_loop split_chars
split_query query = split_loop query 0 query none []

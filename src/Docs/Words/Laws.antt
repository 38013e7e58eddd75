-- ===== src/Docs/Words/Laws.antt =====
-- The words of a query against a definition without positions.
use g_rpeakec_go.Prelude.{
  ℕ, zero, suc, ◌+◌, ◌-◌, ◌≡◌, refl, ap, sym, ◌∙◌, false, none, some, inl, inr, List, [], ◌∷◌, ◌++◌,
  length, length-append, All, ◌≢◌, Bool-cases, if◌then◌else◌, append_assoc, append-nil, arith,
}
use g_rpeakec_go.Prelude.Text.{Text}
use g_rpeakec_go.Docs.Regex.{take, drop}
use g_rpeakec_go.Docs.Words.{split_chars, slice, split_loop, split_query}

-- The text cut at every separator, empty pieces included.
abbrev pub join_first : Text → List Text → List Text
join_first w [] = w ∷ []
join_first w (p ∷ ps) = (w ++ p) ∷ ps

unfoldable pub pieces : Text → List Text
pieces [] = [] ∷ []
pieces (c ∷ s) =
    let more = pieces s in if split_chars c then [] ∷ more else join_first (c ∷ []) more

abbrev pub nonempty : List Text → List Text
nonempty [] = []
nonempty ([] ∷ ps) = nonempty ps
nonempty ((c ∷ p) ∷ ps) = (c ∷ p) ∷ nonempty ps

join_first-join_first :
    (w : Text) (c : ℕ) (ps : List Text)
    → join_first w (join_first (c ∷ []) ps) ≡ join_first (w ++ c ∷ []) ps
join_first-join_first w c [] = refl
join_first-join_first w c (p ∷ ps) = ap (λ v. v ∷ ps) (sym (append_assoc w (c ∷ []) p))

drop-next : (i : ℕ) (s : Text) (c : ℕ) (rest : Text) → drop i s ≡ c ∷ rest → drop (suc i) s ≡ rest
drop-next zero [] c rest h = ground (arith, h)
drop-next (suc i) [] c rest h = ground (arith, h)
drop-next zero (d ∷ s) c rest h = ground (arith, h)
drop-next (suc i) (d ∷ s) c rest h = drop-next i s c rest h

take-append : (w rest : Text) → take (length w) (w ++ rest) ≡ w
take-append [] rest = refl
take-append (c ∷ w) rest = ap (λ v. c ∷ v) (take-append w rest)

slice-word :
    (start i : ℕ) (query w rest : Text)
    → drop start query ≡ w ++ rest
    → i ≡ start + length w
    → slice start i query ≡ w
slice-word start i query w rest h e =
    let n : i - start ≡ length w = omega arith in rw n (rw h (take-append w rest))

-- What the loop adds, between words and inside of one that has begun with `c ∷ w`.
module _ (query : Text) where
  mutual
    unfolding split_loop pieces

    loop-between :
        (i : ℕ) (rest : Text) (result : List Text)
        → drop i query ≡ rest
        → split_loop query i rest none result ≡ result ++ nonempty (pieces rest)
    loop-between i [] result h = sym (append-nil result)
    loop-between i (c ∷ rest) result h = elim (Bool-cases (split_chars c)) [
      | inl e ↦ rw e (loop-between (suc i) rest result (drop-next i query c rest h))
      | inr e ↦
          rw e (loop-inside (suc i) i c [] rest result (drop-next i query c rest h) h (omega arith))
    ]

    loop-inside :
        (i start c : ℕ) (w rest : Text) (result : List Text)
        → drop i query ≡ rest
        → drop start query ≡ (c ∷ w) ++ rest
        → i ≡ start + length (c ∷ w)
        → split_loop query i rest (some start) result
          ≡ result ++ nonempty (join_first (c ∷ w) (pieces rest))
    loop-inside i start c w [] result h hs e = rw hs refl
    loop-inside i start c w (d ∷ rest) result h hs e = elim (Bool-cases (split_chars d)) [
      | inl q ↦
          let is_word = slice-word start i query (c ∷ w) (d ∷ rest) hs e in
          rw q (
            rw is_word (
              rw (append-nil w) (
                loop-between (suc i) rest (result ++ (c ∷ w) ∷ []) (drop-next i query d rest h)
                ∙ append_assoc result ((c ∷ w) ∷ []) (nonempty (pieces rest)))))
      | inr q ↦
          let longer : drop start query ≡ (c ∷ w ++ d ∷ []) ++ rest =
            hs ∙ sym (append_assoc (c ∷ w) (d ∷ []) rest) in
          rw q (
            loop-inside (suc i) start c (w ++ d ∷ []) rest result (drop-next i query d rest h)
              longer (omega (arith, e, length-append w (d ∷ [])))
            ∙ ap (λ ps. result ++ nonempty ps)
                (sym (join_first-join_first (c ∷ w) d (pieces rest))))
    ]

-- splitQuery, which walks the query by positions, returns the nonempty ones of the pieces between
-- the separators of the table, in their order.
pub split_query_lem : (query : Text) → split_query query ≡ nonempty (pieces query)
unfolding split_query
split_query_lem query = loop-between query 0 query [] refl

abbrev pub IsWord : Text → Type 0
IsWord w = (w ≢ []) × All (λ c. split_chars c ≡ false) w

abbrev pub IsPiece : Text → Type 0
IsPiece w = All (λ c. split_chars c ≡ false) w

abbrev pub keep : Text → Text
keep [] = []
keep (c ∷ s) = if split_chars c then keep s else c ∷ keep s

abbrev pub concat : List Text → Text
concat [] = []
concat (w ∷ ws) = w ++ concat ws

join_first-IsPiece :
    (c : ℕ) (ps : List Text)
    → split_chars c ≡ false
    → All IsPiece ps
    → All IsPiece (join_first (c ∷ []) ps)
join_first-IsPiece c [] e h = ((e, tt), tt)
join_first-IsPiece c (p ∷ ps) e (h, hs) = ((e, h), hs)

pieces-IsPiece : (s : Text) → All IsPiece (pieces s)
unfolding pieces
pieces-IsPiece [] = (tt, tt)
pieces-IsPiece (c ∷ s) = elim (Bool-cases (split_chars c)) [
  | inl e ↦ rw e (tt, pieces-IsPiece s)
  | inr e ↦ rw e (join_first-IsPiece c (pieces s) e (pieces-IsPiece s))
]

nonempty-IsWord : (ps : List Text) → All IsPiece ps → All IsWord (nonempty ps)
nonempty-IsWord [] h = tt
nonempty-IsWord ([] ∷ ps) (_, h) = nonempty-IsWord ps h
nonempty-IsWord ((c ∷ p) ∷ ps) (here, h) = ((λ e. ground (arith, e), here), nonempty-IsWord ps h)

concat-nonempty : (ps : List Text) → concat (nonempty ps) ≡ concat ps
concat-nonempty [] = refl
concat-nonempty ([] ∷ ps) = concat-nonempty ps
concat-nonempty ((c ∷ p) ∷ ps) = ap (λ s. c ∷ p ++ s) (concat-nonempty ps)

concat-join_first : (c : ℕ) (ps : List Text) → concat (join_first (c ∷ []) ps) ≡ c ∷ concat ps
concat-join_first c [] = refl
concat-join_first c (p ∷ ps) = refl

concat-pieces : (s : Text) → concat (pieces s) ≡ keep s
unfolding pieces
concat-pieces [] = refl
concat-pieces (c ∷ s) = elim (Bool-cases (split_chars c)) [
  | inl e ↦ rw e (concat-pieces s)
  | inr e ↦ rw e (concat-join_first c (pieces s) ∙ ap (λ v. c ∷ v) (concat-pieces s))
]

-- No word of a query is empty or holds a separator, and the words one after the other are the
-- query without its separators: nothing else is lost, and the order is kept.
pub split_query-IsWord :
    (query : Text) → All IsWord (split_query query) × (concat (split_query query) ≡ keep query)
split_query-IsWord query = rw (split_query_lem query) (
  nonempty-IsWord (pieces query) (pieces-IsPiece query),
  concat-nonempty (pieces query) ∙ concat-pieces query,
)

-- ===== src/Docs/Doctools/Params/Laws.antt =====
-- What becomes of the parts of an address.
use g_rpeakec_go.Prelude.{
  ℕ, suc, ◌+◌, ◌≡◌, ◌≢◌, refl, Bool, true, false, Option, none, some, inl, inr, List, [], ◌∷◌, ◌++◌,
  length, length-append, ◌==◌, Bool-cases, Option-cases, arith,
}
use g_rpeakec_go.Prelude.Text.{Text, codes, text_eq, replace}
use g_rpeakec_go.Docs.Strings.{index_of, split, ◌>>=◌}
use g_rpeakec_go.Docs.Doctools.Params.{
  Params, has_key, push_value, after_mark, url_decode, decode_value, add_param, add_part, add_parts,
  get_query_parameters,
}

-- How many values there are for all keys.
abbrev pub values : Params → ℕ
values [] = 0
values ((k, vs) ∷ ps) = length vs + values ps

values-push_value :
    (key : Text) (v : Option Text) (ps : Params)
    → has_key key ps ≡ true
    → values (push_value key v ps) ≡ values ps + 1
values-push_value key v [] h = ground (arith, h)
values-push_value key v ((k, vs) ∷ ps) h = elim (Bool-cases (text_eq k key)) [
  | inl e ↦ rw e (omega (arith, length-append vs (v ∷ [])))
  | inr e ↦
      let there : has_key key ps ≡ true = rw e at h in
      rw e (omega (arith, values-push_value key v ps there))
]

values-append : (ps qs : Params) → values (ps ++ qs) ≡ values ps + values qs
values-append [] qs = omega arith
values-append ((k, vs) ∷ ps) qs = omega (arith, values-append ps qs)

module _ (decode : Text → Option Text) (inherited : Text → Bool) where
  -- What a call returns, if it returns: one value more.
  abbrev pub Adds : ℕ → Params → Option Params → Type 0
  Adds n ps none = ⊥
  Adds n ps (some qs) = values qs ≡ values ps + n

  -- Nothing is malformed, and no key is a name that every object has.
  abbrev pub IsTotal : Type 0
  IsTotal = ((x : Text) → decode x ≢ none) × ((key : Text) → inherited key ≡ false)

  add_param-Adds :
      (key : Text) (v : Option Text) (ps : Params)
      → inherited key ≡ false
      → Adds 1 ps (add_param decode inherited key v ps)
  add_param-Adds key v ps own = elim (Bool-cases (has_key key ps)) [
    | inl e ↦ rw e (values-push_value key v ps e)
    | inr e ↦ rw e (rw own (values-append ps ((key, v ∷ []) ∷ [])))
  ]

  url_decode-some : (x : Text) → IsTotal → (y : Text) × (url_decode decode inherited x ≡ some y)
  unfolding url_decode
  url_decode-some [] total = ([], refl)
  url_decode-some (c ∷ x) total =
      elim (Option-cases (decode (replace (codes "+") (codes " ") (c ∷ x)))) [
        | inl e ↦ absurd (total.0 _ e)
        | inr e ↦ e
      ]

  decode_value-some :
      (vs : List Text) → IsTotal → (v : Option Text) × (decode_value decode inherited vs ≡ some v)
  decode_value-some [] total = (none, refl)
  decode_value-some (x ∷ vs) total = let (y, e) = url_decode-some x total in (some y, rw e refl)

  -- A part has a key, if only the empty one.
  add_part-Adds :
      (k : Text) (vs : List Text) (ps : Params)
      → IsTotal
      → Adds 1 ps (add_part decode inherited (k ∷ vs) ps)
  add_part-Adds k vs ps total =
      let (key, e) = url_decode-some k total in
      let (v, f) = decode_value-some vs total in rw e (rw f (add_param-Adds key v ps (total.1 key)))

  split-cons : (c : ℕ) (s : Text) → (p : Text) × (ps : List Text) × (split c s ≡ p ∷ ps)
  unfolding split
  split-cons c [] = ([], [], refl)
  split-cons c (d ∷ s) =
      let (p, ps, e) = split-cons c s in
      elim (Bool-cases (d == c)) [
        | inl q ↦ ([], split c s, rw q refl)
        | inr q ↦ (d ∷ p, ps, rw q (rw e refl))
      ]

  Adds-then :
      (n : ℕ) (ps : Params) (o : Option Params) (f : Params → Option Params)
      → Adds 1 ps o
      → ((qs : Params) → Adds n qs (f qs))
      → Adds (suc n) ps (o >>= f)
  Adds-then n ps none f h g = absurd h
  Adds-then n ps (some qs) f h g = more (f qs) (g qs)
    where
      more : (o : Option Params) → Adds n qs o → Adds (suc n) ps o
      more none k = k
      more (some rs) k = omega (arith, h, k)

  add_parts-Adds :
      (parts : List Text) (ps : Params)
      → IsTotal
      → Adds (length parts) ps (add_parts decode inherited parts ps)
  unfolding add_parts
  add_parts-Adds [] ps total = omega arith
  add_parts-Adds (part ∷ parts) ps total =
      let (k, vs, e) = split-cons b'=' part in
      rw e (
        Adds-then (length parts) ps (add_part decode inherited (k ∷ vs) ps)
          (add_parts decode inherited parts) (add_part-Adds k vs ps total)
          (λ qs. add_parts-Adds parts qs total))

  -- Reading the parameters of an address returns, and keeps every part as one value, a part without
  -- `=` and a second value of a key included, given that nothing is malformed and that no key is a
  -- name that every object has.
  pub get_query_parameters-Adds :
      (s : Text)
      → IsTotal
      → Adds
          (length (split b'&' (after_mark (index_of (codes "?") s) s)))
          []
          (get_query_parameters decode inherited s)
  unfolding get_query_parameters
  get_query_parameters-Adds s total =
      add_parts-Adds (split b'&' (after_mark (index_of (codes "?") s) s)) [] total

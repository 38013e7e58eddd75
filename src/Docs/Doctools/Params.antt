-- ===== src/Docs/Doctools/Params.antt =====
-- `jQuery.urldecode` and `jQuery.getQueryParameters` of docs/_static/doctools.js.
use g_rpeakec_go.Prelude.{
  ℕ, zero, suc, ◌+◌, ◌≡◌, ◌≢◌, refl, ap, sym, ◌∙◌, Bool, true, false, Option, none, some, inl, inr,
  List, [], ◌∷◌, ◌++◌, length, map, if◌then◌else◌, ◌==◌, Bool-cases, arith,
}
use mathlib.Core.Option
use g_rpeakec_go.Prelude.Text.{Text, codes, text_eq, replace}
use g_rpeakec_go.Docs.Regex.{drop}
use g_rpeakec_go.Docs.Strings.{index_of, split, ◌>>=◌}
pub mod Laws

-- The values of each key; a value is undefined when its part has no `=`.
abbrev pub Params : Type 0
Params = List (Text × List (Option Text))

abbrev pub has_key : Text → Params → Bool
has_key key [] = false
has_key key ((k, vs) ∷ ps) = if text_eq k key then true else has_key key ps

abbrev pub push_value : Text → Option Text → Params → Params
push_value key v [] = []
push_value key v ((k, vs) ∷ ps) =
    let rest = push_value key v ps in
    if text_eq k key then (k, vs ++ v ∷ []) ∷ ps else (k, vs) ∷ rest

-- `s.substr(s.indexOf('?') + 1)`
abbrev pub after_mark : Option ℕ → Text → Text
after_mark none s = s
after_mark (some i) s = drop (suc i) s

-- `decodeURIComponent` throws on a malformed text, which is `none`. `inherited` tells the names
-- that every object has, for which `in` holds and which have no `push`.
module _ (decode : Text → Option Text) (inherited : Text → Bool) where
  unfoldable pub url_decode : Text → Option Text
  unfolding replace
  url_decode [] = some []
  url_decode (c ∷ x) = decode (replace (codes "+") (codes " ") (c ∷ x))

  abbrev pub decode_value : List Text → Option (Option Text)
  decode_value [] = some none
  decode_value (v ∷ vs) = Option.map some (url_decode v)

  abbrev pub add_param : Text → Option Text → Params → Option Params
  add_param key v ps =
      if has_key key ps
      then some (push_value key v ps)
      else if inherited key
      then none
      else some (ps ++ (key, v ∷ []) ∷ [])

  -- A part, split at `=` into two at most.
  abbrev pub add_part : List Text → Params → Option Params
  add_part [] ps = some ps
  add_part (k ∷ vs) ps = do key ← url_decode k; v ← decode_value vs; add_param key v ps

  unfoldable pub add_parts : List Text → Params → Option Params
  unfolding url_decode text_eq split
  add_parts [] ps = some ps
  add_parts (part ∷ parts) ps = do qs ← add_part (split b'=' part) ps; add_parts parts qs

  unfoldable pub get_query_parameters : Text → Option Params
  unfolding add_parts index_of split
  get_query_parameters s =
      let query = after_mark (index_of (codes "?") s) s in add_parts (split b'&' query) []

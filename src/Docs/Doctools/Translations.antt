-- ===== src/Docs/Doctools/Translations.antt =====
-- The translations of docs/_static/doctools.js.
use g_rpeakec_go.Prelude.{
  ℕ, suc, ◌≡◌, ◌↔◌, refl, Bool, true, false, Option, none, some, List, [], ◌∷◌, ◌==◌, if◌then◌else◌,
  arith,
}
use g_rpeakec_go.Prelude.Text.{Text, codes, text_eq}
pub mod Laws

-- A message has one translation, or one for each plural form.
pub data Translation : Type 0 where
  single : Text → Translation
  forms : List Text → Translation

-- `Documentation`: TRANSLATIONS, PLURAL_EXPR and LOCALE.
pub record Catalog : Type 0 where
  translations : List (Text × Translation)
  plural_expr : ℕ → ℕ
  locale : Text

abbrev pub plural_of : ℕ → ℕ
plural_of n = if n == 1 then 0 else 1

abbrev pub documentation : Catalog
documentation = record { translations = []; plural_expr = plural_of; locale = codes "unknown" }

abbrev pub find_message : Text → List (Text × Translation) → Option Translation
find_message m [] = none
find_message m ((k, t) ∷ ts) = if text_eq k m then some t else find_message m ts

abbrev first_form : List Text → Option Text
first_form [] = none
first_form (f ∷ fs) = some f

-- `none` is undefined, for a list without forms.
abbrev pub translated : Text → Option Translation → Option Text
translated m none = some m
translated m (some (single t)) = some t
translated m (some (forms fs)) = first_form fs

unfoldable pub gettext : Catalog → Text → Option Text
unfolding text_eq
gettext d m = translated m (find_message m d.translations)

-- With a translation the method calls `PLURALEXPR`, which `Documentation` does not have under that
-- name, and throws, which is `none`.
abbrev pub plural_form : Text → Text → ℕ → Option Translation → Option Text
plural_form singular plural n none = some (if n == 1 then singular else plural)
plural_form singular plural n (some t) = none

unfoldable pub ngettext : Catalog → Text → Text → ℕ → Option Text
unfolding text_eq
ngettext d singular plural n = plural_form singular plural n (find_message singular d.translations)

abbrev pub set_message : Text → Translation → List (Text × Translation) → List (Text × Translation)
set_message m t [] = (m, t) ∷ []
set_message m t ((k, s) ∷ ts) =
    let rest = set_message m t ts in if text_eq k m then (k, t) ∷ ts else (k, s) ∷ rest

abbrev pub set_messages :
    List (Text × Translation) → List (Text × Translation) → List (Text × Translation)
set_messages [] ts = ts
set_messages ((m, t) ∷ messages) ts = set_messages messages (set_message m t ts)

unfoldable pub add_translations : Catalog → Catalog → Catalog
unfolding text_eq
add_translations catalog d = record {
  translations = set_messages catalog.translations d.translations;
  plural_expr = catalog.plural_expr;
  locale = catalog.locale;
}

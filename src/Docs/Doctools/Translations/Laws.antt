-- ===== src/Docs/Doctools/Translations/Laws.antt =====
-- What a catalog changes.
use g_rpeakec_go.Prelude.{
  ℕ, ◌≡◌, ◌≢◌, ◌↔◌, refl, ap, ◌∙◌, Bool, true, false, Option, none, some, inl, inr, List, [], ◌∷◌,
  if◌then◌else◌, Bool-cases, arith,
}
use g_rpeakec_go.Prelude.Text.{Text, text_eq, text_eq_iff}
use g_rpeakec_go.Docs.Doctools.Translations.{
  Translation, Catalog, find_message, translated, plural_form, gettext, ngettext, set_message,
  set_messages, add_translations,
}

-- The last translation of a message in a list.
abbrev pub find_last : Text → List (Text × Translation) → Option Translation → Option Translation
find_last m [] before = before
find_last m ((k, t) ∷ ts) before = find_last m ts (if text_eq k m then some t else before)

find_message-set_message :
    (m k : Text) (t : Translation) (ts : List (Text × Translation))
    → find_message m (set_message k t ts) ≡ (if text_eq k m then some t else find_message m ts)
find_message-set_message m k t [] = refl
find_message-set_message m k t ((j, s) ∷ ts) = elim (Bool-cases (text_eq j k)) [
  | inl e ↦ let same : j ≡ k = (text_eq_iff j k).0 e in rw e (rw same (either (text_eq k m)))
  | inr e ↦ rw e (
      ground (
        arith,
        e,
        find_message-set_message m k t ts,
        text_eq_iff j m,
        text_eq_iff k m,
        text_eq_iff j k,
      ))
]
  where
    either :
        (b : Bool)
        → (if b then some t else find_message m ts)
          ≡ (if b then some t else if b then some s else find_message m ts)
    either true = refl
    either false = refl

find_message-set_messages :
    (m : Text) (ms ts : List (Text × Translation))
    → find_message m (set_messages ms ts) ≡ find_last m ms (find_message m ts)
find_message-set_messages m [] ts = refl
find_message-set_messages m ((k, t) ∷ ms) ts =
    find_message-set_messages m ms (set_message k t ts)
    ∙ ap (find_last m ms) (find_message-set_message m k t ts)

-- After a catalog is added, a message is translated by the last entry that the catalog has for it,
-- and as before when the catalog has none.
pub gettext-add_translations :
    (catalog d : Catalog) (m : Text)
    → gettext (add_translations catalog d) m
      ≡ translated m (find_last m catalog.translations (find_message m d.translations))
unfolding gettext add_translations
gettext-add_translations catalog d m =
    ap (translated m) (find_message-set_messages m catalog.translations d.translations)

-- ngettext throws exactly for a message that has a translation, whatever the number: it calls the
-- plural rule by a name that does not exist.
pub ngettext-none_iff :
    (d : Catalog) (singular plural : Text) (n : ℕ)
    → (ngettext d singular plural n ≡ none) ↔ (find_message singular d.translations ≢ none)
unfolding ngettext
ngettext-none_iff d singular plural n = go (find_message singular d.translations)
  where
    go : (o : Option Translation) → (plural_form singular plural n o ≡ none) ↔ (o ≢ none)
    go none = ground arith
    go (some t) = ground arith

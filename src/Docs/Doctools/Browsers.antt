-- ===== src/Docs/Doctools/Browsers.antt =====
-- `jQuery.uaMatch` of docs/_static/doctools.js: the name and the version in a user agent.
use g_rpeakec_go.Prelude.{ℕ, Option, none, some, List, [], ◌∷◌, ◌||◌, ◌==◌, if◌then◌else◌}
use g_rpeakec_go.Prelude.Text.{Text, codes}
use g_rpeakec_go.Docs.Regex.{
  Re, Match, one, many, lazy, word, seq, alt, group, empty, exec, find_group, among, dot, word_char,
}
use g_rpeakec_go.Docs.Strings.{index_of, found}

pub record Browser : Type 0 where
  pub browser : Text
  pub version : Text

-- `[\w.]+`
abbrev version_re : Re
version_re =
    group 2 (seq (one (λ c. word_char c || c == b'.')) (many (λ c. word_char c || c == b'.')))

-- `[ \/]`
abbrev slash_re : Re
slash_re = one (among (codes " /"))

abbrev chrome_re : Re
chrome_re = seq (group 1 (word (codes "chrome"))) (seq slash_re version_re)

abbrev webkit_re : Re
webkit_re = seq (group 1 (word (codes "webkit"))) (seq slash_re version_re)

abbrev opera_re : Re
opera_re =
    seq (group 1 (word (codes "opera")))
      (seq (alt (seq (many dot) (word (codes "version"))) empty) (seq slash_re version_re))

abbrev msie_re : Re
msie_re = seq (group 1 (word (codes "msie"))) (seq (word (codes " ")) version_re)

abbrev mozilla_re : Re
mozilla_re =
    seq (group 1 (word (codes "mozilla")))
      (alt (seq (lazy dot) (seq (word (codes " rv:")) version_re)) empty)

abbrev or_else {ℓ} : {A : Type ℓ} → Option A → Option A → Option A
or_else none o = o
or_else (some a) o = some a

-- `match[n] || other`
abbrev group_or : Option Text → Text → Text
group_or none other = other
group_or (some []) other = other
group_or (some (c ∷ t)) other = c ∷ t

abbrev groups_of : Option Match → List (ℕ × Text)
groups_of none = []
groups_of (some m) = m.groups

unfoldable pub ua_match : (Text → Text) → Text → Browser
unfolding exec index_of
ua_match to_lower agent =
    let ua = to_lower agent in
    let compatible = found (index_of (codes "compatible") ua) in
    let mozilla = if compatible then none else exec mozilla_re ua in
    let parts = groups_of (
      or_else (exec chrome_re ua) (
        or_else (exec webkit_re ua)
          (or_else (exec opera_re ua) (or_else (exec msie_re ua) mozilla)))) in
    record {
      browser = group_or (find_group 1 parts) [];
      version = group_or (find_group 2 parts) (codes "0");
    }

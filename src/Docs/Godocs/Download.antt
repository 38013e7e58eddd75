-- ===== src/Docs/Godocs/Download.antt =====
-- The instructions for a download, and what zdocs/source/_static/godocs.js does when a page is
-- ready.
use g_rpeakec_go.Prelude.{
  ℕ, zero, suc, Bool, true, false, not, ◌||◌, Option, none, some, List, [], ◌∷◌, ◌++◌, length,
  if◌then◌else◌,
}
use g_rpeakec_go.Prelude.Text.{Text, codes, text_eq}
use g_rpeakec_go.Docs.Regex.{
  Re, Match, one, many, word, seq, group, finish, match_start, find_group, opt, among, between,
  drop,
}
use g_rpeakec_go.Docs.Strings.{index_of, found, text_at}

-- `\d`, `[a-z0-9]` and `[a-z.]`
abbrev digit : ℕ → Bool
digit c = between b'0' b'9' c

abbrev lower_or_digit : ℕ → Bool
lower_or_digit c = between b'a' b'z' c || between b'0' b'9' c

abbrev lower_or_dot : ℕ → Bool
lower_or_dot c = between b'a' b'z' c || between b'.' b'.' c

abbrev plus : (ℕ → Bool) → Re
plus p = seq (one p) (many p)

-- `filenameRE`, behind `^`.
abbrev filename_re : Re
filename_re = seq (word (codes "go1.")) (
    seq (plus digit) (
      seq (opt (group 1 (seq (word (codes ".")) (plus digit)))) (
        seq (opt (group 2 (plus lower_or_digit))) (
          seq (word (codes ".")) (
            seq (group 3 (plus lower_or_digit)) (
              seq (opt (group 4 (seq (word (codes "-")) (plus lower_or_digit)))) (
                seq (opt (group 5 (seq (word (codes "-osx10.")) (one (among (codes "68"))))))
                  (seq (word (codes ".")) (seq (group 6 (plus lower_or_dot)) finish)))))))))

-- What is done to the elements of a class or an id, and to the address.
pub data Action : Type 0 where
  hide show : Text → Action
  set_text : Text → Text → Action
  insert_link : Text → Action
  go_to : Text → Action

abbrev hide_if : Bool → Text → List Action
hide_if b t = if b then hide t ∷ [] else []

abbrev unix : List Action
unix = show (codes ".testUnix") ∷ hide (codes ".testWindows") ∷ []

abbrev windows : List Action
windows = hide (codes ".testUnix") ∷ show (codes ".testWindows") ∷ []

-- Without a download in the address the platform decides.
abbrev pub by_platform : Text → List Action
by_platform platform = if found (index_of (codes "Win") platform) then windows else unix

abbrev instructions : Text → Text → List Action
instructions os ext =
    let is_windows = text_eq os (codes "windows") in
    hide_if (not (text_eq ext (codes "tar.gz"))) (codes "#tarballInstructions")
    ++ (hide_if (not (text_eq os (codes "darwin")) || not (text_eq ext (codes "pkg")))
          (codes "#darwinPackageInstructions")
        ++ (if is_windows
            then hide_if (not (text_eq ext (codes "msi"))) (codes "#windowsInstallerInstructions")
              ++ (hide_if (not (text_eq ext (codes "zip"))) (codes "#windowsZipInstructions")
                  ++ windows)
            else hide (codes "#windowsInstructions") ∷ unix))

abbrev by_file : Text → Option Match → List Action
by_file filename none = []
by_file filename (some m) =
    let url = codes "https://dl.google.com/go/" ++ filename in
    set_text (codes ".downloadFilename") filename
      ∷ hide (codes ".hideFromDownload")
      ∷ instructions (text_at (find_group 3 m.groups)) (text_at (find_group 6 m.groups))
    ++ insert_link url ∷ go_to url ∷ []

abbrev prefix : Text
prefix = codes "?download="

abbrev at_start : Option ℕ → Bool
at_start (some zero) = true
at_start _ = false

-- `personalizeInstallInstructions`
unfoldable pub personalize_install_instructions : Text → Text → List Action
unfolding index_of text_eq match_start
personalize_install_instructions platform search =
    let filename = drop (length prefix) search in
    if at_start (index_of prefix search)
    then by_file filename (match_start filename_re filename)
    else by_platform platform

-- The set-up of a page, in its order; the last one runs what other scripts have left to be run.
pub data Ready : Type 0 where
  generate_toc add_permalinks : Ready
  bind_toggles : Text → Ready
  bind_toggle_links : Text → Text → Ready
  setup_dropdown_playground setup_inline_playground fix_focus : Ready
  setup_type_info setup_callgraphs toggle_hash : Ready
  personalize_install update_version_tags : Ready
  init_func : ℕ → Ready

abbrev init_funcs : ℕ → ℕ → List Ready
init_funcs i zero = []
init_funcs i (suc n) = init_func i ∷ init_funcs (suc i) n

unfoldable pub on_ready : ℕ → List Ready
on_ready n =
    generate_toc
    ∷ add_permalinks
    ∷ bind_toggles (codes ".toggle")
    ∷ bind_toggles (codes ".toggleVisible")
    ∷ bind_toggle_links (codes ".exampleLink") (codes "example_")
    ∷ bind_toggle_links (codes ".overviewLink") []
    ∷ bind_toggle_links (codes ".examplesLink") []
    ∷ bind_toggle_links (codes ".indexLink") []
    ∷ setup_dropdown_playground
    ∷ setup_inline_playground
    ∷ fix_focus
    ∷ setup_type_info
    ∷ setup_callgraphs
    ∷ toggle_hash
    ∷ personalize_install
    ∷ update_version_tags
    ∷ init_funcs 0 n

-- ===== src/Docs/Godocs/Tests.antt =====
-- Runs of the pages of godoc.
use g_rpeakec_go.Prelude.{◌≡◌, refl, true, false, none, some, [], ◌∷◌, update}
use g_rpeakec_go.Prelude.Text.{codes}
use g_rpeakec_go.Docs.Godocs.Contents.{TocItem}
use g_rpeakec_go.Docs.Godocs.Toggles.{
  Classes, flip, Selections, bound_to, click_button, link_target,
}
use g_rpeakec_go.Docs.Godocs.Toggles.Laws.{click_button-nearest}
use g_rpeakec_go.Docs.Godocs.Download.{
  personalize_install_instructions, go_to, hide, show, set_text, insert_link,
}
use g_rpeakec_go.Docs.Godocs.Graph.{CgNode}

abbrev entry : TocItem
entry = record { is_dt = true; href = codes "#a"; text = codes "A" }

-- Section 2 in section 1, with button 3 in both.
abbrev nested : Selections
nested = record {
  buttons_in = λ el. 3 ∷ [];
  closest = λ classes b. some 2;
  by_id = λ id. none;
  first_button = λ el. some 3;
}

abbrev all_shut : Classes
all_shut el = record { toggle = true; toggle_visible = false }

click_button-nearest_example :
    click_button nested (1 ∷ 2 ∷ []) 3 all_shut ≡ update all_shut 2 (flip (all_shut 2))
unfolding bound_to
click_button-nearest_example =
    click_button-nearest nested all_shut 3 2 (1 ∷ 2 ∷ []) (refl, refl) refl

link_target_runs :
    link_target nested (codes "example_") (codes "/pkg/fmt/#example_Printf")
    ≡ some (codes "#example_Printf")
unfolding link_target
link_target_runs = refl

download_runs :
    personalize_install_instructions (codes "Linux") (codes "?download=go1.15.6.linux-amd64.tar.gz")
    ≡ set_text (codes ".downloadFilename") (codes "go1.15.6.linux-amd64.tar.gz")
      ∷ hide (codes ".hideFromDownload")
      ∷ hide (codes "#darwinPackageInstructions")
      ∷ hide (codes "#windowsInstructions")
      ∷ show (codes ".testUnix")
      ∷ hide (codes ".testWindows")
      ∷ insert_link (codes "https://dl.google.com/go/go1.15.6.linux-amd64.tar.gz")
      ∷ go_to (codes "https://dl.google.com/go/go1.15.6.linux-amd64.tar.gz")
      ∷ []
unfolding personalize_install_instructions
download_runs = refl

-- A function that calls itself.
abbrev recursive : CgNode
recursive = record { func = record { text = codes "f"; href = [] }; callees = some (0 ∷ []) }

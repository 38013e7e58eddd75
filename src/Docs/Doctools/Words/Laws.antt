-- ===== src/Docs/Doctools/Words/Laws.antt =====
-- The text of a page under all the words of an address.
use g_rpeakec_go.Prelude.{◌≡◌, refl, ◌∙◌, false, List, [], ◌∷◌}
use g_rpeakec_go.Prelude.Text.{Text, codes}
use g_rpeakec_go.Docs.Doctools.Highlight.{Node}
use g_rpeakec_go.Docs.Doctools.Highlight.Content.{content, content-highlight_text}
use g_rpeakec_go.Docs.Doctools.Words.{highlight_all}

-- The words of a search leave the text of the page as it is, however many there are.
pub content-highlight_all :
    (to_lower : Text → Text) (ws : List Text) (body : Node)
    → content (highlight_all to_lower ws body) ≡ content body
unfolding highlight_all
content-highlight_all to_lower [] body = refl
content-highlight_all to_lower (w ∷ ws) body =
    content-highlight_all to_lower ws _
    ∙ content-highlight_text to_lower (to_lower w) (codes "highlighted") false body

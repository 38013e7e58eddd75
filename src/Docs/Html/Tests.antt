-- ===== src/Docs/Html/Tests.antt =====
-- Runs of the HTML of the analysis.
use g_rpeakec_go.Prelude.{◌≡◌, refl, some, none, [], ◌∷◌}
use g_rpeakec_go.Prelude.Text.{codes}
use g_rpeakec_go.Docs.Html.{
  Anchor, ImplGroup, TypeInfo, View, comm_data, escape_html, make_anchor, on_click_comm,
  hide_low_frame, show_low_frame,
}
use g_rpeakec_go.Docs.Html.Escape.{escape_char, spread, escape_html_lem, decode, decode-escape_html}

escape_html_runs : escape_html (codes "a < b & 'c'") ≡ codes "a &lt; b &amp; &#39;c&#39;"
unfolding escape_html
escape_html_runs = refl

escape_html_lem_example : escape_html (codes "<b>") ≡ spread escape_char (codes "<b>")
escape_html_lem_example = escape_html_lem (codes "<b>")

decode-escape_html_example : decode 0 (escape_html (codes "&lt;")) ≡ codes "&lt;"
decode-escape_html_example = decode-escape_html (codes "&lt;")

abbrev writer : Anchor
writer = record { text = codes "io.Writer"; href = codes "/pkg/io/#Writer" }

make_anchor_runs : make_anchor writer ≡ codes "<a href='/pkg/io/#Writer'>io.Writer</a>"
unfolding make_anchor
make_anchor_runs = refl

abbrev writer_groups : ImplGroup
writer_groups = record {
  descr = codes "map<string>";
  facts = record { by_kind = some (codes "pointer"); other = writer } ∷ [];
}

abbrev writer_info : TypeInfo
writer_info = record {
  name = codes "T";
  size = 8;
  align = 8;
  impl_groups = some (writer_groups ∷ []);
  methods = none;
}

abbrev closed_view : View
closed_view = record { location = codes "/pkg"; height = codes "0px"; inner_html = [] }

-- A channel with a single operation is left for its place, and the frame stays shut.
sole_op :
    on_click_comm (comm_data (record { op = writer; fn = codes "main" } ∷ []) ∷ []) 0 closed_view
    ≡ some (record { location = codes "/pkg/io/#Writer"; height = codes "0px"; inner_html = [] })
unfolding on_click_comm
sole_op = refl

shut_again : (hide_low_frame (show_low_frame (codes "x") closed_view)).height ≡ codes "0px"
unfolding hide_low_frame
shut_again = refl

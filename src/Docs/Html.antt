-- ===== src/Docs/Html.antt =====
-- The HTML that zdocs/source/_static/godocs.js builds for the results of the analysis, and the
-- handlers that show it in the low frame.
use g_rpeakec_go.Prelude.{
  ℕ, zero, suc, ◌≡◌, refl, Bool, true, false, not, ◌&&◌, Option, none, some, List, [], ◌∷◌, ◌++◌,
  length, get_elem?, ltb, ◌==◌, if◌then◌else◌,
}
use mathlib.Core.Option
use g_rpeakec_go.Prelude.Text.{Text, codes, text_eq, replace, show}
mod Escape
mod Frame
mod Tests

unfoldable pub escape_html : Text → Text
unfolding replace
escape_html s =
    let a = replace (codes "&") (codes "&amp;") s in
    let b = replace (codes "\"") (codes "&quot;") a in
    let c = replace (codes "'") (codes "&#39;") b in
    let d = replace (codes "<") (codes "&lt;") c in replace (codes ">") (codes "&gt;") d

-- `anchorJSON`
pub record Anchor : Type 0 where
  pub text : Text
  pub href : Text

unfoldable pub make_anchor : Anchor → Text
unfolding escape_html text_eq
make_anchor json =
    let html = escape_html json.text in
    if not (text_eq json.href [])
    then codes "<a href='" ++ escape_html json.href ++ codes "'>" ++ html ++ codes "</a>"
    else html

-- A field that may be null is an `Option`.
pub record Caller : Type 0 where
  func : Text
  sites : Option (List Anchor)

pub record Fact : Type 0 where
  by_kind : Option Text
  other : Anchor

pub record ImplGroup : Type 0 where
  descr : Text
  facts : List Fact

pub record TypeInfo : Type 0 where
  pub name : Text
  pub size : ℕ
  pub align : ℕ
  pub impl_groups : Option (List ImplGroup)
  pub methods : Option (List Anchor)

pub record CommOp : Type 0 where
  op : Anchor
  fn : Text

-- The entries of `ANALYSIS_DATA`.
pub data Analysis : Type 0 where
  callers_data : Text → List Caller → Analysis
  callees_data : Text → List Anchor → Analysis
  type_data : TypeInfo → Analysis
  comm_data : List CommOp → Analysis

-- What the handlers change: the address, and the element `lowframe`.
pub record View : Type 0 where
  location : Text
  height : Text
  inner_html : Text

unfoldable pub show_low_frame : Text → View → View
show_low_frame html v = record {
  location = v.location;
  height = codes "200px";
  inner_html =
      codes "<p style='text-align: left;'>"
      ++ html
      ++ codes "</p>\n"
      ++ codes "<div onclick='hideLowFrame()' style='position: absolute; top: 0; right: 0; "
      ++ codes "cursor: pointer;'>✘</div>";
}

unfoldable pub hide_low_frame : View → View
hide_low_frame v = record { location = v.location; height = codes "0px"; inner_html = v.inner_html }

abbrev pub jump : Text → View → View
jump href v = record { location = href; height = v.height; inner_html = v.inner_html }

abbrev line_end : Text
line_end = codes "<br/>\n"

-- The loop over `sites` after its first round.
abbrev more_sites : List Anchor → Text
more_sites [] = []
more_sites (a ∷ sites) =
    codes ", " ++ codes "<code>" ++ make_anchor a ++ codes "</code>" ++ more_sites sites

abbrev sites_html : Option (List Anchor) → Text
sites_html none = []
sites_html (some []) = []
sites_html (some (a ∷ sites)) =
    codes " at line " ++ codes "<code>" ++ make_anchor a ++ codes "</code>" ++ more_sites sites

abbrev callers_html : List Caller → Text
callers_html [] = []
callers_html (caller ∷ callers) =
    codes "<code>"
    ++ escape_html caller.func
    ++ codes "</code>"
    ++ sites_html caller.sites
    ++ line_end
    ++ callers_html callers

-- A sole caller is asked for its sites, and `null.length` throws.
abbrev pub on_callers : Text → List Caller → View → Option View
on_callers callee callers v =
    let html =
      codes "Callers of <code>"
      ++ escape_html callee
      ++ codes "</code>:"
      ++ line_end
      ++ callers_html callers in
    elim callers [
      | caller ∷ [] ↦ elim caller.sites [
        | none ↦ none
        | some (site ∷ []) ↦ some (jump site.href v)
        | some _ ↦ some (show_low_frame html v)
      ]
      | _ ↦ some (show_low_frame html v)
    ]

-- A handler that throws a TypeError is `none`: the entry is missing or of another kind.
unfoldable pub on_click_callers : List Analysis → ℕ → View → Option View
unfolding make_anchor escape_html show_low_frame
on_click_callers analysis index v = elim (get_elem? analysis index) [
  | some (callers_data callee callers) ↦ on_callers callee callers v
  | _ ↦ none
]

abbrev callees_html : List Anchor → Text
callees_html [] = []
callees_html (a ∷ callees) =
    codes "<code>" ++ make_anchor a ++ codes "</code>" ++ line_end ++ callees_html callees

abbrev on_callees : Text → List Anchor → View → View
on_callees descr (callee ∷ []) v = jump callee.href v
on_callees descr callees v =
    show_low_frame
      (codes "Callees of this "
        ++ escape_html descr
        ++ codes ":"
        ++ line_end
        ++ callees_html callees)
      v

unfoldable pub on_click_callees : List Analysis → ℕ → View → Option View
unfolding make_anchor escape_html show_low_frame
on_click_callees analysis index v = elim (get_elem? analysis index) [
  | some (callees_data descr callees) ↦ some (on_callees descr callees v)
  | _ ↦ none
]

abbrev fact_html : Text → Option Text → Text → Text
fact_html x (some kind) y = escape_html kind ++ codes " type " ++ y ++ codes " implements " ++ x
fact_html x none y = x ++ codes " implements " ++ y

abbrev facts_html : Text → List Fact → Text
facts_html x [] = []
facts_html x (fact ∷ facts) =
    fact_html x fact.by_kind (codes "<code>" ++ make_anchor fact.other ++ codes "</code>")
    ++ line_end
    ++ facts_html x facts

abbrev groups_html : List ImplGroup → Text
groups_html [] = []
groups_html (group ∷ groups) =
    facts_html (codes "<code>" ++ escape_html group.descr ++ codes "</code> ") group.facts
    ++ groups_html groups

unfoldable pub implements_html : TypeInfo → Text
unfolding make_anchor escape_html
implements_html info = elim info.impl_groups [ none ↦ [] | some groups ↦ groups_html groups ]

unfoldable pub methodset_html : TypeInfo → Text
unfolding make_anchor
methodset_html info = elim info.methods [ none ↦ [] | some methods ↦ callees_html methods ]

abbrev type_html : Text → Text → Text → Text → Text
type_html name size align rest =
    codes "Type <code>"
    ++ name
    ++ codes "</code>: "
    ++ codes "&nbsp;&nbsp;&nbsp;&nbsp;&nbsp;&nbsp;<small>(size="
    ++ size
    ++ codes ", align="
    ++ align
    ++ codes ")</small>"
    ++ line_end
    ++ rest

-- A field that an entry of another kind does not have reads as `undefined`, and no loop runs.
abbrev type_info_html : Analysis → Text
type_info_html (type_data info) =
    type_html info.name (show info.size) (show info.align)
      (implements_html info ++ methodset_html info)
type_info_html _ = let undefined = codes "undefined" in type_html undefined undefined undefined []

unfoldable pub on_click_type_info : List Analysis → ℕ → View → Option View
unfolding implements_html methodset_html show_low_frame show
on_click_type_info analysis index v =
    Option.map (λ data_of. show_low_frame (type_info_html data_of) v) (get_elem? analysis index)

abbrev ops_html : List CommOp → Text
ops_html [] = []
ops_html (o ∷ ops) =
    make_anchor o.op
    ++ codes " by <code>"
    ++ escape_html o.fn
    ++ codes "</code>"
    ++ line_end
    ++ ops_html ops

abbrev on_comm : List CommOp → View → View
on_comm (o ∷ []) v = jump o.op.href v
on_comm ops v =
    let empty = if length ops == 0 then codes "(none)" ++ line_end else [] in
    show_low_frame (codes "Operations on this channel:" ++ line_end ++ ops_html ops ++ empty) v

unfoldable pub on_click_comm : List Analysis → ℕ → View → Option View
unfolding make_anchor escape_html show_low_frame
on_click_comm analysis index v = elim (get_elem? analysis index) [
  | some (comm_data ops) ↦ some (on_comm ops v)
  | _ ↦ none
]

-- ===== src/Docs/Godocs/Graph.antt =====
-- The analysis shown in the page: the type information, and the tree of calls, whose branches are
-- made when they are opened (zdocs/source/_static/godocs.js).
use g_rpeakec_go.Prelude.{
  ℕ, zero, suc, ◌+◌, ◌≡◌, refl, Bool, true, false, Option, none, some, List, [], ◌∷◌, ◌++◌, length,
  get_elem?, ltb, ◌==◌, if◌then◌else◌,
}
use g_rpeakec_go.Prelude.Text.{Text, codes, show, starts_with}
use g_rpeakec_go.Docs.Html.{
  Anchor, TypeInfo, Analysis, type_data, make_anchor, implements_html, methodset_html,
}
use g_rpeakec_go.Docs.Regex.{drop}
use g_rpeakec_go.Docs.Strings.{◌>>=◌}
pub mod Laws

-- An element that is filled, and shown with what is around it.
pub record Filled : Type 0 where
  pub id : Text
  pub html : Text

abbrev filled : Bool → Text → Option Text → List Filled
filled exists id none = []
filled exists id (some html) = if exists then record { id = id; html = html } ∷ [] else []

-- The fields of an entry of another kind are undefined, which counts as null.
abbrev implements_of : Analysis → Option Text
implements_of (type_data info) = elim info.impl_groups [
  | none ↦ none
  | some g ↦ some (implements_html info)
]
implements_of _ = none

abbrev methodset_of : Analysis → Option Text
methodset_of (type_data info) = elim info.methods [
  | none ↦ none
  | some ms ↦ some (methodset_html info)
]
methodset_of _ = none

-- `setupTypeInfo`; `exists` tells which elements the page has.
unfoldable pub setup_type_info : (Text → Bool) → ℕ → List Analysis → List Filled
unfolding implements_html methodset_html show
setup_type_info exists i [] = []
setup_type_info exists i (entry ∷ analysis) =
    let implements_id = codes "implements-" ++ show i in
    let methodset_id = codes "methodset-" ++ show i in
    filled (exists implements_id) implements_id (implements_of entry)
    ++ (filled (exists methodset_id) methodset_id (methodset_of entry)
        ++ setup_type_info exists (suc i) analysis)

-- A function of the call graph; its callees are places in the graph, or null.
pub record CgNode : Type 0 where
  pub func : Anchor
  pub callees : Option (List ℕ)

-- A list entry: the HTML of its function, and whether it has the class `last`. One with callees
-- waits for its first click, and has its branch after that.
mutual
  pub data Item : Type 0 where
    leaf : Text → Bool → Item
    waiting : Text → Bool → List ℕ → Item
    opened : Text → Bool → Items → Item

  pub data Items : Type 0 where
    nil : Items
    cons : Item → Items → Items

abbrev pub item_of : Text → Bool → Option (List ℕ) → Item
item_of html last none = leaf html last
item_of html last (some callees) = waiting html last callees

-- `cgAddChild`, with the class that `cgAddChildren` adds to the last entry.
unfoldable pub cg_add_child : Bool → CgNode → Item
unfolding make_anchor
cg_add_child last cgn = item_of (codes "&nbsp;" ++ make_anchor cgn.func) last cgn.callees

-- `cgAddChildren`; a place that the graph does not have throws, which is `none`.
unfoldable pub cg_add_children : List CgNode → List ℕ → Option Items
unfolding cg_add_child
cg_add_children graph [] = some nil
cg_add_children graph (i ∷ indices) = do
  cgn ← get_elem? graph i
  items ← cg_add_children graph indices
  some (cons (cg_add_child (length indices == 0) cgn) items)

-- A click on the hit area: the listener is removed once the branch is there.
unfoldable pub click_item : List CgNode → Item → Option Item
unfolding cg_add_children
click_item graph (leaf html last) = some (leaf html last)
click_item graph (waiting html last callees) = do
  items ← cg_add_children graph callees
  some (opened html last items)
click_item graph (opened html last items) = some (opened html last items)

-- The id of a tree view without `callgraph-`, if it begins so.
abbrev callgraph_id : Option Text → Option Text
callgraph_id none = none
callgraph_id (some id) = if starts_with (codes "callgraph-") id then some (drop 10 id) else none

-- `setupCallgraphs`: the trees that are filled, by the function that each begins with. `place` is
-- the function's key in the graph.
unfoldable pub setup_callgraphs :
    (Text → Option ℕ) → Option (List CgNode) → List (Option Text) → List (Option Items)
unfolding cg_add_children starts_with
setup_callgraphs place none treeviews = []
setup_callgraphs place (some graph) [] = []
setup_callgraphs place (some graph) (view ∷ treeviews) =
    let others = setup_callgraphs place (some graph) treeviews in
    elim (callgraph_id view) [
      | none ↦ others
      | some id ↦ (place id >>= λ i. cg_add_children graph (i ∷ [])) ∷ others
    ]

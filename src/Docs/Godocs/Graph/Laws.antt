-- ===== src/Docs/Godocs/Graph/Laws.antt =====
-- The branches of the tree of calls.
use g_rpeakec_go.Prelude.{
  ℕ, zero, suc, ◌<◌, ◌≡◌, refl, Bool, Option, none, some, List, [], ◌∷◌, ◌++◌, length, get_elem?,
  ◌==◌, All, arith,
}
use g_rpeakec_go.Prelude.Text.{Text, codes}
use g_rpeakec_go.Docs.Html.{make_anchor}
use g_rpeakec_go.Docs.Strings.{◌>>=◌}
use g_rpeakec_go.Docs.Godocs.Graph.{
  CgNode, Item, leaf, waiting, opened, item_of, Items, nil, cons, cg_add_child, cg_add_children,
  click_item,
}

abbrev pub count_items : Items → ℕ
count_items nil = 0
count_items (cons i is) = suc (count_items is)

abbrev pub is_last : Item → Bool
is_last (leaf html last) = last
is_last (waiting html last callees) = last
is_last (opened html last items) = last

-- Only the last of the entries has the class `last`.
abbrev pub OnlyLast : Items → Type 0
OnlyLast nil = Unit
OnlyLast (cons i is) = (is_last i ≡ (count_items is == 0)) × OnlyLast is

-- The branch of a list of places, if it is made.
abbrev pub Branch : List ℕ → Option Items → Type 0
Branch indices none = ⊥
Branch indices (some items) = (count_items items ≡ length indices) × OnlyLast items

get_elem-some :
    (graph : List CgNode) (i : ℕ)
    → i < length graph
    → (cgn : CgNode) × (get_elem? graph i ≡ some cgn)
get_elem-some [] i h = absurd (omega (arith, h))
get_elem-some (n ∷ graph) zero h = (n, refl)
get_elem-some (n ∷ graph) (suc i) h = get_elem-some graph i (omega (arith, h))

is_last-cg_add_child : (last : Bool) (cgn : CgNode) → is_last (cg_add_child last cgn) ≡ last
unfolding cg_add_child
is_last-cg_add_child last cgn = go (codes "&nbsp;" ++ make_anchor cgn.func) cgn.callees
  where
    go : (html : Text) (o : Option (List ℕ)) → is_last (item_of html last o) ≡ last
    go html none = refl
    go html (some callees) = refl

-- A branch has an entry for each callee, in their order, and only its last entry is marked as the
-- last, given that the graph has all the callees.
pub cg_add_children-Branch :
    (graph : List CgNode) (indices : List ℕ)
    → All (λ i. i < length graph) indices
    → Branch indices (cg_add_children graph indices)
unfolding cg_add_children
cg_add_children-Branch graph [] h = (refl, tt)
cg_add_children-Branch graph (i ∷ indices) (here, h) =
    let (cgn, e) = get_elem-some graph i here in
    rw e (more (cg_add_children graph indices) (cg_add_children-Branch graph indices h) cgn)
  where
    more :
        (o : Option Items)
        → Branch indices o
        → (cgn : CgNode)
        → Branch
            (i ∷ indices)
            (o >>= λ items. some (cons (cg_add_child (length indices == 0) cgn) items))
    more none b cgn = b
    more (some items) (n, ok) cgn =
        (omega (arith, n), (rw n (is_last-cg_add_child (length indices == 0) cgn), ok))

-- A second click on an entry of the tree changes nothing: the branch is made once.
pub click_item-click_item :
    (graph : List CgNode) (item : Item)
    → (click_item graph item >>= click_item graph) ≡ click_item graph item
unfolding click_item
click_item-click_item graph (leaf html last) = refl
click_item-click_item graph (waiting html last callees) = go (cg_add_children graph callees)
  where
    go :
        (o : Option Items)
        → (o >>= (λ items. some (opened html last items)) >>= click_item graph)
          ≡ (o >>= λ items. some (opened html last items))
    go none = refl
    go (some items) = refl
click_item-click_item graph (opened html last items) = refl

-- ===== src/Docs/Doctools/Highlight.antt =====
-- `jQuery.fn.highlightText` of docs/_static/doctools.js on a tree of nodes.
use g_rpeakec_go.Prelude.{
  ℕ, zero, suc, ◌+◌, ◌≡◌, refl, Bool, true, false, not, ◌&&◌, ◌||◌, Option, none, some, List, [],
  ◌∷◌, ◌++◌, length, if◌then◌else◌,
}
use g_rpeakec_go.Prelude.Text.{Text, codes, text_eq}
use g_rpeakec_go.Docs.Regex.{take, drop}
use g_rpeakec_go.Docs.Strings.{index_of, mem}
pub mod Content

-- An element has its tag, its classes, how many rectangles are to be put before it, and its
-- children.
mutual
  pub data Node : Type 0 where
    text : Text → Node
    element : Text → List Text → ℕ → Nodes → Node

  pub data Nodes : Type 0 where
    nil : Nodes
    cons : Node → Nodes → Nodes

abbrev pub count : Nodes → ℕ
count nil = 0
count (cons n ns) = suc (count ns)

-- What a loop over the children has made so far: the nodes, how many rounds are left, and how many
-- rectangles the parent gets.
pub record Visited : Type 0 where
  pub nodes : Nodes
  pub rounds : ℕ
  pub rects : ℕ

abbrev pub done : ℕ → Nodes → Visited
done k ns = record { nodes = ns; rounds = k; rects = 0 }

abbrev pub add_node : Node → Visited → Visited
add_node n r = record { nodes = cons n r.nodes; rounds = r.rounds; rects = r.rects }

abbrev pub add_rect : Bool → Visited → Visited
add_rect svg r = record {
  nodes = r.nodes;
  rounds = r.rounds;
  rects = (if svg then 1 else 0) + r.rects;
}

-- Whether the nearest of `body`, `svg` and `foreignObject` around the children is an `svg`.
abbrev pub within_svg : Bool → Text → Bool
within_svg svg tag =
    if text_eq tag (codes "svg")
    then true
    else if mem tag (codes "body" ∷ codes "foreignObject" ∷ [])
    then false
    else svg

abbrev pub is_form : Text → Bool
is_form tag = mem tag (codes "button" ∷ codes "select" ∷ codes "textarea" ∷ [])

module _ (to_lower : Text → Text) (sought class_name : Text) where
  -- Where the text stands, if the parent has neither the class nor `nohighlight`.
  abbrev pub hit : List Text → Text → Option ℕ
  hit classes v =
      if mem class_name classes || mem (codes "nohighlight") classes
      then none
      else index_of sought (to_lower v)

  abbrev pub matched_text : Text → ℕ → Text
  matched_text v pos = take (length sought) (drop pos v)

  abbrev pub text_after : Text → ℕ → Text
  text_after v pos = drop (pos + length sought) v

  -- The new element around a match.
  abbrev pub mark : Bool → Text → Node
  mark svg m =
      if svg
      then element (codes "tspan") [] 0 (cons (text m) nil)
      else element (codes "span") (class_name ∷ []) 0 (cons (text m) nil)

  abbrev pub split_at : Text → Option ℕ → Nodes
  split_at m none = cons (text m) nil
  split_at m (some pos) =
      cons (text (take pos m))
        (cons (mark true (matched_text m pos)) (cons (text (text_after m pos)) nil))

  abbrev rect_count : Option ℕ → ℕ
  rect_count none = 0
  rect_count (some pos) = 1

  -- The loop comes to the new element: a `span` has the class and stays, a `tspan` has not, and its
  -- one text is split once more.
  abbrev pub visit_mark : Bool → Text → Node
  visit_mark false m = mark false m
  visit_mark true m = element (codes "tspan") [] (rect_count (hit [] m)) (split_at m (hit [] m))

  abbrev pub after_hit :
      Bool → (Text → Node) → Text → Option ℕ → (Text → Visited) → Visited → Visited
  after_hit svg new v none again missed = missed
  after_hit svg new v (some pos) again missed = add_rect svg (
      add_node (text (take pos v)) (add_node (new (matched_text v pos)) (again (text_after v pos))))

  -- A round for a text: the new nodes behind it take the next two rounds. `jQuery.each` takes the
  -- number of rounds from the list as it was before.
  unfoldable pub visit_text : ℕ → Bool → List Text → Text → Visited
  unfolding text_eq index_of
  visit_text zero svg classes v = done 0 (cons (text v) nil)
  visit_text (suc zero) svg classes v =
      after_hit svg (mark svg) v (hit classes v) (λ after. done 0 (cons (text after) nil))
        (done 0 (cons (text v) nil))
  visit_text (suc (suc k)) svg classes v =
      let again = visit_text k svg classes in
      after_hit svg (visit_mark svg) v (hit classes v) again (done (suc k) (cons (text v) nil))

  abbrev pub append : Nodes → Nodes → Nodes
  append nil ms = ms
  append (cons n ns) ms = cons n (append ns ms)

  abbrev pub then_rest : Visited → (ℕ → Visited) → Visited
  then_rest r rest = record {
    nodes = append r.nodes (rest r.rounds).nodes;
    rounds = (rest r.rounds).rounds;
    rects = r.rects + (rest r.rounds).rects;
  }

  unfoldable mutual
    unfolding visit_text text_eq

    -- `highlight` on an element, whose children are visited unless it is a form element.
    pub highlight_node : Bool → Node → Node
    highlight_node svg (text v) = text v
    highlight_node svg (element tag classes r cs) =
        let visited = highlight_nodes (within_svg svg tag) classes cs (count cs) in
        if is_form tag
        then element tag classes r cs
        else element tag classes (r + visited.rects) visited.nodes

    pub highlight_nodes : Bool → List Text → Nodes → ℕ → Visited
    highlight_nodes svg classes nil k = done k nil
    highlight_nodes svg classes (cons n ns) zero = done 0 (cons n ns)
    highlight_nodes svg classes (cons (text v) ns) (suc k) =
        then_rest (visit_text (suc k) svg classes v) (highlight_nodes svg classes ns)
    highlight_nodes svg classes (cons (element tag cl r cs) ns) (suc k) =
        add_node (highlight_node svg (element tag cl r cs)) (highlight_nodes svg classes ns k)

  abbrev pub rects_before : ℕ → Nodes → Nodes
  rects_before zero ns = ns
  rects_before (suc n) ns =
      cons (element (codes "rect") (class_name ∷ []) 0 nil) (rects_before n ns)

  -- The rectangles are put before their elements once all is visited.
  unfoldable mutual
    pub place_node : Node → Node
    place_node (text v) = text v
    place_node (element tag classes r cs) = element tag classes 0 (place_nodes cs)

    pub place_nodes : Nodes → Nodes
    place_nodes nil = nil
    place_nodes (cons (text v) ns) = cons (text v) (place_nodes ns)
    place_nodes (cons (element tag classes r cs) ns) =
        rects_before r (cons (element tag classes 0 (place_nodes cs)) (place_nodes ns))

  -- On one element of the selection; the rectangles of the element itself go outside of it.
  unfoldable pub highlight_text : Bool → Node → Node
  unfolding highlight_node place_node
  highlight_text svg node = place_node (highlight_node svg node)

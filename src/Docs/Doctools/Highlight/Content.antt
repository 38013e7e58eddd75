-- ===== src/Docs/Doctools/Highlight/Content.antt =====
-- The text of a page under highlighting.
use g_rpeakec_go.Prelude.{
  ℕ, zero, suc, ◌+◌, ◌≡◌, refl, ap, sym, ◌∙◌, Bool, true, false, Option, none, some, inl, inr, List,
  [], ◌∷◌, ◌++◌, length, Bool-cases, append_assoc, append-nil, arith,
}
use g_rpeakec_go.Prelude.Text.{Text}
use g_rpeakec_go.Docs.Regex.{take, drop}
use g_rpeakec_go.Docs.Doctools.Highlight.{
  Node, text, element, Nodes, nil, cons, count, Visited, done, within_svg, is_form, hit, mark,
  visit_mark, split_at, after_hit, visit_text, append, highlight_node, highlight_nodes,
  rects_before, place_node, place_nodes, highlight_text,
}

-- What is read.
unfoldable mutual
  pub content : Node → Text
  content (text v) = v
  content (element tag classes r cs) = contents cs

  pub contents : Nodes → Text
  contents nil = []
  contents (cons n ns) = content n ++ contents ns

take-drop : (n : ℕ) (s : Text) → take n s ++ drop n s ≡ s
take-drop zero s = refl
take-drop (suc n) [] = refl
take-drop (suc n) (c ∷ s) = ap (λ v. c ∷ v) (take-drop n s)

drop_add : (n k : ℕ) (s : Text) → drop (n + k) s ≡ drop k (drop n s)
drop_add zero k s = let e : 0 + k ≡ k = omega arith in ap (λ n. drop n s) e
drop_add (suc n) zero [] = let e : suc n + 0 ≡ suc n = omega arith in ap (λ n. drop n []) e
drop_add (suc n) (suc k) [] =
    let e : suc n + suc k ≡ suc (n + suc k) = omega arith in ap (λ n. drop n []) e
drop_add (suc n) k (c ∷ s) =
    let e : suc n + k ≡ suc (n + k) = omega arith in ap (λ n. drop n (c ∷ s)) e ∙ drop_add n k s

-- The three parts of a text with a match are the text.
three_parts : (pos n : ℕ) (v : Text) → take pos v ++ (take n (drop pos v) ++ drop (pos + n) v) ≡ v
three_parts pos n v = rw (drop_add pos n v) (rw (take-drop n (drop pos v)) (take-drop pos v))

contents-append :
    (to_lower : Text → Text) (sought class_name : Text) (ns ms : Nodes)
    → contents (append to_lower sought class_name ns ms) ≡ contents ns ++ contents ms
unfolding content
contents-append to_lower sought class_name nil ms = refl
contents-append to_lower sought class_name (cons n ns) ms =
    ap (λ s. content n ++ s) (contents-append to_lower sought class_name ns ms)
    ∙ sym (append_assoc (content n) (contents ns) (contents ms))

module _ (to_lower : Text → Text) (sought class_name : Text) where
  contents-split_at :
      (m : Text) (o : Option ℕ) → contents (split_at to_lower sought class_name m o) ≡ m
  unfolding content
  contents-split_at m none = append-nil m
  contents-split_at m (some pos) = simp (append-nil) (three_parts pos (length sought) m)

  content-mark : (svg : Bool) (m : Text) → content (mark to_lower sought class_name svg m) ≡ m
  unfolding content
  content-mark true m = append-nil m
  content-mark false m = append-nil m

  content-visit_mark :
      (svg : Bool) (m : Text) → content (visit_mark to_lower sought class_name svg m) ≡ m
  unfolding content
  content-visit_mark false m = append-nil m
  content-visit_mark true m = contents-split_at m (hit to_lower sought class_name [] m)

  contents-after_hit :
      (svg : Bool) (new : Text → Node) (v : Text) (o : Option ℕ) (again : Text → Visited)
      (missed : Visited)
      → ((m : Text) → content (new m) ≡ m)
      → ((m : Text) → contents (again m).nodes ≡ m)
      → contents missed.nodes ≡ v
      → contents (after_hit to_lower sought class_name svg new v o again missed).nodes ≡ v
  unfolding content
  contents-after_hit svg new v none again missed on_new on_again on_missed = on_missed
  contents-after_hit svg new v (some pos) again missed on_new on_again on_missed =
      rw (on_new (take (length sought) (drop pos v)))
        (rw (on_again (drop (pos + length sought) v)) (three_parts pos (length sought) v))

  contents-visit_text :
      (k : ℕ) (svg : Bool) (classes : List Text) (v : Text)
      → contents (visit_text to_lower sought class_name k svg classes v).nodes ≡ v
  unfolding visit_text content
  contents-visit_text zero svg classes v = append-nil v
  contents-visit_text (suc zero) svg classes v =
      contents-after_hit svg (mark to_lower sought class_name svg) v
        (hit to_lower sought class_name classes v) (λ after. done 0 (cons (text after) nil))
        (done 0 (cons (text v) nil)) (content-mark svg) append-nil (append-nil v)
  contents-visit_text (suc (suc k)) svg classes v =
      contents-after_hit svg (visit_mark to_lower sought class_name svg) v
        (hit to_lower sought class_name classes v)
        (visit_text to_lower sought class_name k svg classes) (done (suc k) (cons (text v) nil))
        (content-visit_mark svg) (contents-visit_text k svg classes) (append-nil v)

  mutual
    unfolding highlight_node content

    content-highlight_node :
        (svg : Bool) (n : Node)
        → content (highlight_node to_lower sought class_name svg n) ≡ content n
    content-highlight_node svg (text v) = refl
    content-highlight_node svg (element tag classes r cs) = elim (Bool-cases (is_form tag)) [
      | inl e ↦ rw e refl
      | inr e ↦ rw e (contents-highlight_nodes (within_svg svg tag) classes cs (count cs))
    ]

    contents-highlight_nodes :
        (svg : Bool) (classes : List Text) (ns : Nodes) (k : ℕ)
        → contents (highlight_nodes to_lower sought class_name svg classes ns k).nodes ≡ contents ns
    contents-highlight_nodes svg classes nil k = refl
    contents-highlight_nodes svg classes (cons n ns) zero = refl
    contents-highlight_nodes svg classes (cons (text v) ns) (suc k) =
        let r = visit_text to_lower sought class_name (suc k) svg classes v in
        contents-append to_lower sought class_name r.nodes _
        ∙ cc (
          contents-visit_text (suc k) svg classes v,
          contents-highlight_nodes svg classes ns r.rounds,
        )
    contents-highlight_nodes svg classes (cons (element tag cl r cs) ns) (suc k) = cc (
      content-highlight_node svg (element tag cl r cs),
      contents-highlight_nodes svg classes ns k,
    )

  contents-rects_before :
      (n : ℕ) (ns : Nodes) → contents (rects_before to_lower sought class_name n ns) ≡ contents ns
  unfolding content
  contents-rects_before zero ns = refl
  contents-rects_before (suc n) ns = contents-rects_before n ns

  mutual
    unfolding place_node content

    content-place_node : (n : Node) → content (place_node to_lower sought class_name n) ≡ content n
    content-place_node (text v) = refl
    content-place_node (element tag classes r cs) = contents-place_nodes cs

    contents-place_nodes :
        (ns : Nodes) → contents (place_nodes to_lower sought class_name ns) ≡ contents ns
    contents-place_nodes nil = refl
    contents-place_nodes (cons (text v) ns) = ap (λ s. v ++ s) (contents-place_nodes ns)
    contents-place_nodes (cons (element tag classes r cs) ns) =
        contents-rects_before r _ ∙ cc (contents-place_nodes cs, contents-place_nodes ns)

  -- Highlighting changes no text: whatever is sought, the texts of the nodes read in order, matches
  -- and all, are those of the page before, in an SVG as outside of one.
  pub content-highlight_text :
      (svg : Bool) (node : Node)
      → content (highlight_text to_lower sought class_name svg node) ≡ content node
  unfolding highlight_text
  content-highlight_text svg node =
      content-place_node (highlight_node to_lower sought class_name svg node)
      ∙ content-highlight_node svg node

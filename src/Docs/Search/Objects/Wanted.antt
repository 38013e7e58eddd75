-- ===== src/Docs/Search/Objects/Wanted.antt =====
-- Which objects the search for objects finds, and what it says of them.
use g_rpeakec_go.Prelude.{
  ◌≡◌, ◌↔◌, refl, ◌∙◌, ◌⊎◌, inl, inr, Bool-cases, true, List, [], ◌∷◌, ◌++◌, All, get_elem?,
}
use g_rpeakec_go.Prelude.Int.{pos, ◌+ℤ◌}
use g_rpeakec_go.Prelude.Text.{Text, codes, text_eq, text_eq_iff}
use g_rpeakec_go.Docs.Strings.{index_of, found, split, last_part, text_at}
use g_rpeakec_go.Docs.Strings.Contains.{Contains, found_iff}
use g_rpeakec_go.Docs.Search.{Found, Object, Index, obj_prio}
use g_rpeakec_go.Docs.Search.Objects.{
  full_name, all_found, haystack, name_score, object_result, object_matches, perform_object_search,
}
use g_rpeakec_go.Docs.Search.Objects.Sound.{names_found, objects_found, perform_object_search_found}

-- The name of an object: its own behind that of its module, if there is one.
abbrev pub IsFullName : Text → Text → Text → Type 0
IsFullName [] name full = full ≡ name
IsFullName (c ∷ prefix) name full = full ≡ (c ∷ prefix) ++ codes "." ++ name

module _ (to_lower : Text → Text) (translate : Text → Text) (index : Index) where
  -- An object is sought: its name in small letters holds the word, and the text of its module, its
  -- name, its type and the title of its page holds every other word.
  abbrev pub IsSought : Text → List Text → Text → Text → Object → Type 0
  IsSought object others prefix name o =
      ((full : Text) × IsFullName prefix name full × Contains object (to_lower full))
      × All
          (λ t. Contains t (
            to_lower (
              prefix
              ++ codes " "
              ++ name
              ++ codes " "
              ++ (index.objnames o.kind).label
              ++ codes " "
              ++ text_at (get_elem? index.titles o.document))))
          others

  -- Its place in the order: 11 where the name or its last part is the word, 6 where the last part
  -- holds it, with what the priority of the object adds.
  abbrev pub IsScoreOf : Text → Text → Object → Found → Type 0
  IsScoreOf object lower o r =
      (((lower ≡ object) ⊎ (last_part (split b'.' lower) ≡ object))
        × (r.score ≡ pos 11 +ℤ obj_prio o.prio))
      ⊎ ((¬ (lower ≡ object))
          × (¬ (last_part (split b'.' lower) ≡ object))
          × Contains object (last_part (split b'.' lower))
          × (r.score ≡ pos 6 +ℤ obj_prio o.prio))
      ⊎ ((¬ (lower ≡ object))
          × (¬ Contains object (last_part (split b'.' lower)))
          × (r.score ≡ pos 0 +ℤ obj_prio o.prio))

  -- A result names the object, its page and its file.
  abbrev pub IsResultOf : Text → Text → Text → Object → Found → Type 0
  IsResultOf object prefix name o r =
      IsFullName prefix name r.title
      × (r.docname ≡ text_at (get_elem? index.docnames o.document))
      × (r.filename ≡ text_at (get_elem? index.filenames o.document))
      × IsScoreOf object (to_lower r.title) o r

  -- The results are those of the objects that are sought, in their order and each once.
  pub data FoundIn (object : Text) (others : List Text) (prefix : Text)
      : List (Text × Object) → List Found → Type 0 where
    no_names : FoundIn object others prefix [] []
    sought :
        {name : Text} {o : Object} {names : List (Text × Object)} {r : Found} {rs : List Found}
        → IsSought object others prefix name o
        → IsResultOf object prefix name o r
        → FoundIn object others prefix names rs
        → FoundIn object others prefix ((name, o) ∷ names) (r ∷ rs)
    not_sought :
        {name : Text} {o : Object} {names : List (Text × Object)} {rs : List Found}
        → ¬ IsSought object others prefix name o
        → FoundIn object others prefix names rs
        → FoundIn object others prefix ((name, o) ∷ names) rs

  pub data FoundAll (object : Text) (others : List Text)
      : List (Text × List (Text × Object)) → List Found → Type 0 where
    no_prefixes : FoundAll object others [] []
    of_prefix :
        {prefix : Text} {names : List (Text × Object)}
        {objects : List (Text × List (Text × Object))} {rs qs : List Found}
        → FoundIn object others prefix names rs
        → FoundAll object others objects qs
        → FoundAll object others ((prefix, names) ∷ objects) (rs ++ qs)

  full_name-IsFullName : (prefix name : Text) → IsFullName prefix name (full_name prefix name)
  full_name-IsFullName [] name = refl
  full_name-IsFullName (c ∷ prefix) name = refl

  full_name_unique :
      (prefix name full : Text) → IsFullName prefix name full → full ≡ full_name prefix name
  full_name_unique [] name full e = e
  full_name_unique (c ∷ prefix) name full e = e

  all_found_iff :
      (others : List Text) (hay : Text)
      → (all_found others hay ≡ true) ↔ All (λ t. Contains t hay) others
  all_found_iff [] hay = (λ e. tt, λ e. refl)
  all_found_iff (t ∷ others) hay =
      let here = found_iff t hay in
      let rest = all_found_iff others hay in
      elim (Bool-cases (found (index_of t hay))) [
        | inl e ↦ rw e (λ q. (here.0 e, rest.0 q), λ (_, q). rest.1 q)
        | inr e ↦ rw e (λ q. cc q, λ (c, _). cc (here.1 c, e))
      ]

  object_matches_iff :
      (object : Text) (others : List Text) (prefix name : Text) (o : Object)
      → (object_matches to_lower translate index object others prefix name o ≡ true)
        ↔ IsSought object others prefix name o
  object_matches_iff object others prefix name o =
      let lower = to_lower (full_name prefix name) in
      let hay =
        haystack to_lower translate index prefix name (index.objnames o.kind).label
          (text_at (get_elem? index.titles o.document)) in
      let here = found_iff object lower in
      let rest = all_found_iff others hay in
      elim (Bool-cases (found (index_of object lower))) [
        | inl e ↦ rw e (
          λ q. ((full_name prefix name, full_name-IsFullName prefix name, here.0 e), rest.0 q),
          λ (_, q). rest.1 q,
        )
        | inr e ↦ rw e (
          λ q. cc q,
          λ ((full, is_full, c), _).
              cc (here.1 (rw (full_name_unique prefix name full is_full) at c), e),
        )
      ]

  name_score-IsScoreOf :
      (object lower : Text) (o : Object) (r : Found)
      → r.score ≡ name_score object lower +ℤ obj_prio o.prio
      → IsScoreOf object lower o r
  unfolding name_score
  name_score-IsScoreOf object lower o r e =
      let part = last_part (split b'.' lower) in
      let whole_iff = text_eq_iff lower object in
      let part_iff = text_eq_iff part object in
      let inside_iff = found_iff object part in
      elim (Bool-cases (text_eq lower object)) [
        | inl whole ↦ inl (inl (whole_iff.0 whole), e ∙ rw whole refl)
        | inr not_whole ↦
            let no_whole : ¬ (lower ≡ object) = λ q. cc (whole_iff.1 q, not_whole) in
            elim (Bool-cases (text_eq part object)) [
              | inl last ↦ inl (inr (part_iff.0 last), e ∙ rw (not_whole, last) refl)
              | inr not_last ↦
                  let no_last : ¬ (part ≡ object) = λ q. cc (part_iff.1 q, not_last) in
                  elim (Bool-cases (found (index_of object part))) [
                    | inl inside ↦ inr (
                        inl (
                          no_whole,
                          no_last,
                          inside_iff.0 inside,
                          e ∙ rw (not_whole, not_last, inside) refl,
                        ))
                    | inr outside ↦ inr (
                        inr (
                          no_whole,
                          λ q. cc (inside_iff.1 q, outside),
                          e ∙ rw (not_whole, not_last, outside) refl,
                        ))
                  ]
            ]
      ]

  object_result-IsResultOf :
      (object prefix name : Text) (o : Object)
      → IsResultOf object prefix name o
          (object_result to_lower translate index object prefix name o)
  object_result-IsResultOf object prefix name o = (
    full_name-IsFullName prefix name,
    refl,
    refl,
    name_score-IsScoreOf object (to_lower (full_name prefix name)) o
        (object_result to_lower translate index object prefix name o) refl,
  )

  names_found-FoundIn :
      (object : Text) (others : List Text) (prefix : Text) (names : List (Text × Object))
      → FoundIn object others prefix names
          (names_found to_lower translate index object others prefix names)
  names_found-FoundIn object others prefix [] = no_names
  names_found-FoundIn object others prefix ((name, o) ∷ names) =
      let rest = names_found-FoundIn object others prefix names in
      let matches = object_matches_iff object others prefix name o in
      elim (Bool-cases (object_matches to_lower translate index object others prefix name o)) [
        | inl e ↦ rw e (sought (matches.0 e) (object_result-IsResultOf object prefix name o) rest)
        | inr e ↦ rw e (not_sought (λ is_sought. cc (matches.1 is_sought, e)) rest)
      ]

  objects_found-FoundAll :
      (object : Text) (others : List Text) (objects : List (Text × List (Text × Object)))
      → FoundAll object others objects
          (objects_found to_lower translate index object others objects)
  objects_found-FoundAll object others [] = no_prefixes
  objects_found-FoundAll object others ((prefix, names) ∷ objects) =
      of_prefix (names_found-FoundIn object others prefix names)
        (objects_found-FoundAll object others objects)

  -- The search for a word returns, in the order of the index and each once, the results of the
  -- objects that are sought: those whose name, behind that of its module, holds in small letters
  -- the word, and whose module, name, type and title hold every other word. A result has the
  -- object's name, page and file, and 11, 6 or 0 points for the name with those of its priority.
  pub perform_object_search_lem :
      (object : Text) (others : List Text)
      → FoundAll object others index.objects
          (perform_object_search to_lower translate index object others)
  perform_object_search_lem object others =
      rw (perform_object_search_found to_lower translate index object others)
        (objects_found-FoundAll object others index.objects)

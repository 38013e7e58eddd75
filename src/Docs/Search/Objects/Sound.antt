-- ===== src/Docs/Search/Objects/Sound.antt =====
-- The search for objects without its list of results, and the scores.
use g_rpeakec_go.Prelude.{
  ℕ, ◌≤◌, ◌≡◌, ap, sym, ◌∙◌, ◌⊎◌, inl, inr, List, [], ◌∷◌, ◌++◌, All, All-append, Bool-cases,
  if◌then◌else◌, append_assoc, append-nil, arith,
}
use g_rpeakec_go.Prelude.Int.{pos, negsuc, ◌+ℤ◌, ◌≤ℤ◌}
use g_rpeakec_go.Prelude.Text.{Text}
use g_rpeakec_go.Docs.Search.{Found, Object, Index, obj_prio}
use g_rpeakec_go.Docs.Search.Objects.{
  full_name, name_score, object_result, object_matches, search_names, search_prefixes,
  perform_object_search,
}

module _ (to_lower : Text → Text) (translate : Text → Text) (index : Index) where
  -- The objects that match, in the order of the index.
  abbrev pub names_found : Text → List Text → Text → List (Text × Object) → List Found
  names_found object others prefix [] = []
  names_found object others prefix ((name, o) ∷ names) =
      (if object_matches to_lower translate index object others prefix name o
        then object_result to_lower translate index object prefix name o ∷ []
        else [])
      ++ names_found object others prefix names

  abbrev pub objects_found : Text → List Text → List (Text × List (Text × Object)) → List Found
  objects_found object others [] = []
  objects_found object others ((prefix, names) ∷ objects) =
      names_found object others prefix names ++ objects_found object others objects

  search_names-append :
      (object : Text) (others : List Text) (prefix : Text) (names : List (Text × Object))
      (results : List Found)
      → search_names to_lower translate index object others prefix names results
        ≡ results ++ names_found object others prefix names
  unfolding search_names
  search_names-append object others prefix [] results = sym (append-nil results)
  search_names-append object others prefix ((name, o) ∷ names) results =
      elim (Bool-cases (object_matches to_lower translate index object others prefix name o)) [
        | inl e ↦ rw e (search_names-append object others prefix names _ ∙ append_assoc results _ _)
        | inr e ↦ rw e (search_names-append object others prefix names results)
      ]

  search_prefixes-append :
      (object : Text) (others : List Text) (objects : List (Text × List (Text × Object)))
      (results : List Found)
      → search_prefixes to_lower translate index object others objects results
        ≡ results ++ objects_found object others objects
  unfolding search_prefixes
  search_prefixes-append object others [] results = sym (append-nil results)
  search_prefixes-append object others ((prefix, names) ∷ objects) results =
      let first = names_found object others prefix names in
      search_prefixes-append object others objects _
      ∙ (ap (λ rs. rs ++ objects_found object others objects)
            (search_names-append object others prefix names results)
          ∙ append_assoc results first (objects_found object others objects))

  pub perform_object_search_found :
      (object : Text) (others : List Text)
      → perform_object_search to_lower translate index object others
        ≡ objects_found object others index.objects
  unfolding perform_object_search
  perform_object_search_found object others = search_prefixes-append object others index.objects []

  -- Between the two ends of the scale: a partial match of low priority at least, an exact match of
  -- high priority at most.
  abbrev pub IsScored : Found → Type 0
  IsScored r = (negsuc 4 ≤ℤ r.score) × (r.score ≤ℤ pos 26)

  name_score-cases :
      (object lower : Text)
      → (name_score object lower ≡ pos 11)
        ⊎ (name_score object lower ≡ pos 6)
        ⊎ (name_score object lower ≡ pos 0)
  unfolding name_score
  name_score-cases object lower = ground arith

  prio-IsScored :
      (n : ℕ) (p : ℕ) → n ≤ 11 → (negsuc 4 ≤ℤ pos n +ℤ obj_prio p) × (pos n +ℤ obj_prio p ≤ℤ pos 26)
  unfolding ◌+ℤ◌
  prio-IsScored n p h = ground arith

  object_result-IsScored :
      (object prefix name : Text) (o : Object)
      → IsScored (object_result to_lower translate index object prefix name o)
  object_result-IsScored object prefix name o =
      elim (name_score-cases object (to_lower (full_name prefix name))) [
        | inl e ↦ rw e (prio-IsScored 11 o.prio (omega arith))
        | inr (inl e) ↦ rw e (prio-IsScored 6 o.prio (omega arith))
        | inr (inr e) ↦ rw e (prio-IsScored 0 o.prio (omega arith))
      ]

  names_found-IsScored :
      (object : Text) (others : List Text) (prefix : Text) (names : List (Text × Object))
      → All IsScored (names_found object others prefix names)
  names_found-IsScored object others prefix [] = tt
  names_found-IsScored object others prefix ((name, o) ∷ names) =
      let rest = names_found-IsScored object others prefix names in
      elim (Bool-cases (object_matches to_lower translate index object others prefix name o)) [
        | inl e ↦ rw e (object_result-IsScored object prefix name o, rest)
        | inr e ↦ rw e rest
      ]

  objects_found-IsScored :
      (object : Text) (others : List Text) (objects : List (Text × List (Text × Object)))
      → All IsScored (objects_found object others objects)
  objects_found-IsScored object others [] = tt
  objects_found-IsScored object others ((prefix, names) ∷ objects) =
      All-append IsScored _ _ (names_found-IsScored object others prefix names)
        (objects_found-IsScored object others objects)

  -- Every object that is found has a score from -5 to 26.
  pub perform_object_search-IsScored :
      (object : Text) (others : List Text)
      → All IsScored (perform_object_search to_lower translate index object others)
  perform_object_search-IsScored object others =
      rw (perform_object_search_found object others)
        (objects_found-IsScored object others index.objects)

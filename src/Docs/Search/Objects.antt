-- ===== src/Docs/Search/Objects.antt =====
-- `performObjectSearch`: the objects whose full name holds a word.
use g_rpeakec_go.Prelude.{
  ℕ, ◌≡◌, refl, Bool, true, false, not, ◌&&◌, ◌||◌, Option, none, some, List, [], ◌∷◌, ◌++◌, all,
  get_elem?, if◌then◌else◌,
}
use g_rpeakec_go.Prelude.Int.{ℤ, pos, ◌+ℤ◌}
use g_rpeakec_go.Prelude.Text.{Text, codes, text_eq}
use g_rpeakec_go.Docs.Strings.{index_of, found, split, last_part, text_at}
use g_rpeakec_go.Docs.Search.{
  obj_name_match, obj_partial_match, obj_prio, Found, Object, ObjectKind, Index,
}
pub mod Sound
pub mod Wanted

abbrev pub full_name : Text → Text → Text
full_name [] name = name
full_name (c ∷ prefix) name = (c ∷ prefix) ++ codes "." ++ name

-- The score of the name alone.
unfoldable pub name_score : Text → Text → ℤ
unfolding text_eq split index_of
name_score object lower =
    let part = last_part (split b'.' lower) in
    if text_eq lower object || text_eq part object
    then obj_name_match
    else if found (index_of object part)
    then obj_partial_match
    else pos 0

-- The other words must stand in the name, the title or the description.
abbrev pub all_found : List Text → Text → Bool
all_found others hay = all (λ t. found (index_of t hay)) others

abbrev anchor_of : Text → Text → Text → Text
anchor_of anchor fullname key =
    if text_eq anchor []
    then fullname
    else if text_eq anchor (codes "-")
    then key ++ codes "-" ++ fullname
    else anchor

-- `toLowerCase` is the engine's, and `_` the translation of a message.
module _ (to_lower : Text → Text) (translate : Text → Text) (index : Index) where
  abbrev pub haystack : Text → Text → Text → Text → Text
  haystack prefix name objname title =
      to_lower (prefix ++ codes " " ++ name ++ codes " " ++ objname ++ codes " " ++ title)

  abbrev pub object_result : Text → Text → Text → Object → Found
  object_result object prefix name o =
      let fullname = full_name prefix name in
      let objname = (index.objnames o.kind).label in
      let title = text_at (get_elem? index.titles o.document) in
      record {
        docname = text_at (get_elem? index.docnames o.document);
        title = fullname;
        anchor = codes "#" ++ anchor_of o.anchor fullname (index.objnames o.kind).key;
        descr = some (objname ++ translate (codes ", in ") ++ title);
        score = name_score object (to_lower fullname) +ℤ obj_prio o.prio;
        filename = text_at (get_elem? index.filenames o.document);
      }

  -- Whether an object is found.
  abbrev pub object_matches : Text → List Text → Text → Text → Object → Bool
  object_matches object others prefix name o =
      let objname = (index.objnames o.kind).label in
      let title = text_at (get_elem? index.titles o.document) in
      found (index_of object (to_lower (full_name prefix name)))
      && all_found others (haystack prefix name objname title)

  unfoldable pub search_names :
      Text → List Text → Text → List (Text × Object) → List Found → List Found
  unfolding index_of name_score text_eq
  search_names object others prefix [] results = results
  search_names object others prefix ((name, o) ∷ names) results =
      let with_it =
        search_names object others prefix names
          (results ++ object_result object prefix name o ∷ []) in
      let without = search_names object others prefix names results in
      if object_matches object others prefix name o then with_it else without

  unfoldable pub search_prefixes :
      Text → List Text → List (Text × List (Text × Object)) → List Found → List Found
  unfolding search_names
  search_prefixes object others [] results = results
  search_prefixes object others ((prefix, names) ∷ objects) results =
      search_prefixes object others objects (search_names object others prefix names results)

  unfoldable pub perform_object_search : Text → List Text → List Found
  unfolding search_prefixes
  perform_object_search object others = search_prefixes object others index.objects []

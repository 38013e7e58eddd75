-- ===== src/Docs/Search.antt =====
-- The full-text search of docs/_static/searchtools.js: the scores and the index. The children are
-- the searches, the words of a query and the order and addresses of what is shown.
use g_rpeakec_go.Prelude.{
  ℕ, ◌≡◌, refl, Bool, true, false, Option, none, some, List, [], ◌∷◌, ◌++◌, any, ◌==◌,
  if◌then◌else◌,
}
use g_rpeakec_go.Prelude.Int.{ℤ, pos, negsuc}
use g_rpeakec_go.Prelude.Text.{Text, codes}
pub mod Objects
pub mod Terms
pub mod Query
pub mod Display
pub mod Pulse
pub mod Whole
mod Tests

-- What underscore's `contains` and `indexOf` compare: a number, or a string.
pub data Key : Type 0 where
  number : ℕ → Key
  string : Text → Key

-- `$u.contains`, `$u.indexOf` and `$u.max`, of underscore; -1 is `none`.
pub record Underscore : Type 0 where
  contains : List Key → Key → Bool
  index_of : List Key → Key → Option ℕ
  max_of : List ℕ → ℕ

-- `Scorer`
abbrev pub obj_name_match : ℤ
obj_name_match = pos 11

abbrev pub obj_partial_match : ℤ
obj_partial_match = pos 6

abbrev pub term_score : ℕ
term_score = 5

abbrev pub partial_term_score : ℕ
partial_term_score = 2

abbrev pub title_score : ℕ
title_score = 15

abbrev pub partial_title_score : ℕ
partial_title_score = 7

-- `objPrio`, and `objPrioDefault` for a priority that is not in the mapping.
abbrev pub obj_prio : ℕ → ℤ
obj_prio p = if p == 0 then pos 15 else if p == 1 then pos 5 else if p == 2 then negsuc 4 else pos 0

-- `[filename, title, anchor, descr, score]` and the file name; `descr` may be null.
pub record Found : Type 0 where
  docname : Text
  title : Text
  anchor : Text
  descr : Option Text
  score : ℤ
  filename : Text

-- A word of the index has one file or a list of files.
pub data Files : Type 0 where
  one_file : ℕ → Files
  files : List ℕ → Files

-- An object: its document, its type, its priority and its anchor.
pub record Object : Type 0 where
  document : ℕ
  kind : ℕ
  prio : ℕ
  anchor : Text

-- `objnames`: the domain's key of a type of objects, and its label.
pub record ObjectKind : Type 0 where
  key : Text
  label : Text

pub record Index : Type 0 where
  docnames : List Text
  filenames : List Text
  titles : List Text
  terms : List (Text × Files)
  titleterms : List (Text × Files)
  objects : List (Text × List (Text × Object))
  -- an object of the script, with a key for every type that the objects have
  objnames : ℕ → ObjectKind

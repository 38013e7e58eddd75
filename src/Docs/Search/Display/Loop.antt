-- ===== src/Docs/Search/Display/Loop.antt =====
-- `displayNextItem` of searchtools.js, which is called again by a timer or behind a request until no
-- result is left.
use g_rpeakec_go.Prelude.{
  ℕ, zero, suc, Bool, true, false, Option, none, some, List, [], ◌∷◌, ◌++◌, if◌then◌else◌,
}
use g_rpeakec_go.Prelude.Text.{Text, codes}
use g_rpeakec_go.Docs.Options.{Options}
use g_rpeakec_go.Docs.Doctools.Highlight.{Node}
use g_rpeakec_go.Docs.Search.{Found}
use g_rpeakec_go.Docs.Search.Display.{
  Item, Browser, page_urls, highlight_string, summary_of, described, descr_text, display_item,
  status_text,
}

-- What is due next: a call of displayNextItem, the first one or a timer's; the end of a request for
-- the page of a result; or nothing more.
pub data Waiting : Type 0 where
  due : Waiting
  requested : Found → Waiting
  over : Waiting

-- `results` are those left; `title` and `status` are set at the end, when the pulse is stopped.
pub record Display : Type 0 where
  pub results : List Found
  pub output : List Item
  pub result_count : ℕ
  pub waiting : Waiting
  pub is_pulse_stopped : Bool
  pub title : Option Text
  pub status : Option Text

abbrev pub start_display : List Found → ℕ → List Item → Display
start_display results result_count output = record {
  results = results;
  output = output;
  result_count = result_count;
  waiting = due;
  is_pulse_stopped = false;
  title = none;
  status = none;
}

-- `results.pop()`
unfoldable pub pop : List Found → Option (List Found × Found)
pop [] = none
pop (r ∷ []) = some ([], r)
pop (r ∷ s ∷ rs) = elim (pop (s ∷ rs)) [ none ↦ none | some (qs, q) ↦ some (r ∷ qs, q) ]

module _ (to_lower : Text → Text) (options : Options) (browser : Browser)
    (keywords hlterms : List Text) where
  abbrev list_item : Found → Text → Option Node → Item
  list_item r descr summary = record {
    href = (page_urls options r.docname).1 ++ highlight_string browser hlterms ++ r.anchor;
    title = r.title;
    descr = descr;
    summary = summary;
  }

  -- The list gets an item, and the timer is set.
  abbrev appended : Item → Display → Display
  appended item d = record d { output = d.output ++ item ∷ []; waiting = due }

  abbrev next_item : Display → Option (List Found × Found) → Display
  next_item d none = record d {
    waiting = over;
    is_pulse_stopped = true;
    title = some (browser.translate (codes "Search Results"));
    status = some (status_text browser d.result_count);
  }
  next_item d (some (rest, r)) =
      if described to_lower r.descr
      then appended (list_item r (descr_text to_lower r.descr) none) (record d { results = rest })
      else if options.has_source
      then record d { results = rest; waiting = requested r }
      else appended (list_item r [] none) (record d { results = rest })

  -- The `complete` of a request, with the text of its response.
  abbrev complete : Display → Found → Option Text → Display
  complete d r response =
      appended (list_item r [] (summary_of to_lower browser keywords hlterms response)) d

  abbrev next_event : Display → Waiting → Display
  next_event d due = next_item d (pop d.results)
  next_event d (requested r) = complete d r (browser.fetch (page_urls options r.docname).0)
  next_event d over = d

  -- What is due happens.
  unfoldable pub display_next : Display → Display
  unfolding page_urls highlight_string status_text pop
  display_next d = next_event d d.waiting

  unfoldable pub display_steps : ℕ → Display → Display
  unfolding display_next
  display_steps zero d = d
  display_steps (suc n) d = display_steps n (display_next d)

  abbrev item : Found → Item
  item r = display_item to_lower options browser keywords hlterms r

  abbrev pub shown : ℕ → List Item → Display
  shown count items = record {
    results = [];
    output = items;
    result_count = count;
    waiting = over;
    is_pulse_stopped = true;
    title = some (browser.translate (codes "Search Results"));
    status = some (status_text browser count);
  }

-- ===== src/Docs/Doctools/Ready/Laws.antt =====
-- What the set-up of a page leaves.
use g_rpeakec_go.Prelude.{◌≡◌, ◌⊎◌, Bool, true, false, ◌||◌, Option, none, some, List}
use g_rpeakec_go.Prelude.Text.{Text}
use g_rpeakec_go.Docs.Options.{Options}
use g_rpeakec_go.Docs.Strings.{◌>>=◌}
use g_rpeakec_go.Docs.Doctools.Params.{Params, get_query_parameters}
use g_rpeakec_go.Docs.Doctools.Page.{init_index_table}
use g_rpeakec_go.Docs.Doctools.Highlight.Content.{content}
use g_rpeakec_go.Docs.Doctools.Words.{highlight_words}
use g_rpeakec_go.Docs.Doctools.Ready.{Page, Ready}

module _ (to_lower : Text → Text) (decode : Text → Option Text) (inherited : Text → Bool) where
  -- The words that the address asks to highlight, if it can be read.
  abbrev pub words_of : Text → Option (List Text)
  words_of search = get_query_parameters decode inherited search >>= highlight_words

  -- The set-up has come to its end.
  abbrev pub IsSetUp : Options → Page → Ready → Type 0
  IsSetUp options before r =
      (r.completed ≡ true)
      × (r.page.table ≡ init_index_table options before.table)
      × (r.page.takes_keys ≡ (before.takes_keys || options.navigation_with_keys))

  -- An exception has ended it before the index table and the keys.
  abbrev pub IsCut : Page → Ready → Type 0
  IsCut before r =
      (r.completed ≡ false)
      × (r.page.table ≡ before.table)
      × (r.page.takes_keys ≡ before.takes_keys)

  -- What the set-up does with the words.
  abbrev pub Leaves : Options → Page → Option (List Text) → Ready → Type 0
  Leaves options page words r =
      (content r.page.body ≡ content page.body)
      × (((ws : List Text) × (words ≡ some ws) × IsSetUp options page r)
          ⊎ ((words ≡ none) × IsCut page r))

-- ===== src/Docs/Search/Pulse.antt =====
-- The state of the search: the index, which may come after the query, and the dots that pulse
-- while the search runs.
use g_rpeakec_go.Prelude.{
  ℕ, zero, suc, ◌+◌, ◌%◌, ◌<◌, ◌≡◌, ◌≢◌, refl, Bool, true, false, Option, none, some, List, [], ◌∷◌,
  ◌++◌, length, if◌then◌else◌, arith,
}
use g_rpeakec_go.Prelude.Text.{Text, codes}
use g_rpeakec_go.Docs.Search.{Index}
pub mod Runs

-- `_pulse_status` is -1 at first, which is `none`; `timers` counts the pulses that are due, and
-- `performed` lists the queries that have been run, with the index each was run on.
pub record Search : Type 0 where
  pub index : Option Index
  pub queued_query : Option Text
  pub pulse_status : Option ℕ
  pub dots : Text
  pub timers : ℕ
  pub performed : List (Text × Index)

abbrev pub new_search : Search
new_search = record {
  index = none;
  queued_query = none;
  pulse_status = none;
  dots = [];
  timers = 0;
  performed = [];
}

abbrev pub dot_string : ℕ → Text
dot_string zero = []
dot_string (suc n) = b'.' ∷ dot_string n

abbrev pub next_status : Option ℕ → ℕ
next_status none = 0
next_status (some s) = (s + 1) % 4

-- A pulse shows the dots and, since the status is above -1, sets the next timer.
unfoldable pub pulse : Search → Search
pulse s = record {
  index = s.index;
  queued_query = s.queued_query;
  pulse_status = some (next_status s.pulse_status);
  dots = dot_string (next_status s.pulse_status);
  timers = suc s.timers;
  performed = s.performed;
}

abbrev pub pulse_unless : Option ℕ → Search → Search
pulse_unless none s = pulse s
pulse_unless (some n) s = s

unfoldable pub start_pulse : Search → Search
unfolding pulse
start_pulse s = pulse_unless s.pulse_status s

unfoldable pub stop_pulse : Search → Search
stop_pulse s = record {
  index = s.index;
  queued_query = s.queued_query;
  pulse_status = some 0;
  dots = s.dots;
  timers = s.timers;
  performed = s.performed;
}

abbrev pub has_index : Search → Bool
has_index s = elim s.index [ none ↦ false | some i ↦ true ]

-- `deferQuery`
unfoldable pub defer_query : Text → Search → Search
defer_query q s = record {
  index = s.index;
  queued_query = some q;
  pulse_status = s.pulse_status;
  dots = s.dots;
  timers = s.timers;
  performed = s.performed;
}

-- A call of `query`, which reads the index.
abbrev pub run_query : Text → Option Index → Search → Search
run_query q none s = s
run_query q (some i) s = record {
  index = s.index;
  queued_query = s.queued_query;
  pulse_status = s.pulse_status;
  dots = s.dots;
  timers = s.timers;
  performed = s.performed ++ (q, i) ∷ [];
}

abbrev pub run_or_defer : Text → Option Index → Search → Search
run_or_defer q none s = defer_query q s
run_or_defer q (some i) s = run_query q (some i) s

unfoldable pub perform_search : Text → Search → Search
unfolding start_pulse defer_query
perform_search q s = run_or_defer q s.index (start_pulse s)

abbrev pub with_index : Index → Search → Search
with_index i s = record {
  index = some i;
  queued_query = none;
  pulse_status = s.pulse_status;
  dots = s.dots;
  timers = s.timers;
  performed = s.performed;
}

abbrev pub run_queued : Option Text → Index → Search → Search
run_queued none i s = with_index i s
run_queued (some q) i s = run_query q (some i) (with_index i s)

unfoldable pub set_index : Index → Search → Search
set_index i s = run_queued s.queued_query i s

-- A timer that is due: the pulse that it runs.
abbrev pub fire_one : ℕ → Search → Search
fire_one zero s = s
fire_one (suc n) s = pulse (record {
  index = s.index;
  queued_query = s.queued_query;
  pulse_status = s.pulse_status;
  dots = s.dots;
  timers = n;
  performed = s.performed;
})

unfoldable pub fire : Search → Search
unfolding pulse
fire s = fire_one s.timers s

-- What can happen to the page: the script of the index arrives, a query is made, a query that has
-- been run ends with its last result shown, or a timer that is due runs.
pub data Step : Search → Search → Type 0 where
  index_loaded : (i : Index) (s : Search) → Step s (set_index i s)
  query_made : (q : Text) (s : Search) → Step s (perform_search q s)
  query_done : (s : Search) → s.performed ≢ [] → Step s (stop_pulse s)
  timer : (s : Search) → 0 < s.timers → Step s (fire s)

pub data Reachable : Search → Type 0 where
  start : Reachable new_search
  next : {s t : Search} → Reachable s → Step s t → Reachable t

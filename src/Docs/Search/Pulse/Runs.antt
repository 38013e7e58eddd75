-- ===== src/Docs/Search/Pulse/Runs.antt =====
-- What a run of the search page does.
use g_rpeakec_go.Prelude.{
  ℕ, zero, suc, ◌<◌, ◌≡◌, ◌≢◌, refl, ap, sym, Option, none, some, List, [], ◌∷◌, ◌++◌, arith,
}
use g_rpeakec_go.Prelude.Text.{Text}
use g_rpeakec_go.Docs.Search.{Index}
use g_rpeakec_go.Docs.Search.Pulse.{
  Search, next_status, pulse_unless, run_or_defer, run_queued, with_index, pulse, Step,
  index_loaded, query_made, query_done, timer, Reachable, start, next, set_index, perform_search,
  fire_one, start_pulse, stop_pulse, defer_query, fire,
}

-- Before the first query nothing pulses, waits or has been run. From then on one timer is due, and
-- the status counts up to three.
abbrev pub Pulsing : Option ℕ → ℕ → List (Text × Index) → Option Text → Type 0
Pulsing none timers performed queued = (timers ≡ 0) × (performed ≡ []) × (queued ≡ none)
Pulsing (some n) timers performed queued = (n < 4) × (timers ≡ 1)

abbrev pub IsPulsing : Search → Type 0
IsPulsing s = Pulsing s.pulse_status s.timers s.performed s.queued_query

-- With the index there, no query waits for it.
abbrev pub Waiting : Option Index → Option Text → Type 0
Waiting none queued = Unit
Waiting (some i) queued = queued ≡ none

abbrev pub IsServed : Search → Type 0
IsServed s = Waiting s.index s.queued_query

next_status-lt : (o : Option ℕ) → next_status o < 4
next_status-lt none = omega arith
next_status-lt (some n) = omega arith

-- A start that sets the first timer, or finds one set.
pulse_unless-Pulsing :
    (s : Search) (o : Option ℕ) (ps : List (Text × Index)) (queued : Option Text)
    → o ≡ s.pulse_status
    → Pulsing o s.timers s.performed s.queued_query
    → Pulsing (pulse_unless o s).pulse_status (pulse_unless o s).timers ps queued
unfolding pulse
pulse_unless-Pulsing s none ps queued e (no_timer, _, _) =
    (next_status-lt s.pulse_status, omega (arith, no_timer))
pulse_unless-Pulsing s (some n) ps queued e h = rw (sym e) h

perform_search-IsPulsing : (q : Text) (s : Search) → IsPulsing s → IsPulsing (perform_search q s)
unfolding perform_search start_pulse defer_query
perform_search-IsPulsing q s h = go s.index
  where
    go : (o : Option Index) → IsPulsing (run_or_defer q o (pulse_unless s.pulse_status s))
    go none = pulse_unless-Pulsing s s.pulse_status _ _ refl h
    go (some i) = pulse_unless-Pulsing s s.pulse_status _ _ refl h

-- A run that does not touch the timers, when something has been waiting.
Pulsing-run :
    (o : Option ℕ) (timers : ℕ) (ps qs : List (Text × Index)) (q : Text)
    → Pulsing o timers ps (some q)
    → Pulsing o timers qs none
Pulsing-run none timers ps qs q (_, _, e) = ground (arith, e)
Pulsing-run (some n) timers ps qs q h = h

set_index-IsPulsing : (i : Index) (s : Search) → IsPulsing s → IsPulsing (set_index i s)
unfolding set_index
set_index-IsPulsing i s h = go s.queued_query h
  where
    go :
        (o : Option Text)
        → Pulsing s.pulse_status s.timers s.performed o
        → IsPulsing (run_queued o i s)
    go none h = h
    go (some q) h = Pulsing-run s.pulse_status s.timers s.performed _ q h

stop_pulse-IsPulsing : (s : Search) → s.performed ≢ [] → IsPulsing s → IsPulsing (stop_pulse s)
unfolding stop_pulse
stop_pulse-IsPulsing s run h = go s.pulse_status h
  where
    go : (o : Option ℕ) → Pulsing o s.timers s.performed s.queued_query → IsPulsing (stop_pulse s)
    go none (_, e, _) = absurd (run e)
    go (some n) (_, e) = (omega arith, e)

fire-IsPulsing : (s : Search) → IsPulsing s → IsPulsing (fire s)
unfolding fire pulse
fire-IsPulsing s h = go s.pulse_status s.timers refl h
  where
    go :
        (o : Option ℕ) (n : ℕ)
        → n ≡ s.timers
        → Pulsing o s.timers s.performed s.queued_query
        → IsPulsing (fire_one n s)
    go o zero e _ = h
    go none (suc n) e (no_timer, _, _) = absurd (omega (arith, e, no_timer))
    go (some k) (suc n) e (_, one) = (next_status-lt s.pulse_status, omega (arith, e, one))

Step-IsPulsing : {s t : Search} → Step s t → IsPulsing s → IsPulsing t
Step-IsPulsing (index_loaded i s) h = set_index-IsPulsing i s h
Step-IsPulsing (query_made q s) h = perform_search-IsPulsing q s h
Step-IsPulsing (query_done s run) h = stop_pulse-IsPulsing s run h
Step-IsPulsing (timer s due) h = fire-IsPulsing s h

-- Once a query has been made, one timer is due in every later state and the status stays below 4,
-- so that the dots go on for good: the end of a search sets the status to 0, which is above -1 and
-- switches nothing off. Before the first query there is no timer, and nothing waits or has been run.
pub Reachable-IsPulsing : (s : Search) → Reachable s → IsPulsing s
Reachable-IsPulsing s start = (refl, refl, refl)
Reachable-IsPulsing s (next r e) = Step-IsPulsing e (Reachable-IsPulsing _ r)

perform_search-IsServed : (q : Text) (s : Search) → IsServed s → IsServed (perform_search q s)
unfolding perform_search start_pulse defer_query pulse
perform_search-IsServed q s h = go s.index h s.pulse_status refl
  where
    go :
        (o : Option Index)
        → Waiting o s.queued_query
        → (p : Option ℕ) → o ≡ s.index
        → IsServed (run_or_defer q o (pulse_unless p s))
    go none h none e = rw (sym e) tt
    go none h (some n) e = rw (sym e) tt
    go (some i) h none e = rw (sym e) h
    go (some i) h (some n) e = rw (sym e) h

set_index-IsServed : (i : Index) (s : Search) → IsServed (set_index i s)
unfolding set_index
set_index-IsServed i s = go s.queued_query
  where
    go : (o : Option Text) → IsServed (run_queued o i s)
    go none = refl
    go (some q) = refl

fire-IsServed : (s : Search) → IsServed s → IsServed (fire s)
unfolding fire pulse
fire-IsServed s h = go s.timers
  where
    go : (n : ℕ) → IsServed (fire_one n s)
    go zero = h
    go (suc n) = h

Step-IsServed : {s t : Search} → Step s t → IsServed s → IsServed t
unfolding stop_pulse
Step-IsServed (index_loaded i s) h = set_index-IsServed i s
Step-IsServed (query_made q s) h = perform_search-IsServed q s h
Step-IsServed (query_done s run) h = h
Step-IsServed (timer s due) h = fire-IsServed s h

-- In every state of the page in which the index is there, no query waits for it, in whatever order
-- the index, the queries and the timers have come.
pub Reachable-IsServed :
    (s : Search) (i : Index) → Reachable s → s.index ≡ some i → s.queued_query ≡ none
Reachable-IsServed s i r e = rw e at (served s r)
  where
    served : (s : Search) → Reachable s → IsServed s
    served s start = tt
    served s (next r e) = Step-IsServed e (served _ r)

start_pulse-performed : (s : Search) → (start_pulse s).performed ≡ s.performed
unfolding start_pulse pulse
start_pulse-performed s = go s.pulse_status
  where
    go : (p : Option ℕ) → (pulse_unless p s).performed ≡ s.performed
    go none = refl
    go (some n) = refl

-- A query that is made before the index is there is run when the index comes, once and on that
-- index, as the same query is that is made after it: the queries run are the same in either order,
-- given that no other query waits.
pub set_index-perform_search :
    (s : Search) (q : Text) (i : Index)
    → s.index ≡ none
    → s.queued_query ≡ none
    → ((set_index i (perform_search q s)).performed ≡ s.performed ++ (q, i) ∷ [])
      × ((perform_search q (set_index i s)).performed ≡ s.performed ++ (q, i) ∷ [])
unfolding set_index perform_search start_pulse defer_query pulse
set_index-perform_search s q i e f = go s.index s.queued_query s.pulse_status e f
  where
    run_after : (perform_search q (with_index i s)).performed ≡ s.performed ++ (q, i) ∷ []
    run_after = ap (λ ps. ps ++ (q, i) ∷ []) (start_pulse-performed (with_index i s))

    go :
        (o : Option Index) (w : Option Text) (p : Option ℕ)
        → o ≡ none
        → w ≡ none
        → ((set_index i (run_or_defer q o (pulse_unless p s))).performed
            ≡ s.performed ++ (q, i) ∷ [])
          × ((perform_search q (run_queued w i s)).performed ≡ s.performed ++ (q, i) ∷ [])
    go none none none e f = (refl, run_after)
    go none none (some n) e f = (refl, run_after)
    go none (some v) p e f = ground (arith, f)
    go (some j) w p e f = ground (arith, e)

-- ===== src/Pksync/Tests/Mapping.antt =====
-- The theorems on ConcurrentMap along a run over one value, at which mapFunc panics.
use g_rpeakec_go.Prelude.{ℕ, ◌<◌, ◌≤◌, ◌≡◌, refl, ◌⊎◌, Option, none, some, [], ◌∷◌, update, arith}
use g_rpeakec_go.Prelude.Text.{codes}
use g_rpeakec_go.Errors.{Err}
use g_rpeakec_go.Pkerr.Panic.{Outcome, panicked, a_value, catch_panic, check_panic}
use g_rpeakec_go.Pksync.ConcurrentMap.{
  unlaunched, running, reporting, finished, looping, waiting, closed, of_value, MapState, start_map,
  after_map_func, launch, end_loop, close, return_or_panic, receive_value, Reach, here, next,
  value_errs, context_errs,
}
use g_rpeakec_go.Pksync.ConcurrentMap.Sound.{owed_of}
use g_rpeakec_go.Pksync.ConcurrentMap.Laws.{closed_reports, closed_complete}
use g_rpeakec_go.Pksync.ConcurrentMap.Closes.{Closes, start_map-Closes}

abbrev fresh : MapState
fresh = start_map none

abbrev failure : Err
failure = Err.panic_val (codes "boom")

-- mapFunc panics everywhere.
abbrev ends : ℕ → Outcome (Option Err)
ends j = panicked (a_value (codes "boom"))

abbrev launched : MapState
launched = record {
  i = 1;
  launcher = looping;
  workers = update (λ _. unlaunched) 0 running;
  ctx_err = none;
  received = [];
}

abbrev panicking : MapState
panicking = record launched { workers = update launched.workers 0 (reporting failure) }

abbrev received : MapState
received = record launched {
  workers = update panicking.workers 0 (finished (some failure));
  received = of_value failure 0 ∷ [];
}

abbrev ended : MapState
ended = record received { launcher = waiting }

abbrev done : MapState
done = record received { launcher = closed }

to_launched : Reach ends 1 fresh launched
unfolding start_map
to_launched = next here (launch refl (omega arith) refl)

to_ended : Reach ends 1 fresh ended
unfolding after_map_func catch_panic check_panic
to_ended =
    next (next (next to_launched (return_or_panic 0 refl)) (receive_value 0 failure refl))
      (end_loop refl (omega arith))

to_done : Reach ends 1 fresh done
to_done = next to_ended (close refl (λ j b. (some failure, ground (arith, b))))

closed_reports_example :
    ((0 < 1) × (value_errs 0 done.received ≡ owed_of (catch_panic (ends 0))))
    ⊎ ((1 ≤ 0) × (value_errs 0 done.received ≡ []))
closed_reports_example = closed_reports {ends = ends} none refl to_done refl 0

closed_complete_example :
    ((e : Err) × (1 < 1) × (done.ctx_err ≡ some e) × (context_errs done.received ≡ e ∷ []))
    ⊎ ((done.i ≡ 1) × (context_errs done.received ≡ []))
closed_complete_example = closed_complete {ends = ends} none refl to_done refl

start_map-Closes_example : Closes ends 2 (start_map none)
start_map-Closes_example = start_map-Closes ends 2 none

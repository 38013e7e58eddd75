-- ===== src/Pkservices/Shutdown/Phases.antt =====
-- Which contexts are done at each place of Run.
use g_rpeakec_go.Prelude.{◌≡◌, refl, ap, ◌∙◌, Bool, true, false}
use g_rpeakec_go.Prelude.Int.{ℤ}
use g_rpeakec_go.Pkservices.Shutdown.{
  End, finished, timed_out, panicked, Main, setting_up, running, stages_over, waiting, joining,
  ending, done, Life, launch_listeners, Own, signal_quits, timeout_returns, timeout_set,
  timeout_stopped, timeout_fires, cancel_resources, wait_released, wait_timed_out, listeners_exited,
  deferred_calls, Step, own, shutdown_ordered, signal_received, setup_error, setup_failed,
  setup_complete, run_error, run_complete, run_panics, resources_released, Reachable, start, next,
}

abbrev pub resources_at_end : End → Bool
resources_at_end finished = true
resources_at_end timed_out = true
resources_at_end panicked = false

abbrev pub listeners_at_end : End → Bool
listeners_at_end finished = true
listeners_at_end timed_out = false
listeners_at_end panicked = false

abbrev resources_at : Main → Bool
resources_at (setting_up failed) = false
resources_at running = false
resources_at stages_over = false
resources_at waiting = true
resources_at joining = true
resources_at (ending e) = resources_at_end e
resources_at (done e) = resources_at_end e

abbrev listeners_at : Main → Bool
listeners_at (setting_up failed) = false
listeners_at running = false
listeners_at stages_over = false
listeners_at waiting = false
listeners_at joining = true
listeners_at (ending e) = listeners_at_end e
listeners_at (done e) = listeners_at_end e

-- The contexts of the resources and of the listeners are done just at these places.
abbrev pub IsInPhase : Life → Type 0
IsInPhase s = (s.resources_done ≡ resources_at s.main) × (s.listeners_done ≡ listeners_at s.main)

-- The flags where Run is known to be.
at_place :
    (s : Life) (m : Main)
    → IsInPhase s
    → s.main ≡ m
    → (s.resources_done ≡ resources_at m) × (s.listeners_done ≡ listeners_at m)
at_place s m (a, b) e = (a ∙ ap resources_at e, b ∙ ap listeners_at e)

Own-IsInPhase : (max : ℤ) (s u : Life) → IsInPhase s → Own max s u → IsInPhase u
Own-IsInPhase max s u v (signal_quits e f) = v
Own-IsInPhase max s u v (timeout_returns e f) = v
Own-IsInPhase max s u v (timeout_set e f g) = v
Own-IsInPhase max s u v (timeout_stopped e f) = v
Own-IsInPhase max s u v (timeout_fires e) = v
Own-IsInPhase max s u v (cancel_resources e) = (refl, (at_place s stages_over v e).1)
Own-IsInPhase max s u v (wait_released e f) = ((at_place s waiting v e).0, refl)
Own-IsInPhase max s u v (wait_timed_out e f) = at_place s waiting v e
Own-IsInPhase max s u v (listeners_exited e f g) = at_place s joining v e
Own-IsInPhase max s u v (deferred_calls d e) = at_place s (ending d) v e

Step-IsInPhase : (max : ℤ) (s u : Life) → IsInPhase s → Step max s u → IsInPhase u
Step-IsInPhase max s u v (own step) = Own-IsInPhase max s u v step
Step-IsInPhase max s u v shutdown_ordered = v
Step-IsInPhase max s u v (signal_received e) = v
Step-IsInPhase max s u v (setup_error failed e) = at_place s (setting_up failed) v e
Step-IsInPhase max s u v (setup_failed e) = at_place s (setting_up true) v e
Step-IsInPhase max s u v (setup_complete e) = at_place s (setting_up false) v e
Step-IsInPhase max s u v (run_error e) = v
Step-IsInPhase max s u v (run_complete e) = at_place s running v e
Step-IsInPhase max s u v (run_panics e) = at_place s running v e
Step-IsInPhase max s u v (resources_released e) = v

Reachable-IsInPhase : (max : ℤ) (s : Life) → Reachable max s → IsInPhase s
unfolding launch_listeners
Reachable-IsInPhase max s start = (refl, refl)
Reachable-IsInPhase max s (next {s = t} run step) =
    Step-IsInPhase max t s (Reachable-IsInPhase max t run) step

-- At the end of Run the contexts of the resources and of the listeners are those of its ending.
pub done-contexts :
    (max : ℤ) (s : Life) (e : End)
    → Reachable max s
    → s.main ≡ done e
    → (s.resources_done ≡ resources_at_end e) × (s.listeners_done ≡ listeners_at_end e)
done-contexts max s e run at = at_place s (done e) (Reachable-IsInPhase max s run) at

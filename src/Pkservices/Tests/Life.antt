-- ===== src/Pkservices/Tests/Life.antt =====
-- The life of a manager whose services end without an error.
use g_rpeakec_go.Prelude.{◌≡◌, refl, true, false, inl}
use g_rpeakec_go.Prelude.Int.{pos}
use g_rpeakec_go.Pkservices.Shutdown.{
  finished, timed_out, stages_over, done, TimeoutListener, SignalListener, Life, launch_listeners,
  is_unlimited, signal_quits, timeout_set, timeout_stopped, cancel_resources, wait_released,
  listeners_exited, deferred_calls, own, setup_complete, run_complete, resources_released,
  Reachable, start, next,
}
use g_rpeakec_go.Pkservices.Shutdown.Rises.{EndOk}
use g_rpeakec_go.Pkservices.Shutdown.Safety.{done-EndOk, shutdown_done-services_done}
use g_rpeakec_go.Pkservices.Shutdown.Returns.{Returns, Reachable-Returns}

-- Past the stages, and at the end.
abbrev stopping : Life
stopping = record {
  services_done = true;
  resources_done = false;
  listeners_done = false;
  shutdown_done = false;
  released = false;
  main = stages_over;
  timeout = TimeoutListener.launched;
  signal = SignalListener.listening;
}

abbrev stopped : Life
stopped = record {
  services_done = true;
  resources_done = true;
  listeners_done = true;
  shutdown_done = true;
  released = true;
  main = done finished;
  timeout = TimeoutListener.gone;
  signal = SignalListener.gone;
}

stopping-Reachable : Reachable (pos 5) stopping
unfolding launch_listeners
stopping-Reachable = next (next start (setup_complete refl)) (run_complete refl)

stopped-Reachable : Reachable (pos 5) stopped
stopped-Reachable =
    let a = next stopping-Reachable (own (cancel_resources refl)) in
    let b = next a (resources_released refl) in
    let c = next b (own (wait_released refl refl)) in
    let d = next c (own (timeout_set refl refl refl)) in
    let e = next d (own (timeout_stopped refl refl)) in
    let f = next e (own (signal_quits refl refl)) in
    let g = next f (own (listeners_exited refl refl refl)) in
    next g (own (deferred_calls finished refl))

Reachable-Returns_example : Returns (pos 5) stopping
Reachable-Returns_example = Reachable-Returns (pos 5) stopping stopping-Reachable tt (inl refl)

done-EndOk_example : EndOk stopped finished × (finished ≡ timed_out → is_unlimited (pos 5) ≡ false)
done-EndOk_example = done-EndOk (pos 5) stopped finished stopped-Reachable refl

shutdown_done-services_done_example :
    (stopped.services_done ≡ true) × (is_unlimited (pos 5) ≡ false)
shutdown_done-services_done_example =
    shutdown_done-services_done (pos 5) stopped stopped-Reachable refl

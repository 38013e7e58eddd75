-- ===== src/Pkservices/Shutdown/Safety.antt =====
-- What holds in every state of a manager's life: no context ends before its turn, and what the end
-- of Run says of the listeners.
use g_rpeakec_go.Prelude.{◌≡◌, refl, ap, sym, ◌∙◌, inl, inr, true, false, arith}
use mathlib.Core.Path.{subst}
use g_rpeakec_go.Prelude.Int.{ℤ}
use g_rpeakec_go.Pkservices.Shutdown.Rises.{
  IsOn, is_timeout_gone, is_signal_gone, EndOk, MainOk, TimeoutOk, SignalOk, Step-rise, EndOk-rise,
  MainOk-rise, TimeoutOk-rise, SignalOk-rise,
}
use g_rpeakec_go.Pkservices.Shutdown.{
  End, timed_out, done, Life, launch_listeners, is_unlimited, Own, signal_quits, timeout_returns,
  timeout_set, timeout_stopped, timeout_fires, cancel_resources, wait_released, wait_timed_out,
  listeners_exited, deferred_calls, Step, own, shutdown_ordered, signal_received, setup_error,
  setup_failed, setup_complete, run_error, run_complete, run_panics, resources_released, Reachable,
  start, next,
}

pub record IsSound (max : ℤ) (s : Life) : Type 0 where
  pub main : MainOk s s.main
  pub timeout : TimeoutOk max s s.timeout
  pub signal : SignalOk s s.signal
  pub shutdown : IsOn s.shutdown_done → IsOn s.services_done × (is_unlimited max ≡ false)

-- A step that leaves Run, or the listeners, where they are.
main_kept : (max : ℤ) (s u : Life) → IsSound max s → Step max s u → MainOk u s.main
main_kept max s u v step = MainOk-rise s u (Step-rise max s u step) s.main v.main

timeout_kept : (max : ℤ) (s u : Life) → IsSound max s → Step max s u → TimeoutOk max u s.timeout
timeout_kept max s u v step = TimeoutOk-rise max s u (Step-rise max s u step) s.timeout v.timeout

signal_kept : (max : ℤ) (s u : Life) → IsSound max s → Step max s u → SignalOk u s.signal
signal_kept max s u v step = SignalOk-rise s u (Step-rise max s u step) s.signal v.signal

-- A step of Run alone, given what holds at its new place.
run_step :
    (max : ℤ) (s u : Life)
    → IsSound max s
    → Step max s u
    → u.timeout ≡ s.timeout
    → u.signal ≡ s.signal
    → u.shutdown_done ≡ s.shutdown_done
    → MainOk u u.main
    → IsSound max u
run_step max s u v step same_timeout same_signal same_shutdown ok = record {
  main = ok;
  timeout = subst (TimeoutOk max u) (sym same_timeout) (timeout_kept max s u v step);
  signal = subst (SignalOk u) (sym same_signal) (signal_kept max s u v step);
  shutdown = λ h.
      let (services, limited) = v.shutdown (sym same_shutdown ∙ h) in
      ((Step-rise max s u step).0 services, limited);
}

-- A step of the listeners alone.
listener_step :
    (max : ℤ) (s u : Life)
    → IsSound max s
    → Step max s u
    → u.main ≡ s.main
    → TimeoutOk max u u.timeout
    → SignalOk u u.signal
    → (IsOn u.shutdown_done → IsOn u.services_done × (is_unlimited max ≡ false))
    → IsSound max u
listener_step max s u v step same_main timeout signal shutdown = record {
  main = subst (MainOk u) (sym same_main) (main_kept max s u v step);
  timeout = timeout;
  signal = signal;
  shutdown = shutdown;
}

pub Own-IsSound : (max : ℤ) (s u : Life) → IsSound max s → Own max s u → IsSound max u
Own-IsSound max s u v (signal_quits e f) =
    let step = own (signal_quits e f) in
    listener_step max s u v step refl (timeout_kept max s u v step) refl
      (λ h. (refl, (v.shutdown h).1))
Own-IsSound max s u v (timeout_returns e f) =
    let step = own (timeout_returns e f) in
    listener_step max s u v step refl (inl f) (signal_kept max s u v step) v.shutdown
Own-IsSound max s u v (timeout_set e f g) =
    let step = own (timeout_set e f g) in
    listener_step max s u v step refl (g, f) (signal_kept max s u v step) v.shutdown
Own-IsSound max s u v (timeout_stopped e f) =
    let step = own (timeout_stopped e f) in
    let set = subst (TimeoutOk max s) e v.timeout in
    listener_step max s u v step refl (inr refl) (signal_kept max s u v step) (λ h. set)
Own-IsSound max s u v (timeout_fires e) =
    let step = own (timeout_fires e) in
    let set = subst (TimeoutOk max s) e v.timeout in
    listener_step max s u v step refl (inr refl) (signal_kept max s u v step) (λ h. set)
Own-IsSound max s u v (cancel_resources e) =
    run_step max s u v (own (cancel_resources e)) refl refl refl (subst (MainOk s) e v.main, refl)
Own-IsSound max s u v (wait_released e f) =
    run_step max s u v (own (wait_released e f)) refl refl refl
      ((subst (MainOk s) e v.main).0, f, refl)
Own-IsSound max s u v (wait_timed_out e f) =
    run_step max s u v (own (wait_timed_out e f)) refl refl refl ((subst (MainOk s) e v.main).0, f)
Own-IsSound max s u v (listeners_exited e f g) =
    let (services, released, listeners) = subst (MainOk s) e v.main in
    run_step max s u v (own (listeners_exited e f g)) refl refl refl
      (services, released, listeners, ap is_timeout_gone f, ap is_signal_gone g)
Own-IsSound max s u v (deferred_calls d e) =
    let step = own (deferred_calls d e) in
    run_step max s u v step refl refl refl
      (EndOk-rise s u (Step-rise max s u step) d (subst (MainOk s) e v.main))

Step-IsSound : (max : ℤ) (s u : Life) → IsSound max s → Step max s u → IsSound max u
Step-IsSound max s u v (own step) = Own-IsSound max s u v step
Step-IsSound max s u v shutdown_ordered =
    run_step max s u v shutdown_ordered refl refl refl (main_kept max s u v shutdown_ordered)
Step-IsSound max s u v (signal_received e) =
    let step = signal_received e in
    listener_step max s u v step refl (timeout_kept max s u v step) refl
      (λ h. (refl, (v.shutdown h).1))
Step-IsSound max s u v (setup_error failed e) =
    run_step max s u v (setup_error failed e) refl refl refl refl
Step-IsSound max s u v (setup_failed e) =
    run_step max s u v (setup_failed e) refl refl refl (subst (MainOk s) e v.main)
Step-IsSound max s u v (setup_complete e) = run_step max s u v (setup_complete e) refl refl refl tt
Step-IsSound max s u v (run_error e) =
    run_step max s u v (run_error e) refl refl refl (main_kept max s u v (run_error e))
Step-IsSound max s u v (run_complete e) = run_step max s u v (run_complete e) refl refl refl refl
Step-IsSound max s u v (run_panics e) = run_step max s u v (run_panics e) refl refl refl refl
Step-IsSound max s u v (resources_released e) =
    run_step max s u v (resources_released e) refl refl refl
      (main_kept max s u v (resources_released e))

pub Reachable-IsSound : (max : ℤ) (s : Life) → Reachable max s → IsSound max s
unfolding launch_listeners
Reachable-IsSound max s start = record {
  main = tt;
  timeout = tt;
  signal = tt;
  shutdown = λ h. absurd (ground arith);
}
Reachable-IsSound max s (next {s = t} run step) =
    Step-IsSound max t s (Reachable-IsSound max t run) step

-- When Run has returned without an error of the shutdown, the resources are released and both
-- listeners are gone. When it has returned because the shutdown took too long, the duration is
-- not negative. In every case the context of the services was done before.
pub done-EndOk :
    (max : ℤ) (s : Life) (e : End)
    → Reachable max s
    → s.main ≡ done e
    → EndOk s e × (e ≡ timed_out → is_unlimited max ≡ false)
done-EndOk max s e run at =
    let v = Reachable-IsSound max s run in
    let ok = subst (MainOk s) at v.main in (ok, λ h. (v.shutdown (subst (EndOk s) h ok).1).1)

-- The context of the shutdown, at whose end services and resources are given up, is never done
-- before the services have been told to stop, and never at all if the duration is negative.
pub shutdown_done-services_done :
    (max : ℤ) (s : Life)
    → Reachable max s
    → s.shutdown_done ≡ true
    → (s.services_done ≡ true) × (is_unlimited max ≡ false)
shutdown_done-services_done max s run = (Reachable-IsSound max s run).shutdown

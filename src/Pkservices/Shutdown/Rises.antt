-- ===== src/Pkservices/Shutdown/Rises.antt =====
-- What a place in a manager's life says of its flags, and that no step takes it back.
use g_rpeakec_go.Prelude.{◌≡◌, ◌⊎◌, inl, inr, Bool, true, false, arith}
use g_rpeakec_go.Prelude.Int.{ℤ}
use g_rpeakec_go.Pkservices.Shutdown.{
  End, finished, timed_out, panicked, Main, setting_up, running, stages_over, waiting, joining,
  ending, done, TimeoutListener, launched, armed, SignalListener, listening, Life, is_unlimited,
  Own, signal_quits, timeout_returns, timeout_set, timeout_stopped, timeout_fires, cancel_resources,
  wait_released, wait_timed_out, listeners_exited, deferred_calls, Step, own, shutdown_ordered,
  signal_received, setup_error, setup_failed, setup_complete, run_error, run_complete, run_panics,
  resources_released,
}

abbrev pub IsOn : Bool → Type 0
IsOn b = b ≡ true

abbrev pub is_timeout_gone : TimeoutListener → Bool
is_timeout_gone launched = false
is_timeout_gone armed = false
is_timeout_gone TimeoutListener.gone = true

abbrev pub is_signal_gone : SignalListener → Bool
is_signal_gone listening = false
is_signal_gone SignalListener.gone = true

-- What holds at the end of Run, by the way it ends.
abbrev pub EndOk : Life → End → Type 0
EndOk s finished =
    IsOn s.services_done
    × IsOn s.released
    × IsOn s.listeners_done
    × IsOn (is_timeout_gone s.timeout)
    × IsOn (is_signal_gone s.signal)
EndOk s timed_out = IsOn s.services_done × IsOn s.shutdown_done
EndOk s panicked = IsOn s.services_done

-- What holds at each place of Run, and of the listeners.
abbrev pub MainOk : Life → Main → Type 0
MainOk s (setting_up true) = IsOn s.services_done
MainOk s (setting_up false) = Unit
MainOk s running = Unit
MainOk s stages_over = IsOn s.services_done
MainOk s waiting = IsOn s.services_done × IsOn s.resources_done
MainOk s joining = IsOn s.services_done × IsOn s.released × IsOn s.listeners_done
MainOk s (ending e) = EndOk s e
MainOk s (done e) = EndOk s e

abbrev pub TimeoutOk : ℤ → Life → TimeoutListener → Type 0
TimeoutOk max s launched = Unit
TimeoutOk max s armed = IsOn s.services_done × (is_unlimited max ≡ false)
TimeoutOk max s TimeoutListener.gone = (is_unlimited max ≡ true) ⊎ IsOn s.shutdown_done

abbrev pub SignalOk : Life → SignalListener → Type 0
SignalOk s listening = Unit
SignalOk s SignalListener.gone = IsOn s.services_done

-- No step turns a flag off, or brings a listener back.
abbrev pub Rises : Life → Life → Type 0
Rises s u =
    (IsOn s.services_done → IsOn u.services_done)
    × (IsOn s.resources_done → IsOn u.resources_done)
    × (IsOn s.listeners_done → IsOn u.listeners_done)
    × (IsOn s.shutdown_done → IsOn u.shutdown_done)
    × (IsOn s.released → IsOn u.released)
    × (IsOn (is_timeout_gone s.timeout) → IsOn (is_timeout_gone u.timeout))
    × (IsOn (is_signal_gone s.signal) → IsOn (is_signal_gone u.signal))

pub Own-rise : (max : ℤ) (s u : Life) → Own max s u → Rises s u
Own-rise max s u (signal_quits e f) = ground arith
Own-rise max s u (timeout_returns e f) = ground arith
Own-rise max s u (timeout_set e f g) = ground arith
Own-rise max s u (timeout_stopped e f) = ground arith
Own-rise max s u (timeout_fires e) = ground arith
Own-rise max s u (cancel_resources e) = ground arith
Own-rise max s u (wait_released e f) = ground arith
Own-rise max s u (wait_timed_out e f) = ground arith
Own-rise max s u (listeners_exited e f g) = ground arith
Own-rise max s u (deferred_calls d e) = ground arith

pub Step-rise : (max : ℤ) (s u : Life) → Step max s u → Rises s u
Step-rise max s u (own step) = Own-rise max s u step
Step-rise max s u shutdown_ordered = ground arith
Step-rise max s u (signal_received e) = ground arith
Step-rise max s u (setup_error failed e) = ground arith
Step-rise max s u (setup_failed e) = ground arith
Step-rise max s u (setup_complete e) = ground arith
Step-rise max s u (run_error e) = ground arith
Step-rise max s u (run_complete e) = ground arith
Step-rise max s u (run_panics e) = ground arith
Step-rise max s u (resources_released e) = ground arith

pub EndOk-rise : (s u : Life) → Rises s u → (e : End) → EndOk s e → EndOk u e
EndOk-rise s u r finished (a, b, c, d, e) = (r.0 a, r.4 b, r.2 c, r.5 d, r.6 e)
EndOk-rise s u r timed_out (a, b) = (r.0 a, r.3 b)
EndOk-rise s u r panicked a = r.0 a

pub MainOk-rise : (s u : Life) → Rises s u → (m : Main) → MainOk s m → MainOk u m
MainOk-rise s u r (setting_up true) a = r.0 a
MainOk-rise s u r (setting_up false) a = a
MainOk-rise s u r running a = a
MainOk-rise s u r stages_over a = r.0 a
MainOk-rise s u r waiting (a, b) = (r.0 a, r.1 b)
MainOk-rise s u r joining (a, b, c) = (r.0 a, r.4 b, r.2 c)
MainOk-rise s u r (ending e) a = EndOk-rise s u r e a
MainOk-rise s u r (done e) a = EndOk-rise s u r e a

pub TimeoutOk-rise :
    (max : ℤ) (s u : Life)
    → Rises s u
    → (t : TimeoutListener) → TimeoutOk max s t
    → TimeoutOk max u t
TimeoutOk-rise max s u r launched a = a
TimeoutOk-rise max s u r armed (a, b) = (r.0 a, b)
TimeoutOk-rise max s u r TimeoutListener.gone (inl a) = inl a
TimeoutOk-rise max s u r TimeoutListener.gone (inr a) = inr (r.3 a)

pub SignalOk-rise : (s u : Life) → Rises s u → (t : SignalListener) → SignalOk s t → SignalOk u t
SignalOk-rise s u r listening a = a
SignalOk-rise s u r SignalListener.gone a = r.0 a

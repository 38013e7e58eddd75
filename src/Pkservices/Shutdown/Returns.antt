-- ===== src/Pkservices/Shutdown/Returns.antt =====
-- Run returns once its stages are over.
use mathlib.Core.Path.{subst}
use g_rpeakec_go.Prelude.{
  ℕ, zero, suc, ◌+◌, ◌<◌, ◌≡◌, refl, ap, ◌⊎◌, inl, inr, true, false, Bool-cases, arith,
}
use g_rpeakec_go.Prelude.Int.{ℤ}
use g_rpeakec_go.Pkservices.Shutdown.{
  End, Main, setting_up, running, stages_over, waiting, joining, ending, done, TimeoutListener,
  launched, armed, SignalListener, listening, Life, is_unlimited, Own, signal_quits,
  timeout_returns, timeout_set, timeout_stopped, timeout_fires, cancel_resources, wait_released,
  wait_timed_out, listeners_exited, deferred_calls, Reachable,
}
use g_rpeakec_go.Pkservices.Shutdown.Rises.{IsOn, MainOk, TimeoutOk, Own-rise}
use g_rpeakec_go.Pkservices.Shutdown.Safety.{IsSound, Own-IsSound, Reachable-IsSound}

-- Whatever steps the goroutines take, and in whatever order, Run returns: it has returned, or there
-- is a step to take and after each that can be taken it returns.
pub data Returns (max : ℤ) : Life → Type 0 where
  returned : (s : Life) (e : End) → s.main ≡ done e → Returns max s
  later :
      (s : Life)
      → (u : Life) × Own max s u
      → ((u : Life) → Own max s u → Returns max u)
      → Returns max s

-- The steps that are left at most.
abbrev main_left : Main → ℕ
main_left (setting_up failed) = 0
main_left running = 0
main_left stages_over = 4
main_left waiting = 3
main_left joining = 2
main_left (ending e) = 1
main_left (done e) = 0

abbrev timeout_left : TimeoutListener → ℕ
timeout_left launched = 2
timeout_left armed = 1
timeout_left TimeoutListener.gone = 0

abbrev signal_left : SignalListener → ℕ
signal_left listening = 1
signal_left SignalListener.gone = 0

abbrev left : Life → ℕ
left s = main_left s.main + timeout_left s.timeout + signal_left s.signal

Own-left : (max : ℤ) (s u : Life) → Own max s u → left u < left s
Own-left max s u (signal_quits e f) = let h = ap signal_left e in omega (arith, h)
Own-left max s u (timeout_returns e f) = let h = ap timeout_left e in omega (arith, h)
Own-left max s u (timeout_set e f g) = let h = ap timeout_left e in omega (arith, h)
Own-left max s u (timeout_stopped e f) = let h = ap timeout_left e in omega (arith, h)
Own-left max s u (timeout_fires e) = let h = ap timeout_left e in omega (arith, h)
Own-left max s u (cancel_resources e) = let h = ap main_left e in omega (arith, h)
Own-left max s u (wait_released e f) = let h = ap main_left e in omega (arith, h)
Own-left max s u (wait_timed_out e f) = let h = ap main_left e in omega (arith, h)
Own-left max s u (listeners_exited e f g) = let h = ap main_left e in omega (arith, h)
Own-left max s u (deferred_calls d e) = let h = ap main_left e in omega (arith, h)

-- Run is past its stages.
abbrev pub IsLeaving : Main → Type 0
IsLeaving (setting_up failed) = ⊥
IsLeaving running = ⊥
IsLeaving stages_over = Unit
IsLeaving waiting = Unit
IsLeaving joining = Unit
IsLeaving (ending e) = Unit
IsLeaving (done e) = Unit

Own-IsLeaving : (max : ℤ) (s u : Life) → Own max s u → IsLeaving s.main → IsLeaving u.main
Own-IsLeaving max s u (signal_quits e f) h = h
Own-IsLeaving max s u (timeout_returns e f) h = h
Own-IsLeaving max s u (timeout_set e f g) h = h
Own-IsLeaving max s u (timeout_stopped e f) h = h
Own-IsLeaving max s u (timeout_fires e) h = h
Own-IsLeaving max s u (cancel_resources e) h = tt
Own-IsLeaving max s u (wait_released e f) h = tt
Own-IsLeaving max s u (wait_timed_out e f) h = tt
Own-IsLeaving max s u (listeners_exited e f g) h = tt
Own-IsLeaving max s u (deferred_calls d e) h = tt

-- What keeps the wait for the resources finite.
abbrev WillEnd : ℤ → Life → Type 0
WillEnd max s = (is_unlimited max ≡ false) ⊎ IsOn s.released

Own-WillEnd : (max : ℤ) (s u : Life) → Own max s u → WillEnd max s → WillEnd max u
Own-WillEnd max s u step (inl limited) = inl limited
Own-WillEnd max s u step (inr released) = inr ((Own-rise max s u step).4 released)

abbrev HasStep : ℤ → Life → Type 0
HasStep max s = (u : Life) × Own max s u

-- The timer ends the wait.
timer_step :
    (max : ℤ) (s : Life)
    → IsSound max s
    → s.main ≡ waiting
    → is_unlimited max ≡ false
    → (t : TimeoutListener) → s.timeout ≡ t
    → HasStep max s
timer_step max s v at limited launched e = (_, timeout_set e limited (subst (MainOk s) at v.main).0)
timer_step max s v at limited armed e = (_, timeout_fires e)
timer_step max s v at limited TimeoutListener.gone e = elim (subst (TimeoutOk max s) e v.timeout) [
  | inl unlimited ↦ absurd (ground arith)
  | inr shutdown ↦ (_, wait_timed_out at shutdown)
]

-- The listeners end.
exit_step :
    (max : ℤ) (s : Life)
    → IsSound max s
    → s.main ≡ joining
    → (t : TimeoutListener) → s.timeout ≡ t
    → (g : SignalListener) → s.signal ≡ g
    → HasStep max s
exit_step max s v at t e listening f =
    let services = (subst (MainOk s) at v.main).0 in (_, signal_quits f (ground arith))
exit_step max s v at launched e SignalListener.gone f = elim (Bool-cases (is_unlimited max)) [
  | inl unlimited ↦ (_, timeout_returns e unlimited)
  | inr limited ↦ (_, timeout_set e limited (subst (MainOk s) at v.main).0)
]
exit_step max s v at armed e SignalListener.gone f =
    (_, timeout_stopped e (subst (MainOk s) at v.main).2)
exit_step max s v at TimeoutListener.gone e SignalListener.gone f = (_, listeners_exited at e f)

-- Past its stages Run has returned or there is a step to take.
run_step_or_done :
    (max : ℤ) (s : Life)
    → IsSound max s
    → WillEnd max s
    → (m : Main) → s.main ≡ m
    → IsLeaving m
    → ((e : End) × (s.main ≡ done e)) ⊎ HasStep max s
run_step_or_done max s v w (setting_up failed) at h = absurd h
run_step_or_done max s v w running at h = absurd h
run_step_or_done max s v w stages_over at h = inr (_, cancel_resources at)
run_step_or_done max s v (inl limited) waiting at h =
    inr (timer_step max s v at limited s.timeout refl)
run_step_or_done max s v (inr released) waiting at h = inr (_, wait_released at released)
run_step_or_done max s v w joining at h = inr (exit_step max s v at s.timeout refl s.signal refl)
run_step_or_done max s v w (ending e) at h = inr (_, deferred_calls e at)
run_step_or_done max s v w (done e) at h = inl (e, at)

-- `n` bounds the steps that are left.
returns_within :
    (n : ℕ) (max : ℤ) (s : Life)
    → left s < n
    → IsSound max s
    → WillEnd max s
    → IsLeaving s.main
    → Returns max s
returns_within zero max s b v w h = absurd (omega (arith, b))
returns_within (suc n) max s b v w h = elim (run_step_or_done max s v w s.main refl h) [
  | inl (e, at) ↦ returned s e at
  | inr step ↦ later s step (λ u next.
      let fewer = Own-left max s u next in
      returns_within n max u (omega (arith, b, fewer)) (Own-IsSound max s u v next)
        (Own-WillEnd max s u next w) (Own-IsLeaving max s u next h))
]

-- Once its stages are over, Run returns, whatever the order of the steps, if the duration of a
-- shutdown is not negative or the resources have been released: the wait for the listeners never
-- blocks.
pub Reachable-Returns :
    (max : ℤ) (s : Life)
    → Reachable max s
    → IsLeaving s.main
    → (is_unlimited max ≡ false) ⊎ (s.released ≡ true)
    → Returns max s
Reachable-Returns max s run leaving w =
    returns_within (suc (left s)) max s (omega arith) (Reachable-IsSound max s run) w leaving

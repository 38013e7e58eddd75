-- ===== src/Pkservices/Shutdown/Endings.antt =====
-- Every ending of a manager's life comes about.
use g_rpeakec_go.Prelude.{◌≡◌, refl, false, Bool-cases, inl, inr}
use g_rpeakec_go.Prelude.Int.{ℤ}
use g_rpeakec_go.Pkservices.Shutdown.{
  End, finished, timed_out, done, Life, launch_listeners, is_unlimited, signal_quits,
  timeout_returns, timeout_set, timeout_stopped, timeout_fires, cancel_resources, wait_released,
  wait_timed_out, listeners_exited, deferred_calls, own, setup_complete, run_complete, run_panics,
  resources_released, Reachable, start, next,
}

-- Every ending has a life that comes to it, a timeout where there is a timer.
pub end-Reachable :
    (max : ℤ) (e : End)
    → (e ≡ timed_out → is_unlimited max ≡ false)
    → (s : Life) × Reachable max s × (s.main ≡ done e)
unfolding launch_listeners
end-Reachable max End.panicked limited =
    let a : Reachable max _ = next (next start (setup_complete refl)) (run_panics refl) in
    (_, next a (own (deferred_calls End.panicked refl)), refl)
end-Reachable max timed_out limited =
    let a : Reachable max _ = next (next start (setup_complete refl)) (run_complete refl) in
    let b : Reachable max _ = next a (own (cancel_resources refl)) in
    let c : Reachable max _ = next b (own (timeout_set refl (limited refl) refl)) in
    let d : Reachable max _ = next c (own (timeout_fires refl)) in
    let f : Reachable max _ = next d (own (wait_timed_out refl refl)) in
    (_, next f (own (deferred_calls timed_out refl)), refl)
end-Reachable max finished limited =
    let a : Reachable max _ = next (next start (setup_complete refl)) (run_complete refl) in
    let b : Reachable max _ = next a (own (cancel_resources refl)) in
    let c : Reachable max _ = next b (resources_released refl) in
    let d : Reachable max _ = next c (own (wait_released refl refl)) in
    let f : Reachable max _ = next d (own (signal_quits refl refl)) in
    elim (Bool-cases (is_unlimited max)) [
      | inl unlimited ↦
          let g : Reachable max _ = next f (own (timeout_returns refl unlimited)) in
          let h : Reachable max _ = next g (own (listeners_exited refl refl refl)) in
          (_, next h (own (deferred_calls finished refl)), refl)
      | inr has_timer ↦
          let g : Reachable max _ = next f (own (timeout_set refl has_timer refl)) in
          let h : Reachable max _ = next g (own (timeout_stopped refl refl)) in
          let k : Reachable max _ = next h (own (listeners_exited refl refl refl)) in
          (_, next k (own (deferred_calls finished refl)), refl)
    ]

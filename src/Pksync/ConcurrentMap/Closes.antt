-- ===== src/Pksync/ConcurrentMap/Closes.antt =====
-- A ConcurrentMap ends: no schedule of its steps goes on for ever.
use g_rpeakec_go.Prelude.{
  ℕ, zero, suc, ◌+◌, ◌<◌, ◌≤◌, ◌≡◌, ◌≢◌, refl, ap, ◌⊎◌, inl, inr, Option, none, some, Bool-cases,
  ◌==◌, update, ==_iff, arith,
}
use g_rpeakec_go.Errors.{Err}
use g_rpeakec_go.Pkerr.Panic.{Outcome, catch_panic}
use g_rpeakec_go.Pksync.ConcurrentMap.{
  Worker, unlaunched, running, reporting, finished, Launcher, looping, stopping, waiting, closed,
  MapState, start_map, after_map_func, Step, cancel, launch, break_loop, receive_context, end_loop,
  close, return_or_panic, receive_value,
}
use g_rpeakec_go.Pksync.ConcurrentMap.Sound.{IsSound, start_map-IsSound, Step-IsSound, lt_or_le}
use g_rpeakec_go.Pksync.ConcurrentMap.Progress.{launcher_step}

-- The channel is closed, or there is a step to take and the channel closes after each that can be
-- taken.
pub data Closes (ends : ℕ → Outcome (Option Err)) (len : ℕ) : MapState → Type 0 where
  closed_now : (s : MapState) → s.launcher ≡ closed → Closes ends len s
  later :
      (s : MapState)
      → (u : MapState) × Step ends len s u
      → ((u : MapState) → Step ends len s u → Closes ends len u)
      → Closes ends len s

-- The steps that are left at most.
abbrev worker_left : Worker → ℕ
worker_left unlaunched = 3
worker_left running = 2
worker_left (reporting e) = 1
worker_left (finished r) = 0

abbrev launcher_left : Launcher → ℕ
launcher_left looping = 3
launcher_left (stopping e) = 2
launcher_left waiting = 1
launcher_left closed = 0

abbrev ctx_left : Option Err → ℕ
ctx_left none = 1
ctx_left (some e) = 0

abbrev workers_left : (ℕ → Worker) → ℕ → ℕ
workers_left workers zero = 0
workers_left workers (suc n) = worker_left (workers n) + workers_left workers n

abbrev left : ℕ → MapState → ℕ
left len s = launcher_left s.launcher + ctx_left s.ctx_err + workers_left s.workers len

workers_left-above :
    (workers : ℕ → Worker) (j n : ℕ) (w : Worker)
    → n ≤ j
    → workers_left (update workers j w) n ≡ workers_left workers n
workers_left-above workers j zero w b = refl
workers_left-above workers j (suc n) w b = elim (Bool-cases (n == j)) [
  | inl e ↦ let same = (==_iff n j).0 e in absurd (omega (arith, b, same))
  | inr e ↦
      rw e (
        ap (λ k. worker_left (workers n) + k) (workers_left-above workers j n w (omega (arith, b))))
]

workers_left-update :
    (workers : ℕ → Worker) (j n : ℕ) (w : Worker)
    → j < n
    → worker_left w < worker_left (workers j)
    → workers_left (update workers j w) n < workers_left workers n
workers_left-update workers j zero w b fewer = absurd (omega (arith, b))
workers_left-update workers j (suc n) w b fewer = elim (Bool-cases (n == j)) [
  | inl e ↦
      let same = (==_iff n j).0 e in
      let rest = workers_left-above workers j n w (omega (arith, same)) in
      let here_fewer : worker_left w < worker_left (workers n) = rw same fewer in
      rw e (omega (arith, rest, here_fewer))
  | inr e ↦
      let below : j < n = ground (arith, e, b) in
      let rest = workers_left-update workers j n w below fewer in rw e (omega (arith, rest))
]

-- A goroutine that has been launched is below the length.
launched_below :
    (ends : ℕ → Outcome (Option Err)) (len : ℕ) (s : MapState) (j : ℕ)
    → IsSound ends len s
    → s.workers j ≢ unlaunched
    → j < len
launched_below ends len s j v on = elim (lt_or_le j s.i) [
  | inl b ↦ omega (arith, b, v.bound)
  | inr above ↦ absurd (on (v.fresh j above))
]

after_map_func-left : (r : Option Err) → worker_left (after_map_func r) < 2
unfolding after_map_func
after_map_func-left none = omega arith
after_map_func-left (some e) = omega arith

Step-left :
    (ends : ℕ → Outcome (Option Err)) (len : ℕ) (s u : MapState)
    → IsSound ends len s
    → Step ends len s u
    → left len u < left len s
Step-left ends len s u v (cancel e n) = let h = ap ctx_left n in omega (arith, h)
Step-left ends len s u v (launch l b n) =
    let fresh = ap worker_left (v.fresh s.i (omega arith)) in
    let h = workers_left-update s.workers s.i len running b (omega (arith, fresh)) in
    omega (arith, h)
Step-left ends len s u v (break_loop e l b c) = let h = ap launcher_left l in omega (arith, h)
Step-left ends len s u v (receive_context e l) = let h = ap launcher_left l in omega (arith, h)
Step-left ends len s u v (end_loop l b) = let h = ap launcher_left l in omega (arith, h)
Step-left ends len s u v (close l d) = let h = ap launcher_left l in omega (arith, h)
Step-left ends len s u v (return_or_panic j w) =
    let b = launched_below ends len s j v (λ e. cc) in
    let going = ap worker_left w in
    let ended = after_map_func (catch_panic (ends j)) in
    let few = after_map_func-left (catch_panic (ends j)) in
    let h = workers_left-update s.workers j len ended b (omega (arith, going, few)) in
    omega (arith, h)
Step-left ends len s u v (receive_value j e w) =
    let b = launched_below ends len s j v (λ q. cc) in
    let going = ap worker_left w in
    let h = workers_left-update s.workers j len (finished (some e)) b (omega (arith, going)) in
    omega (arith, h)

is_closed_or_not : (l : Launcher) → (l ≡ closed) ⊎ (l ≢ closed)
is_closed_or_not looping = inr (λ e. cc)
is_closed_or_not (stopping e) = inr (λ q. cc)
is_closed_or_not waiting = inr (λ e. cc)
is_closed_or_not closed = inl refl

-- `n` bounds the steps that are left.
closes_within :
    (n : ℕ) (ends : ℕ → Outcome (Option Err)) (len : ℕ) (s : MapState)
    → left len s < n
    → IsSound ends len s
    → Closes ends len s
closes_within zero ends len s b v = absurd (omega (arith, b))
closes_within (suc n) ends len s b v = elim (is_closed_or_not s.launcher) [
  | inl e ↦ closed_now s e
  | inr ne ↦ later s (launcher_step v s.launcher refl ne) (λ u step.
      let fewer = Step-left ends len s u v step in
      closes_within n ends len u (omega (arith, b, fewer)) (Step-IsSound ends len step v))
]

-- From its start, while the receiver ranges over the channel and each call of mapFunc returns or
-- panics, the map closes its channel under every schedule, whether and whenever its context ends.
pub start_map-Closes :
    (ends : ℕ → Outcome (Option Err)) (len : ℕ) (ctx_err : Option Err)
    → Closes ends len (start_map ctx_err)
start_map-Closes ends len ctx_err =
    closes_within (suc (left len (start_map ctx_err))) ends len (start_map ctx_err) (omega arith)
      (start_map-IsSound ends len ctx_err)

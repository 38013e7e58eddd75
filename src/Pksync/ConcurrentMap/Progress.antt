-- ===== src/Pksync/ConcurrentMap/Progress.antt =====
-- A ConcurrentMap always has a step to take until its channel is closed.
use g_rpeakec_go.Prelude.{
  ℕ, zero, suc, Option-cases, ◌<◌, ◌≡◌, ◌≢◌, refl, ap, sym, ◌∙◌, ◌⊎◌, inl, inr, Option, arith,
}
use g_rpeakec_go.Errors.{Err}
use g_rpeakec_go.Pkerr.Panic.{Outcome}
use g_rpeakec_go.Pksync.ConcurrentMap.{
  Worker, unlaunched, running, reporting, finished, Launcher, looping, stopping, waiting, closed,
  MapState, start_map, Step, launch, break_loop, receive_context, end_loop, close, return_or_panic,
  receive_value, Reach,
}
use g_rpeakec_go.Pksync.ConcurrentMap.Sound.{IsSound, start_map-IsSound, Reach-IsSound, lt_or_le}

-- A worker's next step, unless it has none.
worker_step :
    {ends : ℕ → Outcome (Option Err)} {len : ℕ} {t : MapState} (j : ℕ)
    → t.workers j ≢ unlaunched
    → ((r : Option Err) × (t.workers j ≡ finished r)) ⊎ ((u : MapState) × Step ends len t u)
worker_step {ends} {len} {t} j on = by_state (t.workers j) refl
  where
    by_state :
        (w : Worker)
        → t.workers j ≡ w
        → ((r : Option Err) × (t.workers j ≡ finished r)) ⊎ ((u : MapState) × Step ends len t u)
    by_state unlaunched e = absurd (on e)
    by_state running e = inr (_, return_or_panic j e)
    by_state (reporting err) e = inr (_, receive_value j err e)
    by_state (finished r) e = inl (r, e)

workers_step :
    {ends : ℕ → Outcome (Option Err)} {len : ℕ} {t : MapState} (n : ℕ)
    → ((j : ℕ) → j < n → t.workers j ≢ unlaunched)
    → ((j : ℕ) → j < n → (r : Option Err) × (t.workers j ≡ finished r))
      ⊎ ((u : MapState) × Step ends len t u)
workers_step zero on = inl (λ j b. absurd (omega (arith, b)))
workers_step {ends} {len} {t} (suc n) on =
    elim (workers_step {ends = ends} {len = len} {t = t} n (λ j b. on j (omega (arith, b)))) [
      | inr step ↦ inr step
      | inl all ↦ elim (worker_step {ends = ends} {len = len} {t = t} n (on n (omega arith))) [
        | inr step ↦ inr step
        | inl (r, e) ↦ inl (λ j b. elim (lt_or_le j n) [
          | inl below ↦ all j below
          | inr above ↦
              let same : n ≡ j = omega (arith, b, above) in (r, ap t.workers (sym same) ∙ e)
        ])
      ]
    ]

pub launcher_step :
    {ends : ℕ → Outcome (Option Err)} {len : ℕ} {t : MapState}
    → IsSound ends len t
    → (l : Launcher) → t.launcher ≡ l
    → l ≢ closed
    → (u : MapState) × Step ends len t u
launcher_step {ends} {len} {t} v looping e ne = elim (lt_or_le t.i len) [
  | inr above ↦ (_, end_loop e above)
  | inl b ↦ elim (Option-cases t.ctx_err) [
    | inl running_on ↦ (_, launch e b running_on)
    | inr (err, ended) ↦ (_, break_loop err e b ended)
  ]
]
launcher_step v (stopping err) e ne = (_, receive_context err e)
launcher_step {ends} {len} {t} v waiting e ne =
    elim (workers_step {ends = ends} {len = len} {t = t} t.i v.launched) [
      | inl all ↦ (_, close e all)
      | inr step ↦ step
    ]
launcher_step v closed e ne = absurd (ne refl)

-- In every state that a start reaches, unless the channel is closed, the map can take a step while
-- its receiver ranges over the channel: it never deadlocks.
pub never_blocks :
    {ends : ℕ → Outcome (Option Err)} {len : ℕ} {s t : MapState} (ctx_err : Option Err)
    → s ≡ start_map ctx_err
    → Reach ends len s t
    → t.launcher ≢ closed
    → (u : MapState) × Step ends len t u
never_blocks {ends} {len} {t} ctx_err fresh run open_yet =
    launcher_step (Reach-IsSound (rw fresh (start_map-IsSound ends len ctx_err)) run) t.launcher
      refl open_yet

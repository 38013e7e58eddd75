-- ===== src/Pkservices/Manager/Laws.antt =====
-- What the stages of a run end with, and that the shutdown starts with the services' context.
use g_rpeakec_go.Prelude.{
  ℕ, zero, suc, any, ◌≡◌, ◌⊎◌, inl, inr, refl, ap, sym, ◌∙◌, Bool-cases, true, false, Option, none,
  some, List, [], ◌∷◌, ◌++◌, append_assoc, append-nil,
}
use g_rpeakec_go.Prelude.Text.{Text}
use g_rpeakec_go.Errors.{Err}
use g_rpeakec_go.Pkerr.Panic.{returned}
use g_rpeakec_go.Pksync.ConcurrentMap.{Report, of_context, of_value}
use g_rpeakec_go.Pkservices.Report.{is_some, collect_services_errors}
use g_rpeakec_go.Pkservices.Manager.{
  collect_if_any, run_stage, Event, services_cancelled, resources_cancelled, listeners_cancelled,
  shutdown_logged, shutdown_complete, ManagerSync, start_shutdown, map_loop, map_services,
  setup_services, generic_services_run, Env, wait_returned, run_all_services, run_grpc_services,
  start_shutdowns,
}

-- The errors of the services in a list of reports, in the order in which they were received.
abbrev pub service_errs : List Report → List (Option Err)
service_errs [] = []
service_errs (of_context _ ∷ rs) = service_errs rs
service_errs (of_value e i ∷ rs) = some e ∷ service_errs rs

-- Whether the services' context has been cancelled before anything else was.
abbrev pub StartsShutdown : List Event → Type 0
StartsShutdown [] = ⊥
StartsShutdown (services_cancelled ∷ es) = Unit
StartsShutdown (shutdown_logged ∷ es) = StartsShutdown es
StartsShutdown (_ ∷ es) = ⊥

map_loop-errs :
    (s : ManagerSync) (errs : List (Option Err)) (rs : List Report)
    → (map_loop s errs rs).1 ≡ errs ++ service_errs rs
unfolding map_loop
map_loop-errs s errs [] = sym (append-nil errs)
map_loop-errs s errs (of_context _ ∷ rs) = map_loop-errs s errs rs
map_loop-errs s errs (of_value e i ∷ rs) =
    map_loop-errs (start_shutdown s) (errs ++ some e ∷ []) rs ∙ append_assoc errs _ _

collect_if_any_lem : (errs : List (Option Err)) → collect_if_any errs ≡ collect_services_errors errs
unfolding collect_services_errors
collect_if_any_lem [] = refl
collect_if_any_lem (e ∷ es) = refl

-- mapServices collects the errors of the services in the order received, and leaves out the
-- context's error: a map that is stopped by its context before any service has run gives nil.
pub map_services_errs :
    (s : ManagerSync) (rs : List Report)
    → (map_services s rs).1 ≡ collect_services_errors (service_errs rs)
unfolding map_services
map_services_errs s rs =
    ap collect_if_any (map_loop-errs s [] rs) ∙ collect_if_any_lem (service_errs rs)

-- Shutdown has started: the services' context is done, and its cancellation comes first.
abbrev pub IsDown : ManagerSync → Type 0
IsDown s = (s.services_done ≡ true) × StartsShutdown s.events

-- Nothing has happened, or shutdown has started.
abbrev pub IsBegun : ManagerSync → Type 0
IsBegun s = ((s.services_done ≡ false) × (s.events ≡ [])) ⊎ IsDown s

StartsShutdown-append : (es more : List Event) → StartsShutdown es → StartsShutdown (es ++ more)
StartsShutdown-append [] more ok = absurd ok
StartsShutdown-append (resources_cancelled ∷ es) more ok = absurd ok
StartsShutdown-append (listeners_cancelled ∷ es) more ok = absurd ok
StartsShutdown-append (shutdown_complete ∷ es) more ok = absurd ok
StartsShutdown-append (services_cancelled ∷ es) more ok = tt
StartsShutdown-append (shutdown_logged ∷ es) more ok = StartsShutdown-append es more ok

pub start_shutdown-IsDown : (s : ManagerSync) → IsBegun s → IsDown (start_shutdown s)
unfolding start_shutdown
start_shutdown-IsDown s (inl (fresh, no_events)) = (refl, rw (fresh, no_events) tt)
start_shutdown-IsDown s (inr (down, starts)) = (
  refl,
  rw down (
      StartsShutdown-append (s.events ++ shutdown_logged ∷ []) _
        (StartsShutdown-append s.events _ starts)),
)

map_loop-IsDown :
    (s : ManagerSync) (errs : List (Option Err)) (rs : List Report)
    → IsDown s
    → IsDown (map_loop s errs rs).0
unfolding map_loop
map_loop-IsDown s errs [] d = d
map_loop-IsDown s errs (of_context _ ∷ rs) d = map_loop-IsDown s errs rs d
map_loop-IsDown s errs (of_value e i ∷ rs) d =
    map_loop-IsDown (start_shutdown s) (errs ++ some e ∷ []) rs (start_shutdown-IsDown s (inr d))

-- A report of a service's error starts the shutdown; without one nothing happens.
map_loop-IsBegun :
    (s : ManagerSync) (errs : List (Option Err)) (rs : List Report)
    → IsBegun s
    → ((service_errs rs ≡ []) × IsBegun (map_loop s errs rs).0) ⊎ IsDown (map_loop s errs rs).0
unfolding map_loop
map_loop-IsBegun s errs [] b = inl (refl, b)
map_loop-IsBegun s errs (of_context _ ∷ rs) b = map_loop-IsBegun s errs rs b
map_loop-IsBegun s errs (of_value e i ∷ rs) b =
    inr (map_loop-IsDown (start_shutdown s) (errs ++ some e ∷ []) rs (start_shutdown-IsDown s b))

pub map_services-IsBegun :
    (s : ManagerSync) (rs : List Report) → IsBegun s → IsBegun (map_services s rs).0
unfolding map_services
map_services-IsBegun s rs b = elim (map_loop-IsBegun s [] rs b) [ inl (_, b') ↦ b' | inr d ↦ inr d ]

generic_services_run-IsBegun :
    (s : ManagerSync) (rs : List Report) → IsBegun s → IsBegun (generic_services_run s rs).0
unfolding generic_services_run
generic_services_run-IsBegun s rs b =
    let s' : ManagerSync = (map_services s rs).0 in
    let b' : IsBegun s' = map_services-IsBegun s rs b in
    elim (Bool-cases (is_some (map_services s rs).1)) [
      | inl e ↦ rw e (inr (start_shutdown-IsDown s' b'))
      | inr e ↦ rw e b'
    ]

-- The setup either gives no error, or has started the shutdown.
pub setup_services-IsDown :
    (s : ManagerSync) (rs : List Report)
    → IsBegun s
    → ((setup_services s rs).1 ≡ none) ⊎ IsDown (setup_services s rs).0
unfolding setup_services map_services
setup_services-IsDown s rs b = elim (map_loop-IsBegun s [] rs b) [
  | inl (no_errs, _) ↦ inl (rw (map_loop-errs s [] rs) (rw no_errs refl))
  | inr d ↦ inr d
]

pub start_shutdowns-IsBegun : (n : ℕ) (s : ManagerSync) → IsBegun s → IsBegun (start_shutdowns n s)
unfolding start_shutdowns
start_shutdowns-IsBegun zero s b = b
start_shutdowns-IsBegun (suc n) s b =
    start_shutdowns-IsBegun n (start_shutdown s) (inr (start_shutdown-IsDown s b))

pub start_shutdowns-IsDown : (n : ℕ) (s : ManagerSync) → IsDown s → IsDown (start_shutdowns n s)
unfolding start_shutdowns
start_shutdowns-IsDown zero s d = d
start_shutdowns-IsDown (suc n) s d =
    start_shutdowns-IsDown n (start_shutdown s) (start_shutdown-IsDown s (inr d))

module _ (text : Err → Text) (env : Env) where
  run_grpc_services-IsBegun :
      (s : ManagerSync) → IsBegun s → IsBegun (run_grpc_services text s env).0
  unfolding run_grpc_services
  run_grpc_services-IsBegun s b = elim (Bool-cases (any (λ is_grpc. is_grpc) env.visited)) [
    | inl e ↦ rw e (map_services-IsBegun s env.register_reports b)
    | inr e ↦ rw e b
  ]

  pub stage-IsDown :
      (s : ManagerSync) (setup_err : Option Err)
      → IsBegun s
      → (setup_err ≡ none) ⊎ IsDown s
      → IsDown (run_stage text s env setup_err).0
  unfolding run_all_services
  stage-IsDown s none b h =
      let s' : ManagerSync = (generic_services_run s env.generic_reports).0 in
      start_shutdown-IsDown (run_grpc_services text s' env).0
        (run_grpc_services-IsBegun s' (generic_services_run-IsBegun s env.generic_reports b))
  stage-IsDown s (some err) b (inl q) = cc
  stage-IsDown s (some err) b (inr d) = d

  pub stage-returns :
      (s : ManagerSync) (setup_err w : Option Err)
      → env.wait ≡ wait_returned w
      → (r : Option Err) × ((run_stage text s env setup_err).1 ≡ returned r)
  unfolding run_all_services
  stage-returns s (some err) w e = (_, refl)
  stage-returns s none none e = rw e (_, refl)
  stage-returns s none (some err) e = rw e (_, refl)

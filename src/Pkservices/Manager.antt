-- ===== src/Pkservices/Manager.antt =====
-- pkservices/manager.go: the stages of Manager.Run. What the goroutines of a stage do is an input:
-- the reports that the receiver of a ConcurrentMap gets (Pksync/ConcurrentMap says which they can
-- be), what Wait of the CtxWaitGroup gives, which of the two run errors had been written when they
-- are read, and whether the resources are released before the shutdown's context ends. The calls of
-- StartShutdown by the other goroutines, listenForSignal of launchListeners among them, are an
-- input too; Pkservices/Shutdown has the listeners and the contexts step by step.
pub mod Laws
pub mod Result
pub mod Events
use g_rpeakec_go.Prelude.{
  any, ℕ, zero, suc, Bool, true, false, Option, none, some, List, [], ◌∷◌, ◌++◌, if◌then◌else◌,
}
use g_rpeakec_go.Prelude.Text.{Text, codes}
use g_rpeakec_go.Errors.{Err, canceled, wait_group_closed, wrapped, service}
use g_rpeakec_go.Pkerr.Panic.{Recovered, a_value, Outcome, returned, panicked, catch_panic}
use g_rpeakec_go.Pksync.ConcurrentMap.{Report, of_context, of_value}
use g_rpeakec_go.Pkservices.Report.{ManagerError, has_errors, is_some, collect_services_errors}

-- What the other goroutines can see of a manager: a context of managerSync that is cancelled, the
-- log line of StartShutdown, and the close of shutdownComplete.
pub data Event : Type 0 where
  services_cancelled resources_cancelled listeners_cancelled : Event
  shutdown_logged shutdown_complete : Event

-- managerSync: `services_done` is servicesCtx.Err() != nil. The events are in order.
pub record ManagerSync : Type 0 where
  pub services_done : Bool
  pub events : List Event

-- Reset.
unfoldable pub reset : ManagerSync
reset = record { services_done = false; events = [] }

abbrev pub note : Event → ManagerSync → ManagerSync
note e s = record s { events = s.events ++ e ∷ [] }

unfoldable pub start_shutdown : ManagerSync → ManagerSync
start_shutdown s =
    let logged = if s.services_done then note shutdown_logged s else s in
    record (note services_cancelled logged) { services_done = true }

-- Calls of StartShutdown by other goroutines.
unfoldable pub start_shutdowns : ℕ → ManagerSync → ManagerSync
unfolding start_shutdown
start_shutdowns zero s = s
start_shutdowns (suc n) s = start_shutdowns n (start_shutdown s)

-- The function that mapServices maps: `action` has returned or panicked.
unfoldable pub services_map_func : Text → Outcome (Option Err) → Option Err
services_map_func id action = elim (catch_panic action) [
  | none ↦ none
  | some err ↦ some (service id err)
]

-- The loop over the error channel.
unfoldable pub map_loop :
    ManagerSync → List (Option Err) → List Report → ManagerSync × List (Option Err)
unfolding start_shutdown
map_loop s errs [] = (s, errs)
map_loop s errs (of_context _ ∷ reports) = map_loop s errs reports
map_loop s errs (of_value err i ∷ reports) =
    map_loop (start_shutdown s) (errs ++ some err ∷ []) reports

abbrev pub collect_if_any : List (Option Err) → Option Err
collect_if_any [] = none
collect_if_any (e ∷ es) = collect_services_errors (e ∷ es)

unfoldable pub map_services : ManagerSync → List Report → ManagerSync × Option Err
unfolding map_loop
map_services s reports = let (s', errs) = map_loop s [] reports in (s', collect_if_any errs)

unfoldable pub setup_services : ManagerSync → List Report → ManagerSync × Option Err
unfolding map_services
setup_services s reports = map_services s reports

-- The goroutine that runs the generic services.
unfoldable pub generic_services_run : ManagerSync → List Report → ManagerSync × Option Err
unfolding map_services start_shutdown
generic_services_run s reports =
    let (s', err) = map_services s reports in (if is_some err then start_shutdown s' else s', err)

-- getGrpcListener: one round of its loop is the context's error, if it has ended, and what
-- net.Listen gives. A bind error is tried again; the rounds are the fuel.
pub data Listen (L : Type 0) : Type 0 where
  ctx_ended : Err → Listen L
  listening : L → Listen L
  bind_error : Err → Listen L
  listen_error : Err → Listen L

-- `none` when the rounds run out; else the listener or the error.
pub data Got (L : Type 0) : Type 0 where
  got : L → Got L
  failed : Err → Got L

unfoldable pub get_grpc_listener : {L : Type 0} → List (Listen L) → Option (Got L)
get_grpc_listener [] = none
get_grpc_listener (ctx_ended e ∷ rounds) = some (failed e)
get_grpc_listener (listening l ∷ rounds) = some (got l)
get_grpc_listener (bind_error e ∷ rounds) = get_grpc_listener rounds
get_grpc_listener (listen_error e ∷ rounds) = some (failed e)

-- What runsComplete.Wait() ends with.
pub data WaitResult : Type 0 where
  wait_returned : Option Err → WaitResult
  wait_panicked : Recovered → WaitResult

-- The stretches of a run between the contexts that it cancels: up to the end of the setup, up to
-- the end of the run stage, up to the end of waiting for the resources, and up to the deferred
-- calls.
pub data Stretch : Type 0 where
  setting_up running releasing exiting : Stretch

-- The inputs of a run; `orders` is the number of calls of StartShutdown by other goroutines.
pub record Env : Type 0 where
  pub orders : Stretch → ℕ
  pub setup_reports : List Report
  pub generic_reports : List Report
  -- For each service at which the first map of runGrpcServices ran, whether it is a GrpcService;
  -- the reports of the registrations; what getGrpcListener gives: the error of its context, if the
  -- services' context has been cancelled by then, at the latest after 30 seconds; and how server.Serve ends, or gRPC panics before it.
  pub visited : List Bool
  pub register_reports : List Report
  pub listener : Got (Unit {0})
  pub serve : Outcome (Option Err)
  pub wait : WaitResult
  pub generic_written : Bool
  pub grpc_written : Bool
  pub resources_released : Bool

abbrev pub if_written : Bool → Option Err → Option Err
if_written true err = err
if_written false err = none

module _ (text : Err → Text) where
  -- fmt.Errorf with %w.
  abbrev errorf : Text → Err → Err
  errorf prefix err = wrapped (prefix ++ text err) err

  abbrev wrap_serve : Outcome (Option Err) → Outcome (Option Err)
  wrap_serve (panicked r) = panicked r
  wrap_serve (returned none) = returned none
  wrap_serve (returned (some err)) = returned (some (errorf (codes "error serving gRPC: ") err))

  abbrev serve_on : Got (Unit {0}) → Outcome (Option Err) → Outcome (Option Err)
  serve_on (failed err) serve = returned (some (errorf (codes "error getting tcp listener: ") err))
  serve_on (got _) serve = wrap_serve serve

  abbrev pub grpc_result : Env → Outcome (Option Err)
  grpc_result env =
      if any (λ is_grpc. is_grpc) env.visited
      then serve_on env.listener env.serve
      else returned none

  -- The error of the registrations is overwritten by that of getGrpcListener.
  unfoldable pub run_grpc_services : ManagerSync → Env → ManagerSync × Outcome (Option Err)
  unfolding map_services
  run_grpc_services s env =
      let (registered, _) = map_services s env.register_reports in
      (if any (λ is_grpc. is_grpc) env.visited then registered else s, grpc_result env)

  abbrev pub wrap_run : Option Err → Option Err
  wrap_run none = none
  wrap_run (some err) = some (errorf (codes "error running services: ") err)

  -- The end of runAllServices without its deferred StartShutdown.
  abbrev pub run_result : Option Err → Option Err → WaitResult → Outcome (Option Err)
  run_result generic_err grpc_err (wait_panicked r) = panicked r
  run_result generic_err grpc_err (wait_returned (some err)) =
      returned (some (errorf (codes "error waiting on service run return: ") err))
  run_result generic_err grpc_err (wait_returned none) =
      returned (wrap_run (collect_services_errors (generic_err ∷ grpc_err ∷ [])))

  unfoldable pub run_all_services : ManagerSync → Env → ManagerSync × Outcome (Option Err)
  unfolding generic_services_run run_grpc_services start_shutdown
  run_all_services s env =
      let (s', generic_err) = generic_services_run s env.generic_reports in
      let (s'', grpc) = run_grpc_services s' env in
      (
        start_shutdown s'',
        run_result (if_written env.generic_written generic_err)
            (if_written env.grpc_written (catch_panic grpc)) env.wait,
      )

  unfoldable pub wait_for_shutdown_complete : ManagerSync → Bool → ManagerSync × Option Err
  wait_for_shutdown_complete s true = (note listeners_cancelled s, none)
  wait_for_shutdown_complete s false = (s, some (errorf (codes "shutdown timed out: ") canceled))

  -- The deferred calls of Run: StartShutdown, then the close of shutdownComplete.
  abbrev pub deferred : ManagerSync → ManagerSync
  deferred s = note shutdown_complete (start_shutdown s)

  abbrev pub report : ManagerError → Option ManagerError
  report err = if has_errors err then some err else none

  -- After the run stage.
  abbrev pub finish :
      Env
      → Option Err
      → ManagerSync × Outcome (Option Err)
      → ManagerSync × Outcome (Option ManagerError)
  finish env setup_err (s, panicked r) =
      (deferred (start_shutdowns (env.orders exiting) s), panicked r)
  finish env setup_err (s, returned run_err) =
      let waiting = start_shutdowns (env.orders releasing) (note resources_cancelled s) in
      let (s', shutdown_err) = wait_for_shutdown_complete waiting env.resources_released in
      (
        deferred (start_shutdowns (env.orders exiting) s'),
        returned (
            report
              (record { setup_err = setup_err; run_err = run_err; shutdown_err = shutdown_err })),
      )

  -- The run stage is skipped after a setup error.
  abbrev pub run_stage : ManagerSync → Env → Option Err → ManagerSync × Outcome (Option Err)
  run_stage s env none = run_all_services s env
  run_stage s env (some err) = (s, returned none)

  unfoldable pub run : ManagerSync → Env → ManagerSync × Outcome (Option ManagerError)
  unfolding setup_services run_all_services wait_for_shutdown_complete start_shutdown
      start_shutdowns
  run s env =
      let (s', setup_err) =
        setup_services (start_shutdowns (env.orders setting_up) s) env.setup_reports in
      finish env setup_err (run_stage (start_shutdowns (env.orders running) s') env setup_err)

-- NewManager: the services of the manager, with the ping service last where it is wanted.
unfoldable pub new_manager_services : {S : Type 0} → Bool → S → List S → List S
new_manager_services add_ping_service ping services =
    if add_ping_service then services ++ ping ∷ [] else services

-- ===== src/Pkservices/Manager/Result.antt =====
-- What Run returns, and when getGrpcListener ends.
use g_rpeakec_go.Prelude.{
  ◌≡◌, ◌↔◌, refl, sym, ◌∙◌, true, Option, none, some, List, [], ◌∷◌, All, arith,
}
use g_rpeakec_go.Prelude.Text.{Text}
use g_rpeakec_go.Errors.{Err}
use g_rpeakec_go.Pkerr.Panic.{Outcome, returned, catch_panic}
use g_rpeakec_go.Pkservices.Report.{has_errors, collect_services_errors}
use g_rpeakec_go.Pkservices.Manager.{
  ManagerSync, setup_services, generic_services_run, map_services, Env, wait_returned,
  run_all_services, run_grpc_services, grpc_result, run, run_stage, wrap_run, if_written, finish,
  wait_for_shutdown_complete, Listen, ctx_ended, listening, bind_error, listen_error,
  get_grpc_listener, start_shutdowns, setting_up, running,
}
use g_rpeakec_go.Pkservices.Manager.Laws.{service_errs, map_services_errs}

module _ (text : Err → Text) (env : Env) where
  -- What runAllServices reads of its two results and collects.
  abbrev pub collected_run : Option Err
  collected_run = collect_services_errors (
      if_written env.generic_written (collect_services_errors (service_errs env.generic_reports))
      ∷ if_written env.grpc_written (catch_panic (grpc_result text env))
      ∷ [])

  finish-none_iff :
      (s : ManagerSync) (setup_err run_err : Option Err)
      → ((finish text env setup_err (s, returned run_err)).1 ≡ returned none)
        ↔ ((setup_err ≡ none) × (run_err ≡ none) × (env.resources_released ≡ true))
  unfolding wait_for_shutdown_complete has_errors
  finish-none_iff s none none = ground arith
  finish-none_iff s none (some e) = ground arith
  finish-none_iff s (some e) none = ground arith
  finish-none_iff s (some e) (some f) = ground arith

  wrap_run-none_iff : (err : Option Err) → (wrap_run text err ≡ none) ↔ (err ≡ none)
  wrap_run-none_iff none = ground arith
  wrap_run-none_iff (some e) = ground arith

  finish-pair_iff :
      (x : ManagerSync × Outcome (Option Err)) (setup_err run_err : Option Err)
      → x.1 ≡ returned run_err
      → ((finish text env setup_err x).1 ≡ returned none)
        ↔ ((setup_err ≡ none) × (run_err ≡ none) × (env.resources_released ≡ true))
  finish-pair_iff (s, o) setup_err run_err e = rw e (finish-none_iff s setup_err run_err)

  generic_services_run-errs :
      (s : ManagerSync)
      → (generic_services_run s env.generic_reports).1
        ≡ collect_services_errors (service_errs env.generic_reports)
  unfolding generic_services_run
  generic_services_run-errs s = map_services_errs s env.generic_reports

  run_stage-result :
      (s : ManagerSync)
      → env.wait ≡ wait_returned none
      → (run_stage text s env none).1 ≡ returned (wrap_run text collected_run)
  unfolding run_all_services run_grpc_services
  run_stage-result s waited = rw waited (rw (generic_services_run-errs s) refl)

  -- If Wait gives nil, Run returns nil exactly when nothing is collected from the errors that the
  -- services' setups reported, nothing is collected from the two run errors, where one that was
  -- not yet written when it was read counts as nil, and the resources were released in time.
  pub run-none_iff :
      (s : ManagerSync)
      → env.wait ≡ wait_returned none
      → ((run text s env).1 ≡ returned none) ↔ (
          (collect_services_errors (service_errs env.setup_reports) ≡ none)
          × (collected_run ≡ none)
          × (env.resources_released ≡ true))
  unfolding run setup_services
  run-none_iff s waited =
      let ordered = start_shutdowns (env.orders setting_up) s in
      let setup = map_services ordered env.setup_reports in
      by_setup (start_shutdowns (env.orders running) setup.0) setup.1
        (map_services_errs ordered env.setup_reports)
    where
      by_setup :
          (s' : ManagerSync) (setup_err : Option Err)
          → setup_err ≡ collect_services_errors (service_errs env.setup_reports)
          → ((finish text env setup_err (run_stage text s' env setup_err)).1 ≡ returned none) ↔ (
              (collect_services_errors (service_errs env.setup_reports) ≡ none)
              × (collected_run ≡ none)
              × (env.resources_released ≡ true))
      by_setup s' none q =
          let f =
            finish-pair_iff (run_stage text s' env none) none (wrap_run text collected_run)
              (run_stage-result s' waited) in
          let w = wrap_run-none_iff collected_run in
          (λ e. (sym q, w.0 (f.0 e).1, (f.0 e).2), λ e. f.1 (refl, w.1 e.1, e.2))
      by_setup s' (some e) q =
          let f = finish-pair_iff (run_stage text s' env (some e)) (some e) none refl in
          (λ r. cc (f.0 r).0, λ r. cc (q ∙ r.0))

-- A round of getGrpcListener that is tried again.
abbrev pub IsBind : {L : Type 0} → Listen L → Type 0
IsBind (bind_error e) = Unit
IsBind _ = ⊥

-- getGrpcListener goes on exactly as long as every round is a bind error under a living context:
-- one listener, one other error or the end of its context ends it.
pub get_grpc_listener-none_iff :
    {L : Type 0} (rounds : List (Listen L)) → (get_grpc_listener rounds ≡ none) ↔ All IsBind rounds
unfolding get_grpc_listener
get_grpc_listener-none_iff [] = (λ _. tt, λ _. refl)
get_grpc_listener-none_iff (ctx_ended e ∷ rounds) = (λ q. cc q, λ q. absurd q.0)
get_grpc_listener-none_iff (listening l ∷ rounds) = (λ q. cc q, λ q. absurd q.0)
get_grpc_listener-none_iff (bind_error e ∷ rounds) =
    let i = get_grpc_listener-none_iff rounds in (λ q. (tt, i.0 q), λ q. i.1 q.1)
get_grpc_listener-none_iff (listen_error e ∷ rounds) = (λ q. cc q, λ q. absurd q.0)

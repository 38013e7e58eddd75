-- ===== src/Pkservices/Log/Laws.antt =====
-- What is built for the errors that a stage has collected.
use g_rpeakec_go.Prelude.{
  ◌≡◌, refl, ap, sym, ◌∙◌, some, List, [], ◌∷◌, ◌++◌, map, append_assoc, append-nil,
}
use g_rpeakec_go.Prelude.Text.{Text}
use g_rpeakec_go.Errors.{Err, service}
use g_rpeakec_go.Pkservices.Report.{collect_loop, report_list, collect_services_errors}
use g_rpeakec_go.Pkservices.Report.Laws.{errs_to_list-of_list}
use g_rpeakec_go.Pkservices.Log.{Built, as_services, log_services_errors, log_stage}

-- The errors of services that have failed, by name.
abbrev pub failures : List (Text × Err) → List Err
failures fs = map (λ f. service f.0 f.1) fs

abbrev pub failure_events : Text → List (Text × Err) → List Built
failure_events stage fs = map (λ f. record { stage = stage; service_name = some f.0; err = f.1 }) fs

collect_loop-failures :
    (acc : List Err) (fs : List (Text × Err))
    → collect_loop acc (map some (failures fs)) ≡ acc ++ failures fs
unfolding collect_loop
collect_loop-failures acc [] = sym (append-nil acc)
collect_loop-failures acc ((id, e) ∷ fs) =
    collect_loop-failures (acc ++ service id e ∷ []) fs ∙ append_assoc acc _ _

log_services_errors-failures :
    (stage : Text) (fs : List (Text × Err))
    → log_services_errors stage (failures fs) ≡ failure_events stage fs
unfolding log_services_errors
log_services_errors-failures stage [] = refl
log_services_errors-failures stage (f ∷ fs) =
    ap (λ xs. record { stage = stage; service_name = some f.0; err = f.1 } ∷ xs)
      (log_services_errors-failures stage fs)

log_stage-report_list :
    (stage : Text) (fs : List (Text × Err))
    → log_stage stage (report_list (failures fs)) ≡ failure_events stage fs
unfolding report_list as_services
log_stage-report_list stage [] = refl
log_stage-report_list stage (f ∷ fs) =
    ap (log_services_errors stage) (errs_to_list-of_list (failures (f ∷ fs)))
    ∙ log_services_errors-failures stage (f ∷ fs)

-- The errors that the services of a stage have reported are collected so that an event is built for
-- each of them, in their order, with the service's name and its own error.
pub log_stage-collect_services_errors :
    (stage : Text) (fs : List (Text × Err))
    → log_stage stage (collect_services_errors (map some (failures fs))) ≡ failure_events stage fs
unfolding collect_services_errors
log_stage-collect_services_errors stage fs =
    ap (λ es. log_stage stage (report_list es)) (collect_loop-failures [] fs)
    ∙ log_stage-report_list stage fs

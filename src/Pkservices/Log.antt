-- ===== src/Pkservices/Log.antt =====
-- logErrors and logServicesErrors of pkservices/manager.go. Neither calls Msg or Send on an event of
-- zerolog, so what they do is to build these events.
use g_rpeakec_go.Prelude.{◌≡◌, Option, none, some, List, [], ◌∷◌, ◌++◌, map}
use g_rpeakec_go.Prelude.Text.{Text, codes}
use g_rpeakec_go.Errors.{
  Err, wrapped, panic_err, api, client, service, services, map_failed, source, Errs, errs_to_list,
}
use g_rpeakec_go.Pkservices.Report.{ManagerError}
pub mod Laws

-- `stageLogger.Err(err)`, with the field SERVICE for the errors of services.
pub record Built : Type 0 where
  pub stage : Text
  pub service_name : Option Text
  pub err : Err

-- errors.As with a *ServiceError and with a *ServicesErrors.
unfoldable pub as_service : Err → Option (Text × Err)
as_service (service id e) = some (id, e)
as_service (wrapped _ e) = as_service e
as_service (panic_err e) = as_service e
as_service (api _ _ (source e)) = as_service e
as_service (client e) = as_service e
as_service (map_failed e _) = as_service e
as_service _ = none

unfoldable pub as_services : Err → Option Errs
as_services (services es) = some es
as_services (wrapped _ e) = as_services e
as_services (panic_err e) = as_services e
as_services (api _ _ (source e)) = as_services e
as_services (client e) = as_services e
as_services (service _ e) = as_services e
as_services (map_failed e _) = as_services e
as_services _ = none

abbrev pub built_for : Text → Err → Option (Text × Err) → Built
built_for stage err none = record {
  stage = stage;
  service_name = some (codes "unknown");
  err = err;
}
built_for stage err (some (id, inner)) = record {
  stage = stage;
  service_name = some id;
  err = inner;
}

unfoldable pub log_services_errors : Text → List Err → List Built
unfolding as_service
log_services_errors stage errs = map (λ err. built_for stage err (as_service err)) errs

abbrev pub log_found : Text → Err → Option Errs → List Built
log_found stage err none = record { stage = stage; service_name = none; err = err } ∷ []
log_found stage err (some errs) = log_services_errors stage (errs_to_list errs)

abbrev pub log_stage : Text → Option Err → List Built
log_stage stage none = []
log_stage stage (some err) = log_found stage err (as_services err)

unfoldable pub log_errors : ManagerError → List Built
unfolding as_services log_services_errors
log_errors err =
    log_stage (codes "setup") err.setup_err
    ++ log_stage (codes "run") err.run_err
    ++ log_stage (codes "shutdown") err.shutdown_err

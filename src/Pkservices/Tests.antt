-- ===== src/Pkservices/Tests.antt =====
-- The theorems on the manager's options, errors and stages at concrete values.
mod Life
pub mod Harness
use g_rpeakec_go.Prelude.{ℕ, ◌≡◌, ◌↔◌, refl, true, false, Option, none, some, List, [], ◌∷◌, ◌++◌}
use g_rpeakec_go.Prelude.Int.{pos}
use g_rpeakec_go.Prelude.Text.{Text, codes}
use g_rpeakec_go.Errors.{Err}
use g_rpeakec_go.Pkerr.Panic.{returned}
use g_rpeakec_go.Pkmiddleware.Chain.{UnaryServerHandler, StreamServerHandler}
use g_rpeakec_go.Pksync.ConcurrentMap.{Report, of_value, of_context}
use g_rpeakec_go.Pkservices.Options.{GrpcLoggingOpts, ManagerOpts}
use g_rpeakec_go.Pkservices.Report.{collect_services_errors}
use g_rpeakec_go.Pkservices.Report.Laws.{collect_nested}
use g_rpeakec_go.Pkservices.Manager.{
  reset, Env, wait_returned, run, Listen, bind_error, listening, got,
}
use g_rpeakec_go.Pkservices.Manager.Laws.{service_errs}
use g_rpeakec_go.Pkservices.Manager.Result.{collected_run, run-none_iff}

abbrev Handler : Type 0
Handler = UnaryServerHandler ℕ ℕ ℕ (List ℕ)

abbrev StreamHandler : Type 0
StreamHandler = StreamServerHandler ℕ ℕ ℕ (List ℕ)

abbrev marking : ℕ → Handler → Handler
marking n next ctx req info = n ∷ next ctx req info

abbrev quiet : GrpcLoggingOpts
quiet = record {
  log_rpc_level = pos 0;
  log_req_level = pos 0;
  log_resp_level = pos 0;
  log_errors = true;
  error_trace = false;
}

-- The generator, the logger and gRPC's options are numbers.
abbrev opts : ManagerOpts Handler StreamHandler ℕ ℕ ℕ
opts = record {
  grpc_service_address = codes ":1";
  grpc_server_opts = [];
  grpc_stream_middleware = marking 3 ∷ [];
  grpc_unary_middleware = marking 3 ∷ marking 4 ∷ [];
  add_grpc_logging_middleware = true;
  add_err_not_found_middleware = true;
  grpc_logging_opts = quiet;
  max_shutdown_duration = pos 0;
  add_ping_service = true;
  err_generator = some 2;
  logger = 5;
}

abbrev not_found : Option ℕ → Handler → Handler
not_found gen = marking 1

abbrev logging : ℕ → GrpcLoggingOpts → Handler → Handler
logging logger logging_opts = marking logger

abbrev echo : ℕ → ℕ → List ℕ
echo ctx req = ctx ∷ req ∷ []

abbrev two_lines : Text
two_lines = codes "a\n\nb"

abbrev failure : Err
failure = Err.service (codes "db") (Err.foreign 1 (codes "down"))

abbrev results : List (Option Err)
results = none ∷ some failure ∷ []

abbrev reports : List Report
reports = of_context Err.canceled ∷ of_value failure 1 ∷ []

abbrev env : Env
env = record {
  orders = λ stretch. 1;
  setup_reports = [];
  generic_reports = reports;
  visited = false ∷ true ∷ [];
  register_reports = [];
  listener = got tt;
  serve = returned none;
  wait = wait_returned none;
  generic_written = true;
  grpc_written = true;
  resources_released = true;
}

abbrev no_text : Err → Text
no_text err = []

run-none_iff_example : ((run no_text reset env).1 ≡ returned none) ↔ (
    (collect_services_errors (service_errs []) ≡ none)
    × (collected_run no_text env ≡ none)
    × (env.resources_released ≡ true))
run-none_iff_example = run-none_iff no_text env reset refl

abbrev rounds : List (Listen ℕ)
rounds = bind_error (Err.foreign 2 []) ∷ listening 7 ∷ []

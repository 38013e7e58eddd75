-- ===== src/Pkservices/Options.antt =====
-- pkservices/managerOpts.go. The middleware are endomaps of the types of unary and stream handlers;
-- gRPC's server options are values of an unknown type.
pub mod Laws
use g_rpeakec_go.Prelude.{Bool, true, false, Option, none, some, List, [], ◌∷◌, ◌++◌, if◌then◌else◌}
use g_rpeakec_go.Prelude.Int.{ℤ, pos}
use g_rpeakec_go.Prelude.Text.{Text, codes}
use g_rpeakec_go.Pkmiddleware.Chain.{
  UnaryServerHandler, StreamServerHandler, new_unary_server_middleware_interceptor,
  new_stream_server_middleware_interceptor,
}

pub record GrpcLoggingOpts : Type 0 where
  pub log_rpc_level : ℤ
  pub log_req_level : ℤ
  pub log_resp_level : ℤ
  pub log_errors : Bool
  pub error_trace : Bool

-- `U` and `S` are the handlers' types, `G` the generator's, `L` the logger's, `O` the type of gRPC's
-- server options. A duration is in nanoseconds.
pub record ManagerOpts (U S G L O : Type 0) : Type 0 where
  pub grpc_service_address : Text
  pub grpc_server_opts : List O
  pub grpc_stream_middleware : List (S → S)
  pub grpc_unary_middleware : List (U → U)
  pub add_grpc_logging_middleware : Bool
  pub add_err_not_found_middleware : Bool
  pub grpc_logging_opts : GrpcLoggingOpts
  pub max_shutdown_duration : ℤ
  pub add_ping_service : Bool
  pub err_generator : Option G
  pub logger : L

-- zerolog's DebugLevel and Disabled.
abbrev default_logging : GrpcLoggingOpts
default_logging = record {
  log_rpc_level = pos 0;
  log_req_level = pos 8;
  log_resp_level = pos 8;
  log_errors = true;
  error_trace = true;
}

abbrev pub when {ℓ} : {A : Type ℓ} → Bool → A → List A
when true a = a ∷ []
when false a = []

abbrev pub of_generator : {G H : Type 0} → (G → H → H) → Option G → List (H → H)
of_generator convert none = []
of_generator convert (some gen) = convert gen ∷ []

module _ {U S G L O : Type 0} where
  -- The With methods write through the pointer and return it.
  unfoldable pub with_grpc_server_address : ManagerOpts U S G L O → Text → ManagerOpts U S G L O
  with_grpc_server_address opts address = record opts { grpc_service_address = address }

  unfoldable pub with_grpc_server_opts : ManagerOpts U S G L O → List O → ManagerOpts U S G L O
  with_grpc_server_opts opts grpc_opts = record opts {
    grpc_server_opts = opts.grpc_server_opts ++ grpc_opts;
  }

  unfoldable pub with_grpc_ping_service : ManagerOpts U S G L O → Bool → ManagerOpts U S G L O
  with_grpc_ping_service opts add_service = record opts { add_ping_service = add_service }

  unfoldable pub with_max_shutdown_duration : ManagerOpts U S G L O → ℤ → ManagerOpts U S G L O
  with_max_shutdown_duration opts max = record opts { max_shutdown_duration = max }

  unfoldable pub with_error_generator : ManagerOpts U S G L O → Option G → ManagerOpts U S G L O
  with_error_generator opts err_gen = record opts { err_generator = err_gen }

  unfoldable pub with_grpc_logging : ManagerOpts U S G L O → GrpcLoggingOpts → ManagerOpts U S G L O
  with_grpc_logging opts logging = record opts {
    add_grpc_logging_middleware = true;
    grpc_logging_opts = logging;
  }

  unfoldable pub without_grpc_logging : ManagerOpts U S G L O → ManagerOpts U S G L O
  without_grpc_logging opts = record opts { add_grpc_logging_middleware = false }

  -- The options that the pointer holds afterwards, and the pointer returned: nil.
  unfoldable pub with_grpc_unary_server_middleware :
      ManagerOpts U S G L O → List (U → U) → ManagerOpts U S G L O × Option (ManagerOpts U S G L O)
  with_grpc_unary_server_middleware opts middleware =
      (record opts { grpc_unary_middleware = opts.grpc_unary_middleware ++ middleware }, none)

  unfoldable pub with_grpc_stream_server_middleware :
      ManagerOpts U S G L O → List (S → S) → ManagerOpts U S G L O
  with_grpc_stream_server_middleware opts middleware = record opts {
    grpc_stream_middleware = opts.grpc_stream_middleware ++ middleware;
  }

  unfoldable pub with_err_not_found_middleware : ManagerOpts U S G L O → ManagerOpts U S G L O
  with_err_not_found_middleware opts = record opts { add_err_not_found_middleware = true }

  unfoldable pub with_logger : ManagerOpts U S G L O → L → ManagerOpts U S G L O
  with_logger opts logger = record opts { logger = logger }

  -- `no_logger` is zerolog's zero Logger.
  unfoldable pub new_manager_opts : L → ManagerOpts U S G L O
  new_manager_opts no_logger = record {
    grpc_service_address = codes "0.0.0.0:50051";
    grpc_server_opts = [];
    grpc_stream_middleware = [];
    grpc_unary_middleware = [];
    add_grpc_logging_middleware = true;
    add_err_not_found_middleware = false;
    grpc_logging_opts = default_logging;
    max_shutdown_duration = pos 30000000000;
    add_ping_service = true;
    err_generator = none;
    logger = no_logger;
  }

  -- `not_found` is NewErrNotFoundMiddleware, `convert` the generator's server middleware, and
  -- `logging` NewUnaryLoggingMiddleware or NewStreamLoggingMiddleware.
  unfoldable pub unary_middleware :
      (not_found : Option G → U → U) (convert : G → U → U) (logging : L → GrpcLoggingOpts → U → U)
      → ManagerOpts U S G L O
      → List (U → U)
  unary_middleware not_found convert logging opts =
      ((when opts.add_err_not_found_middleware (not_found opts.err_generator)
          ++ of_generator convert opts.err_generator)
        ++ opts.grpc_unary_middleware)
      ++ when opts.add_grpc_logging_middleware (logging opts.logger opts.grpc_logging_opts)

  unfoldable pub stream_middleware :
      (convert : G → S → S) (logging : L → GrpcLoggingOpts → S → S)
      → ManagerOpts U S G L O
      → List (S → S)
  stream_middleware convert logging opts =
      (of_generator convert opts.err_generator ++ opts.grpc_stream_middleware)
      ++ when opts.add_grpc_logging_middleware (logging opts.logger opts.grpc_logging_opts)

-- The interceptors that are made of these lists.
unfoldable pub create_unary_middleware_interceptor :
    {Ctx Req Info R S G L O : Type 0}
    → (not_found : Option G → UnaryServerHandler Ctx Req Info R → UnaryServerHandler Ctx Req Info R)
    → (convert : G → UnaryServerHandler Ctx Req Info R → UnaryServerHandler Ctx Req Info R)
    → (logging : L
        → GrpcLoggingOpts
        → UnaryServerHandler Ctx Req Info R
        → UnaryServerHandler Ctx Req Info R)
    → ManagerOpts (UnaryServerHandler Ctx Req Info R) S G L O
    → Ctx
    → Req
    → Info
    → (Ctx → Req → R)
    → R
unfolding unary_middleware
create_unary_middleware_interceptor not_found convert logging opts =
    new_unary_server_middleware_interceptor (unary_middleware not_found convert logging opts)

unfoldable pub create_stream_middleware_interceptor :
    {Srv Stream Info R U G L O : Type 0}
    → (convert : G → StreamServerHandler Srv Stream Info R → StreamServerHandler Srv Stream Info R)
    → (logging : L
        → GrpcLoggingOpts
        → StreamServerHandler Srv Stream Info R
        → StreamServerHandler Srv Stream Info R)
    → ManagerOpts U (StreamServerHandler Srv Stream Info R) G L O
    → Srv
    → Stream
    → Info
    → (Srv → Stream → R)
    → R
unfolding stream_middleware
create_stream_middleware_interceptor convert logging opts =
    new_stream_server_middleware_interceptor (stream_middleware convert logging opts)

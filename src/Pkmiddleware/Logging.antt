-- ===== src/Pkmiddleware/Logging.antt =====
-- pkmiddleware/logging.go. zerolog is not part of the repository: a logger is a value of an unknown
-- type, and an event that is sent is an entry. Whether zerolog writes the entry is its own affair.
pub mod Laws
pub mod Middleware
use g_rpeakec_go.Prelude.{
  ℕ, Bool, true, false, not, ◌&&◌, ◌||◌, Option, none, some, List, [], ◌∷◌, ◌++◌, if◌then◌else◌,
}
use g_rpeakec_go.Prelude.Int.{ℤ, leb_ℤ}
use g_rpeakec_go.Prelude.Text.{Text, codes}
use g_rpeakec_go.Errors.{Err, text_err}
use g_rpeakec_go.Pkerr.Panic.{Outcome, returned, panicked, a_value}

-- The fields that the middleware adds to a logger; `V` is the type of the messages.
pub data Field (V : Type 0) : Type 0 where
  grpc_method : Text → Field V
  method_kind : Text → Field V
  rpc_id : ℕ → Field V
  req : V → Field V
  resp : V → Field V
  message : V → Field V
  duration : ℕ → Field V

pub record Zerolog (V : Type 0) : Type 1 where
  pub Logger : Type 0
  pub get_level : Logger → ℤ
  -- `logger.With().….Logger()`, a field at a time
  pub with_field : Logger → Field V → Logger

module _ {V : Type 0} (z : Zerolog V) where
  open z use {Logger, get_level, with_field}

  -- `logger.WithLevel(level).Msg(text)`, and `logger.Error().Stack().Err(err).Msg(text)` with or
  -- without the stack.
  pub data Entry : Type 0 where
    at_level : Logger → ℤ → Text → Entry
    error_entry : Logger → (stack : Bool) → Err → Text → Entry

  pub record LoggingOpts : Type 0 where
    pub logger : Logger
    pub log_level : ℤ
    pub log_rpc : Bool
    pub log_req : Bool
    pub log_resp : Bool
    pub log_errors : Bool
    pub error_trace : Bool

  unfoldable pub setup_opts : Logger → (rpc req resp : ℤ) → (errors trace : Bool) → LoggingOpts
  setup_opts logger log_rpc_level log_req_level log_resp_level log_errors error_trace =
      let log_rpc = leb_ℤ (get_level logger) log_rpc_level in
      record {
        logger = logger;
        log_level = log_rpc_level;
        log_rpc = log_rpc;
        log_req = log_rpc && leb_ℤ (get_level logger) log_req_level;
        log_resp = log_rpc && leb_ℤ (get_level logger) log_resp_level;
        log_errors = log_errors;
        error_trace = error_trace;
      }

  -- The entry of buildErrEvent when it is sent.
  unfoldable pub build_err_event : Err → LoggingOpts → Logger → Text → Entry
  build_err_event err opts logger text = error_entry logger opts.error_trace err text

  -- The last part of logRPCMessage and of SendMsg and RecvMsg: an error entry where there is an
  -- error and errors are logged.
  abbrev send_entry : LoggingOpts → Logger → Option Err → Text → Text → Entry
  send_entry opts logger none failed text = at_level logger opts.log_level text
  send_entry opts logger (some err) failed text =
      if opts.log_errors
      then build_err_event err opts logger failed
      else at_level logger opts.log_level text

  -- `err == nil || !logErrors`
  abbrev pub no_error_logged : LoggingOpts → Option Err → Bool
  no_error_logged opts none = true
  no_error_logged opts (some err) = not opts.log_errors

  unfoldable pub log_rpc_message : Logger → LoggingOpts → ℕ → Option Err → List Entry
  unfolding build_err_event
  log_rpc_message rpc_logger opts elapsed err =
      if not opts.log_rpc && no_error_logged opts err
      then []
      else send_entry opts
          (if opts.log_rpc then with_field rpc_logger (duration elapsed) else rpc_logger) err []
          (codes "rpc completed")
        ∷ []

  -- `id` is the random RPC_ID.
  unfoldable pub create_method_logger : LoggingOpts → Text → Text → ℕ → Logger
  create_method_logger opts full_method kind id =
      with_field (with_field (with_field opts.logger (grpc_method full_method)) (method_kind kind))
        (rpc_id id)

  -- A context is what it holds under loggerContextKey.
  unfoldable pub add_logger_to_context : Option Logger → Logger → Option Logger
  add_logger_to_context ctx logger = some logger

  unfoldable pub logger_from_ctx : Option Logger → Outcome Logger
  logger_from_ctx (some logger) = returned logger
  logger_from_ctx none = panicked (
      a_value (
        codes
          "logger could not be extracted from context. Please make sure logging pkmiddleware is registered."))

  -- A handler's entries, and how it ended. A panic passes through: nothing more is logged.
  abbrev pub Logged {ℓ} : Type ℓ → Type ℓ
  Logged A = List Entry × Outcome A

  abbrev then_log : {A : Type 0} → Logged A → (A → List Entry) → Logged A
  then_log (entries, returned a) f = (entries ++ f a, returned a)
  then_log (entries, panicked r) f = (entries, panicked r)

  abbrev pub UnaryServerHandler : Type 0
  UnaryServerHandler = Option Logger → V → Text → Logged (V × Option Err)

  -- `elapsed` is the time that the call takes, and `id` the random number.
  unfoldable pub new_unary_logging_middleware_from_opts :
      LoggingOpts → (elapsed id : ℕ) → UnaryServerHandler → UnaryServerHandler
  unfolding create_method_logger log_rpc_message add_logger_to_context
  new_unary_logging_middleware_from_opts opts elapsed id next ctx req_value full_method =
      let method_logger = create_method_logger opts full_method (codes "unary") id in
      let rpc_logger =
        if opts.log_req then with_field method_logger (req req_value) else method_logger in
      then_log (next (add_logger_to_context ctx method_logger) req_value full_method) (λ result.
        log_rpc_message
          (if opts.log_resp then with_field rpc_logger (resp result.0) else rpc_logger) opts elapsed
          result.1)

  -- A server stream: its context, and what SendMsg and RecvMsg give for a message.
  pub record ServerStream : Type 0 where
    pub context : Option Logger
    pub send_msg : V → Option Err
    pub recv_msg : V → Option Err

  -- loggingServerStream.SendMsg and RecvMsg: `err` is what the wrapped stream gave.
  abbrev stream_entries : Bool → LoggingOpts → Logger → V → Option Err → Text → List Entry
  stream_entries logged opts logger m err text =
      if not logged && no_error_logged opts err
      then []
      else send_entry opts (if logged then with_field logger (message m) else logger) err text text
        ∷ []

  unfoldable pub logging_send_msg :
      LoggingOpts → Logger → ServerStream → V → List Entry × Option Err
  unfolding build_err_event
  logging_send_msg opts logger ss m =
      let err = ss.send_msg m in
      (stream_entries opts.log_resp opts logger m err (codes "send stream message"), err)

  unfoldable pub logging_recv_msg :
      LoggingOpts → Logger → ServerStream → V → List Entry × Option Err
  unfolding build_err_event
  logging_recv_msg opts logger ss m =
      let err = ss.recv_msg m in
      (stream_entries opts.log_req opts logger m err (codes "receive stream message"), err)

  -- What a handler sees of loggingServerStream.
  pub record LoggedStream : Type 0 where
    pub context : Option Logger
    pub send_msg : V → List Entry × Option Err
    pub recv_msg : V → List Entry × Option Err

  unfoldable pub new_stream_logging_middleware_from_opts :
      LoggingOpts
      → (elapsed id : ℕ) → (LoggedStream → Text → Logged (Option Err))
      → ServerStream
      → Text
      → Logged (Option Err)
  unfolding create_method_logger log_rpc_message add_logger_to_context logging_send_msg
      logging_recv_msg
  new_stream_logging_middleware_from_opts opts elapsed id next ss full_method =
      let rpc_logger = create_method_logger opts full_method (codes "stream") id in
      let opening =
        if opts.log_rpc
        then at_level rpc_logger opts.log_level (codes "opening stream") ∷ []
        else [] in
      let (entries, out) =
        then_log
          (next
            (record {
              context = add_logger_to_context ss.context rpc_logger;
              send_msg = logging_send_msg opts rpc_logger ss;
              recv_msg = logging_recv_msg opts rpc_logger ss;
            })
            full_method)
          (λ err. log_rpc_message rpc_logger opts elapsed err) in
      (opening ++ entries, out)

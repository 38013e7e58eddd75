-- ===== src/Pkmiddleware/Logging/Laws.antt =====
-- The logging middleware changes no result, and logs what its options say.
use g_rpeakec_go.Prelude.{
  ℕ, ◌≡◌, refl, Bool, true, false, not, ◌||◌, Option, none, some, List, ◌++◌, length, arith,
}
use g_rpeakec_go.Prelude.Int.{ℤ, ◌≤ℤ◌}
use g_rpeakec_go.Prelude.Text.{Text, codes}
use g_rpeakec_go.Errors.{Err}
use g_rpeakec_go.Pkerr.Panic.{returned}
use g_rpeakec_go.Pkmiddleware.Logging.{
  Zerolog, Entry, LoggingOpts, setup_opts, log_rpc_message, no_error_logged, UnaryServerHandler,
  create_method_logger, add_logger_to_context, ServerStream, logging_send_msg, logging_recv_msg,
  new_unary_logging_middleware_from_opts,
}

module _ {V : Type 0} (z : Zerolog V) where
  -- A level that is not below the logger's does not switch the logging of requests and responses
  -- off: with it the request and the response are logged exactly where the call is.
  pub setup_opts_never :
      (logger : z.Logger) (rpc never : ℤ) (errors trace : Bool)
      → z.get_level logger ≤ℤ never
      → ((setup_opts z logger rpc never never errors trace).log_req
          ≡ (setup_opts z logger rpc never never errors trace).log_rpc)
        × ((setup_opts z logger rpc never never errors trace).log_resp
            ≡ (setup_opts z logger rpc never never errors trace).log_rpc)
  unfolding setup_opts
  setup_opts_never logger rpc never errors trace below = ground arith

  -- Whether logRPCMessage sends an entry.
  abbrev pub sends : LoggingOpts z → Bool → Option Err → Bool
  sends opts on err = on || not (no_error_logged z opts err)

  abbrev pub one_if : Bool → ℕ
  one_if true = 1
  one_if false = 0

  length-log_rpc_message :
      (logger : z.Logger) (opts : LoggingOpts z) (elapsed : ℕ) (err : Option Err)
      → length (log_rpc_message z logger opts elapsed err) ≡ one_if (sends opts opts.log_rpc err)
  unfolding log_rpc_message
  length-log_rpc_message logger opts elapsed none = ground arith
  length-log_rpc_message logger opts elapsed (some e) = ground arith

  module _ (opts : LoggingOpts z) (elapsed id : ℕ) (next : UnaryServerHandler z)
      (ctx : Option z.Logger) (req : V) (method : Text) where
    -- The context that the handler gets.
    abbrev pub inner_ctx : Option z.Logger
    inner_ctx = add_logger_to_context z ctx (create_method_logger z opts method (codes "unary") id)

    -- For a handler that returns, the unary logging middleware returns its response and its error.
    -- Behind the handler's entries it sends one entry if calls are logged, or the call failed and
    -- errors are logged, and none else.
    pub unary_logging_returns :
        (entries : List (Entry z)) (resp : V) (err : Option Err)
        → next inner_ctx req method ≡ (entries, returned (resp, err))
        → (own : List (Entry z)) × (new_unary_logging_middleware_from_opts z opts elapsed id next
              ctx req method
            ≡ (entries ++ own, returned (resp, err)))
          × (length own ≡ one_if (sends opts opts.log_rpc err))
    unfolding new_unary_logging_middleware_from_opts
    unary_logging_returns entries resp err ran =
        rw ran (_, refl, length-log_rpc_message _ opts elapsed err)

  -- SendMsg and RecvMsg of a logged stream return the error of the stream below, and send one
  -- entry if the messages of that direction are logged, or the call failed and errors are logged,
  -- and none else.
  pub stream_logging_transparent :
      (opts : LoggingOpts z) (logger : z.Logger) (ss : ServerStream z) (m : V)
      → ((logging_send_msg z opts logger ss m).1 ≡ ss.send_msg m)
        × (length (logging_send_msg z opts logger ss m).0
            ≡ one_if (sends opts opts.log_resp (ss.send_msg m)))
        × ((logging_recv_msg z opts logger ss m).1 ≡ ss.recv_msg m)
        × (length (logging_recv_msg z opts logger ss m).0
            ≡ one_if (sends opts opts.log_req (ss.recv_msg m)))
  unfolding logging_send_msg logging_recv_msg
  stream_logging_transparent opts logger ss m = (refl, ground arith, refl, ground arith)

-- ===== src/Pkmiddleware/Logging/Middleware.antt =====
-- The middleware that pkmiddleware/logging.go exports.
use g_rpeakec_go.Prelude.{ℕ, Bool, Option}
use g_rpeakec_go.Prelude.Int.{ℤ}
use g_rpeakec_go.Prelude.Text.{Text}
use g_rpeakec_go.Errors.{Err}
use g_rpeakec_go.Pkmiddleware.Logging.{
  Zerolog, Logged, LoggedStream, ServerStream, UnaryServerHandler, setup_opts,
  new_unary_logging_middleware_from_opts, new_stream_logging_middleware_from_opts,
}

module _ {V : Type 0} (z : Zerolog V) where
  open z use {Logger}

  -- A middleware, for the time that a call takes and its random number.
  abbrev UnaryMiddleware : Type 0
  UnaryMiddleware = (elapsed id : ℕ) → UnaryServerHandler z → UnaryServerHandler z

  abbrev StreamMiddleware : Type 0
  StreamMiddleware =
      (elapsed id : ℕ)
      → (LoggedStream z → Text → Logged z (Option Err))
      → ServerStream z
      → Text
      → Logged z (Option Err)

  unfoldable new_unary_logging_middleware :
      Logger → (rpc req resp : ℤ) → (errors trace : Bool) → UnaryMiddleware
  unfolding setup_opts new_unary_logging_middleware_from_opts
  new_unary_logging_middleware logger rpc req resp errors trace =
      new_unary_logging_middleware_from_opts z (setup_opts z logger rpc req resp errors trace)

  unfoldable new_stream_logging_middleware :
      Logger → (rpc req resp : ℤ) → (errors trace : Bool) → StreamMiddleware
  unfolding setup_opts new_stream_logging_middleware_from_opts
  new_stream_logging_middleware logger rpc req resp errors trace =
      new_stream_logging_middleware_from_opts z (setup_opts z logger rpc req resp errors trace)

  unfoldable new_logging_middleware :
      Logger → (rpc req resp : ℤ) → (errors trace : Bool) → UnaryMiddleware × StreamMiddleware
  unfolding setup_opts new_unary_logging_middleware_from_opts
      new_stream_logging_middleware_from_opts
  new_logging_middleware logger rpc req resp errors trace =
      let opts = setup_opts z logger rpc req resp errors trace in
      (
        new_unary_logging_middleware_from_opts z opts,
        new_stream_logging_middleware_from_opts z opts,
      )

-- ===== src/Pkmiddleware/Tests.antt =====
-- The theorems on chains and on logging at concrete middleware and loggers.
use g_rpeakec_go.Prelude.{ℕ, ◌+◌, ◌≡◌, true, false, Option, none, some, List, [], ◌∷◌, ◌++◌}
use g_rpeakec_go.Prelude.Int.{ℤ, pos}
use g_rpeakec_go.Prelude.Text.{Text, codes}
use g_rpeakec_go.Errors.{Err}
use g_rpeakec_go.Pkerr.Panic.{returned}
use g_rpeakec_go.Pkmiddleware.Chain.{wrap_all, UnaryServerHandler}
use g_rpeakec_go.Pkmiddleware.Chain.Laws.{tracing_all, way_in, way_out, wrap_all_order}
use g_rpeakec_go.Pkmiddleware.Logging.{Zerolog, Field, LoggingOpts, ServerStream, Logged}

abbrev Handler : Type 0
Handler = UnaryServerHandler ℕ ℕ ℕ (List ℕ)

abbrev adding : ℕ → Handler → Handler
adding n next ctx req info = n ∷ next ctx (req + n) info

abbrev echo : ℕ → ℕ → List ℕ
echo ctx req = ctx ∷ req ∷ []

-- What two middleware note before and after.
abbrev notes : List (ℕ × ℕ)
notes = (1, 2) ∷ (3, 4) ∷ []

abbrev noting : List ℕ → List ℕ
noting log = log ++ 9 ∷ []

wrap_all_order_example :
    wrap_all (tracing_all notes) noting (0 ∷ [])
    ≡ noting ((0 ∷ []) ++ way_in notes) ++ way_out notes
wrap_all_order_example = wrap_all_order notes noting (0 ∷ [])

-- Messages are numbers, and a logger is its level and its fields.
abbrev small_zerolog : Zerolog ℕ
small_zerolog = record {
  Logger = ℤ × List (Field ℕ);
  get_level = λ l. l.0;
  with_field = λ l f. (l.0, f ∷ l.1);
}

abbrev debug_logger : ℤ × List (Field ℕ)
debug_logger = (pos 0, [])

abbrev errors_only : LoggingOpts small_zerolog
errors_only = record {
  logger = debug_logger;
  log_level = pos 0;
  log_rpc = false;
  log_req = false;
  log_resp = false;
  log_errors = true;
  error_trace = false;
}

abbrev failure : Err
failure = Err.foreign 1 (codes "no")

abbrev failing : Option (ℤ × List (Field ℕ)) → ℕ → Text → Logged small_zerolog (ℕ × Option Err)
failing ctx req method = ([], returned (req, some failure))

abbrev broken_stream : ServerStream small_zerolog
broken_stream = record { context = none; send_msg = λ m. some failure; recv_msg = λ m. none }

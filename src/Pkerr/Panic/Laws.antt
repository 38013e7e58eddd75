-- ===== src/Pkerr/Panic/Laws.antt =====
-- What CatchPanic reports.
use g_rpeakec_go.Prelude.{◌≡◌, ◌↔◌, ◌⊎◌, Option, none, some, arith}
use g_rpeakec_go.Errors.{Err}
use g_rpeakec_go.Pkerr.Panic.{nothing, an_error, a_value, Outcome, returned, panicked, catch_panic}

-- CatchPanic returns nil exactly when the function returned nil or panicked with a nil value: a
-- `panic(nil)` is lost.
pub catch_panic-none_iff :
    (o : Outcome (Option Err))
    → (catch_panic o ≡ none) ↔ ((o ≡ returned none) ⊎ (o ≡ panicked nothing))
unfolding catch_panic
catch_panic-none_iff (returned none) = ground arith
catch_panic-none_iff (returned (some e)) = ground arith
catch_panic-none_iff (panicked nothing) = ground arith
catch_panic-none_iff (panicked (an_error e)) = ground arith
catch_panic-none_iff (panicked (a_value t)) = ground arith

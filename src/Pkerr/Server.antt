-- ===== src/Pkerr/Server.antt =====
-- pkerr/generatorMiddleware.go on the server's side, and pkerr/notFoundMiddleware.go.
-- A handler takes an input (context, request and info; for a stream: srv, stream and info) and is
-- Go code with two results, the response (`none` is nil) and the error.
pub mod Laws
pub mod NotFound
use g_rpeakec_go.Prelude.{ℕ, Bool, true, false, Option, none, some, []}
use g_rpeakec_go.Prelude.Text.{codes}
use g_rpeakec_go.Errors.{Err, text_err, Heap, no_source}
use g_rpeakec_go.Errors.Show.{error_text}
use g_rpeakec_go.Pkerr.Panic.{Recovered, an_error, Outcome, returned, panicked, catch_panic}
use g_rpeakec_go.Pkerr.Go.{Go, ◌>>=◌, return, panic, get_heap}
use g_rpeakec_go.Pkerr.ApiError.{World, ApiErr, as_err, new_api_err_basic}
use g_rpeakec_go.Pkerr.Generator.{ErrorGenerator, new_err, err_to_api_err}
use g_rpeakec_go.Pkerr.Status.{StatusApi}

abbrev pub UnaryHandler : Type 0 → Type 0 → Type 0
UnaryHandler I R = I → Go (Option R × Option Err)

abbrev pub StreamHandler : Type 0 → Type 0
StreamHandler I = I → Go (Option Err)

module _ (g : StatusApi) (w : World) (gen : ErrorGenerator) (err_unknown : ℕ) where
  open g use {Status, new_status, with_details, to_err}

  abbrev pub or_else : Status → Option Status → Status
  or_else s none = s
  or_else s (some t) = t

  unfoldable pub err_to_status : Err → Go (Option Err)
  err_to_status src = do
    e ← err_to_api_err gen w err_unknown src
    h ← get_heap
    let p = h.proto_at e.address
    let this_status = new_status p.grpc_code (error_text w.status_code_text h (as_err e))
    return (to_err (or_else this_status (with_details this_status p)))

  -- The deferred function: a nil error stays nil.
  abbrev convert_err : Option Err → Go (Option Err)
  convert_err none = return none
  convert_err (some err) = err_to_status err

  -- `resp` is still nil when the handler panics; CatchPanic's result is `err`.
  abbrev pub unary_caught {ℓ} :
      {R : Type ℓ} → Outcome (Option R × Option Err) → Option R × Option Err
  unary_caught (returned (resp, err)) = (resp, catch_panic (returned err))
  unary_caught (panicked r) = (none, catch_panic (panicked r))

  unfoldable pub unary_server_middleware : {I R : Type 0} → UnaryHandler I R → UnaryHandler I R
  unfolding err_to_status
  unary_server_middleware next i h =
      let (h', out) = next i h in
      let (resp, err) = unary_caught out in (do err' ← convert_err err; return (resp, err')) h'

  unfoldable pub stream_server_middleware : {I : Type 0} → StreamHandler I → StreamHandler I
  unfolding err_to_status
  stream_server_middleware next i h = let (h', out) = next i h in convert_err (catch_panic out) h'

abbrev pub is_nil_of_zero_value : Recovered
is_nil_of_zero_value =
    an_error (text_err (codes "reflect: call of reflect.Value.IsNil on zero Value"))

abbrev pub is_nil_of_other_kind : Recovered
is_nil_of_other_kind = an_error (text_err (codes "reflect: call of reflect.Value.IsNil"))

abbrev pub nil_dereference : Recovered
nil_dereference =
    an_error (text_err (codes "runtime error: invalid memory address or nil pointer dereference"))

-- NewErrNotFoundMiddleware. `is_nil` is reflect.ValueOf(resp).IsNil() for a response with a type;
-- it is `none` for a kind that has no nil, where the call panics. It panics too for the nil
-- interface value. Without a generator (nil), NewErr makes the error and panics at the settings.
module _ {R : Type 0} (w : World) (is_nil : R → Option Bool) (err_not_found : ℕ) where
  new_not_found : Option ErrorGenerator → Go ApiErr
  new_not_found (some gen) = new_err gen w err_not_found [] [] no_source
  new_not_found none = do
    _ ← new_api_err_basic w err_not_found [] [] no_source
    panic nil_dereference

  not_found_if : Option ErrorGenerator → Option R → Bool → Go (Option R × Option Err)
  not_found_if gen resp false = return (resp, none)
  not_found_if gen resp true = do e ← new_not_found gen; return (none, some (as_err e))

  check_kind : Option ErrorGenerator → Option R → Option Bool → Go (Option R × Option Err)
  check_kind gen resp none = panic is_nil_of_other_kind
  check_kind gen resp (some nil) = not_found_if gen resp nil

  check_response : Option ErrorGenerator → Option R × Option Err → Go (Option R × Option Err)
  check_response gen (resp, some err) = return (resp, some err)
  check_response gen (none, none) = panic is_nil_of_zero_value
  check_response gen (some r, none) = check_kind gen (some r) (is_nil r)

  unfoldable pub err_not_found_middleware :
      {I : Type 0} → Option ErrorGenerator → UnaryHandler I R → UnaryHandler I R
  unfolding new_not_found not_found_if check_kind check_response
  err_not_found_middleware gen next i = do result ← next i; check_response gen result

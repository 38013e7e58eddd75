-- ===== src/Pkerr/Client.antt =====
-- pkerr/generatorMiddleware.go on the client's side: a status that carries an *Error becomes an
-- APIError with one more frame.
use g_rpeakec_go.Prelude.{suc, Option, none, some, List, [], ◌∷◌, ◌++◌, update, if◌then◌else◌}
use g_rpeakec_go.Errors.{Err, api, client, source, Proto, TraceInfo}
use g_rpeakec_go.Pkerr.Panic.{returned}
use g_rpeakec_go.Pkerr.Go.{Go, ◌>>=◌, return}
use g_rpeakec_go.Pkerr.ApiError.{World}
use g_rpeakec_go.Pkerr.Generator.{ErrorGenerator}
use g_rpeakec_go.Pkerr.Status.{Detail, error_detail, other_detail, StatusApi}

-- The loop over the details: the first *Error.
unfoldable pub first_error : List Detail → Option Proto
first_error [] = none
first_error (error_detail p ∷ ds) = some p
first_error (other_detail _ ∷ ds) = first_error ds

module _ (g : StatusApi) (w : World) (gen : ErrorGenerator) where
  open g use {Status, from_error, details}

  unfoldable pub this_trace_info : TraceInfo
  this_trace_info = record {
    app_name = gen.app_name;
    app_host = gen.app_host;
    stack_trace = if gen.add_stack_trace then w.stack else [];
    additional_context = [];
  }

  -- The *Error comes out of Details as a new value, with this caller's frame appended.
  extract_detail : Err → Option Proto → Go Err
  extract_detail err none = return err
  extract_detail err (some p) = λ h. (
    record h {
      proto_at = update h.proto_at h.next (record p { trace = p.trace ++ this_trace_info ∷ [] });
      next = suc h.next;
    },
    returned (api h.next none (source (client err))),
  )

  extract_status : Err → Option Status → Go Err
  extract_status err none = return err
  extract_status err (some s) = extract_detail err (first_error (details s))

  abbrev wrap_some : Err → Go (Option Err)
  wrap_some err = do e ← extract_status err (from_error err); return (some e)

  unfoldable pub extract_client_error_from_invoker : Option Err → Go (Option Err)
  unfolding first_error this_trace_info extract_detail extract_status
  extract_client_error_from_invoker none = return none
  extract_client_error_from_invoker (some err) = wrap_some err

  unfoldable pub unary_client_middleware :
      {I R : Type 0} → (I → Go (R × Option Err)) → I → Go (R × Option Err)
  unfolding extract_client_error_from_invoker
  unary_client_middleware next i = do
    (reply, err) ← next i
    err' ← extract_client_error_from_invoker err
    return (reply, err')

  -- clientStream.RecvMsg around the RecvMsg of the embedded stream.
  unfoldable pub client_stream_recv_msg : {M : Type 0} → (M → Go (Option Err)) → M → Go (Option Err)
  unfolding extract_client_error_from_invoker
  client_stream_recv_msg recv_msg m = do err ← recv_msg m; extract_client_error_from_invoker err

  -- A stream is given by its RecvMsg; on an error there is none.
  abbrev wrap_stream :
      {M : Type 0}
      → (M → Go (Option Err)) × Option Err
      → Go (Option (M → Go (Option Err)) × Option Err)
  wrap_stream (recv_msg, some err) = return (none, some err)
  wrap_stream (recv_msg, none) = return (some (client_stream_recv_msg recv_msg), none)

  unfoldable pub stream_client_middleware :
      {I M : Type 0}
      → (I → Go ((M → Go (Option Err)) × Option Err))
      → I
      → Go (Option (M → Go (Option Err)) × Option Err)
  stream_client_middleware next i = do opened ← next i; wrap_stream opened

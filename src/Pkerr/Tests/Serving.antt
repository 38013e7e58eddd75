-- ===== src/Pkerr/Tests/Serving.antt =====
-- The theorems on the middleware of the server and the client at the small status package.
use g_rpeakec_go.Prelude.{
  ℕ, ◌≡◌, ◌≢◌, refl, ap, sym, ◌==◌, Bool, true, Option, none, some, [], ◌∷◌, ◌++◌, arith,
}
use g_rpeakec_go.Prelude.Text.{Text, codes, text_eq}
use g_rpeakec_go.Errors.{Err, Proto, Heap, source}
use g_rpeakec_go.Pkerr.Panic.{Outcome, returned, panicked, a_value}
use g_rpeakec_go.Pkerr.ApiError.{ApiErr, as_err}
use g_rpeakec_go.Errors.Show.{error_text, sentinel_text}
use g_rpeakec_go.Errors.Chain.{as_sentinel, as_api, errors_is}
use g_rpeakec_go.Pkerr.Generator.{
  set_last, add_context, new_err, err_to_api_err, err_to_api_err_convert_type,
}
use g_rpeakec_go.Pkerr.Status.{StatusApi}
use g_rpeakec_go.Pkerr.Server.{UnaryHandler, or_else, unary_server_middleware, err_to_status}
use g_rpeakec_go.Pkerr.Server.Laws.{
  IsStatusOf, unary_server_middleware_error, unary_server_middleware_lost,
}
use g_rpeakec_go.Pkerr.Generator.Total.{IsTraced, identity, owed_identity}
use g_rpeakec_go.Pkerr.Client.{this_trace_info}
use g_rpeakec_go.Pkerr.Rpc.{received, rpc_round_trip}
use g_rpeakec_go.Pkerr.Tests.{
  sample_world, sample_heap, full_generator, quiet_generator, wrapped_sentinel, not_found_sentinel,
  sample_proto,
}
use g_rpeakec_go.Pkerr.Tests.SmallStatus.{SmallStatus, status_to_err, attach, small_status}

abbrev Item : Type 0
Item = ℕ

-- A handler that fails with a wrapped sentinel, one that fails with an error whose code is OK,
-- one that finds nothing, and one that returns no response at all.
abbrev failing : UnaryHandler (Unit {0}) Item
failing _ h = (h, returned (none, some wrapped_sentinel))

abbrev missing : UnaryHandler (Unit {0}) Item
missing _ h = (h, returned (some 0, none))

abbrev silent : UnaryHandler (Unit {0}) Item
silent _ h = (h, returned (none, none))

abbrev is_zero_item : Item → Option Bool
is_zero_item n = some (n == 0)

IsTraced-wrapped : IsTraced sample_heap wrapped_sentinel
IsTraced-wrapped p s inner e = cc

owed_wrapped : owed_identity sample_heap 2 wrapped_sentinel ≡ (5, 1001, codes "APP")
unfolding as_sentinel as_api
owed_wrapped = refl

not_ok : (owed_identity sample_heap 2 wrapped_sentinel).0 ≢ 0
not_ok e = absurd (omega (arith, e, ap (λ (x : ℕ × ℕ × Text). x.0) owed_wrapped))

abbrev small : StatusApi
small = small_status sample_proto

-- A handler that panics with a text.
abbrev panicking : UnaryHandler (Unit {0}) Item
panicking _ h = (h, panicked (a_value (codes "boom")))

abbrev boom : Err
boom = Err.panic_val (codes "boom")

IsTraced-boom : IsTraced sample_heap boom
unfolding as_api
IsTraced-boom p s inner e = cc

owed_boom : (owed_identity sample_heap 2 boom).0 ≢ 0
unfolding as_sentinel as_api
owed_boom e = absurd (omega (arith, e))

unary_server_middleware_error_example :
    (h' : Heap) × (e : Err) × (s : small.Status) × (unary_server_middleware small sample_world
        full_generator 2 panicking tt sample_heap
      ≡ (h', returned (none, some e)))
    × (small.from_error e ≡ some s)
    × (small.code s ≡ (owed_identity sample_heap 2 boom).0)
unary_server_middleware_error_example =
    unary_server_middleware_error small sample_world full_generator 2 panicking tt sample_heap none
      boom (refl, refl) IsTraced-boom owed_boom

-- A handler that fails with an error whose sentinel has the code OK.
abbrev ok_heap : Heap
ok_heap = record sample_heap { sentinel_at = λ _. record not_found_sentinel { grpc_code = 0 } }

IsTraced-ok : IsTraced ok_heap wrapped_sentinel
IsTraced-ok p s inner e = cc

owed_ok : (owed_identity ok_heap 2 wrapped_sentinel).0 ≡ 0
unfolding as_sentinel as_api
owed_ok = refl

unary_server_middleware_lost_example :
    (unary_server_middleware small sample_world full_generator 2 failing tt ok_heap).1
    ≡ returned (none, none)
unary_server_middleware_lost_example =
    unary_server_middleware_lost small sample_world full_generator 2 failing tt ok_heap none
      wrapped_sentinel (refl, refl) IsTraced-ok owed_ok

-- What the server sends for the wrapped sentinel.
abbrev converted_heap : Heap
converted_heap = (err_to_api_err full_generator sample_world 2 wrapped_sentinel sample_heap).0

abbrev wire : Proto
wire = converted_heap.proto_at 10

abbrev sent_error : ApiErr
sent_error = record { address = 10; made_from = some 1; cause = source wrapped_sentinel }

abbrev sent_status : SmallStatus
sent_status = (5, error_text sample_world.status_code_text converted_heap (as_err sent_error), 1)

sent-converts :
    err_to_api_err full_generator sample_world 2 wrapped_sentinel sample_heap
    ≡ (converted_heap, returned sent_error)
unfolding err_to_status err_to_api_err err_to_api_err_convert_type as_sentinel as_api new_err
    set_last add_context text_eq error_text sentinel_text
sent-converts = refl

sent-runs :
    err_to_status (small_status wire) sample_world full_generator 2 wrapped_sentinel sample_heap
    ≡ (converted_heap, returned (status_to_err sent_status))
unfolding err_to_status err_to_api_err err_to_api_err_convert_type as_sentinel as_api new_err
    set_last add_context text_eq error_text sentinel_text
sent-runs = refl

sent-identity : identity wire ≡ owed_identity sample_heap 2 wrapped_sentinel
unfolding err_to_status err_to_api_err err_to_api_err_convert_type as_sentinel as_api new_err
    set_last add_context text_eq error_text sentinel_text
sent-identity = refl

sent-built :
    sent_status
    ≡ or_else
        (small_status wire)
        sample_world
        full_generator
        2
        (
          wire.grpc_code,
          error_text sample_world.status_code_text converted_heap (as_err sent_error),
          0,
        )
        (attach (
          wire.grpc_code,
          error_text sample_world.status_code_text converted_heap (as_err sent_error),
          0,
        ))
unfolding err_to_status err_to_api_err err_to_api_err_convert_type as_sentinel as_api new_err
    set_last add_context text_eq error_text sentinel_text
sent-built = refl

abbrev sent_status-IsStatusOf :
    IsStatusOf
      (small_status wire)
      sample_world
      full_generator
      2
      wrapped_sentinel
      sample_heap
      sent_status
sent_status-IsStatusOf = record {
  converted = sent_error;
  result = converted_heap;
  converts = sent-converts;
  runs = sent-runs;
  has_code = ap (λ (x : ℕ × ℕ × Text). x.0) (sym owed_wrapped);
  has_identity = sent-identity;
  built = sent-built;
}

-- A client with a generator of its own takes it in; its sentinel at 4 is the same one.
abbrev status_error : Err
status_error = Err.foreign 1 (4 ∷ sent_status.1)

abbrev result : Heap × Outcome (Option Err)
result =
    received (small_status wire) sample_world sample_world full_generator quiet_generator 2
      wrapped_sentinel sample_heap sample_heap sent_status sent_status-IsStatusOf status_error 4

rpc_round_trip_example :
    (result.1 ≡ returned (some (Err.api 10 none (source (Err.client status_error)))))
    × (errors_is result.0 (Err.api 10 none (source (Err.client status_error))) (Err.sentinel 4)
        ≡ true)
    × ((result.0.proto_at 10).trace
        ≡ wire.trace ++ this_trace_info (small_status wire) sample_world quiet_generator ∷ [])
    × (identity (result.0.proto_at 10) ≡ owed_identity sample_heap 2 wrapped_sentinel)
rpc_round_trip_example =
    rpc_round_trip (small_status wire) sample_world sample_world full_generator quiet_generator 2
      wrapped_sentinel sample_heap sample_heap sent_status sent_status-IsStatusOf status_error 4
      refl refl not_ok (sym (ap (λ (x : ℕ × ℕ × Text). x.1) owed_wrapped))
      (sym (ap (λ (x : ℕ × ℕ × Text). x.2) owed_wrapped))

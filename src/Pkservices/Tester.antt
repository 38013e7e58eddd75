-- ===== src/Pkservices/Tester.antt =====
-- pkservices/managerTester.go: the harness for tests of a manager. gRPC's client and what testify
-- tests are parameters; a failed call of FailNow or Fatalf ends the goroutine of the test, after
-- the deferred calls.
pub mod Laws
pub mod Start
use g_rpeakec_go.Prelude.{
  Bool, true, false, Option, none, some, List, [], ◌∷◌, ◌++◌, map, if◌then◌else◌,
}
use g_rpeakec_go.Prelude.Text.{Text, codes}
use g_rpeakec_go.Errors.{Err, Heap, canceled}
use g_rpeakec_go.Pkerr.Status.{StatusApi}
use g_rpeakec_go.Pkmiddleware.Chain.{
  UnaryClientHandler, StreamClientHandler, new_unary_client_middleware_interceptor,
  new_stream_client_middleware_interceptor,
}
use g_rpeakec_go.Pkclients.{wait_for_grpc_server}
use g_rpeakec_go.Pkservices.Services.{UserServices, Service, is_grpc_service, Manager}

-- gRPC's client, with the client middleware of an error generator of type `G`; assert.NoError and
-- assert.True of testify; and the context that PingGrpcServer makes when it is given nil.
pub record Client (G : Type 0) : Type 1 where
  pub Ctx : Type 0
  pub Conn : Type 0
  pub DialOption : Type 0
  pub Request : Type 0
  pub Reply : Type 0
  pub CallOptions : Type 0
  pub Desc : Type 0
  pub Replied : Type 0
  pub Streamed : Type 0
  pub unary_client_middleware :
      G
      → UnaryClientHandler Ctx Text Request Conn CallOptions Replied
      → UnaryClientHandler Ctx Text Request Conn CallOptions Replied
  pub stream_client_middleware :
      G
      → StreamClientHandler Ctx Desc Conn Text CallOptions Streamed
      → StreamClientHandler Ctx Desc Conn Text CallOptions Streamed
  -- The error of a pair.
  pub err_of : Replied → Option Err
  pub with_unary_interceptor :
      (Ctx
        → Text
        → Request
        → Reply
        → Conn
        → (Ctx → Text → Request → Reply → Conn → CallOptions → Replied)
        → CallOptions
        → Option Err)
      → DialOption
  pub with_stream_interceptor :
      (Ctx
        → Desc
        → Conn
        → Text
        → (Ctx → Desc → Conn → Text → CallOptions → Streamed)
        → CallOptions
        → Streamed)
      → DialOption
  pub with_insecure : DialOption
  -- A connection, nil with an error, and the error.
  pub dial : Text → List DialOption → Conn × Option Err
  pub default_ctx : Ctx
  -- What the pings with a context over a connection give, one after the other.
  pub pings : Ctx → Conn → List (Option Err)
  pub no_error : Option Err → Bool
  pub is_true : Bool → Bool

-- What a test reports, and what happens to its connections.
pub data Event (Conn : Type 0) : Type 0 where
  reported : Text → Event Conn
  dialed closed close_at_cleanup : Conn → Event Conn

-- How a call ends; `still_waiting` when the pings run out.
pub data Ended (A : Type 0) : Type 0 where
  goes_on : A → Ended A
  failed_now still_waiting : Ended A

pub record Test (Conn A : Type 0) : Type 0 where
  pub events : List (Event Conn)
  pub ended : Ended A

abbrev pub before : {Conn A : Type 0} → List (Event Conn) → Test Conn A → Test Conn A
before events test = record test { events = events ++ test.events }

abbrev pub follow :
    {Conn A B : Type 0} → List (Event Conn) → Ended A → (A → Test Conn B) → Test Conn B
follow events (goes_on a) next = before events (next a)
follow events failed_now next = record { events = events; ended = failed_now }
follow events still_waiting next = record { events = events; ended = still_waiting }

-- One call after the other.
unfoldable pub after : {Conn A B : Type 0} → Test Conn A → (A → Test Conn B) → Test Conn B
after test next = follow test.events test.ended next

-- `if !assert { t.FailNow() }`
abbrev pub require : {Conn : Type 0} → Bool → Text → Test Conn (Unit {0})
require true message = record { events = []; ended = goes_on tt }
require false message = record { events = reported message ∷ []; ended = failed_now }

-- An assertion whose result is not used.
abbrev pub assertion : {Conn : Type 0} → Bool → Text → Test Conn (Unit {0})
assertion true message = record { events = []; ended = goes_on tt }
assertion false message = record { events = reported message ∷ []; ended = goes_on tt }

abbrev pub close_at_end : {Conn A : Type 0} → Conn → List (Event Conn) → Ended A → Test Conn A
close_at_end conn events (goes_on a) = record {
  events = events ++ closed conn ∷ [];
  ended = goes_on a;
}
close_at_end conn events failed_now = record {
  events = events ++ closed conn ∷ [];
  ended = failed_now;
}
close_at_end conn events still_waiting = record { events = events; ended = still_waiting }

-- `defer clientConn.Close()` ahead of what follows.
unfoldable pub closing : {Conn A : Type 0} → Conn → Test Conn A → Test Conn A
closing conn test = close_at_end conn test.events test.ended

-- The case of the select in PingGrpcServer.
pub data Selected : Type 0 where
  listen_over services_over timer_fired : Selected

-- A send to a channel of unknown capacity that has room or does not; one to a nil channel blocks.
pub data Sent (Signal : Type 0) : Type 0 where
  sent : List Signal → Sent Signal
  blocks : Sent Signal

module _ {us : UserServices} {U H G L O Signal : Type 0}
    (manager : Manager us U H G L O Signal) where
  unfoldable pub services : List (Service us)
  services = map (λ info. info.service) manager.services

  unfoldable pub check_services : {Conn : Type 0} → List (Service us) → Test Conn (Unit {0})
  unfolding is_grpc_service
  check_services [] = record {
    events = reported (codes "manager does not have registered gRPC services") ∷ [];
    ended = failed_now;
  }
  check_services (service ∷ later) =
      let rest = check_services later in
      if is_grpc_service us service then record { events = []; ended = goes_on tt } else rest

  unfoldable pub check_for_grpc_service : {Conn : Type 0} → Test Conn (Unit {0})
  unfolding services check_services
  check_for_grpc_service = check_services services

  -- SendSignal.
  unfoldable pub send_signal : (has_room : Bool) → Signal → Sent Signal
  send_signal has_room os_signal = elim manager.os_signals [
    | none ↦ blocks
    | some held ↦ if has_room then sent (held ++ os_signal ∷ []) else blocks
  ]

  module _ (c : Client G) where
    open c use {Ctx, Conn, DialOption}

    unfoldable pub with_interceptors : Option G → List DialOption → List DialOption
    unfolding new_unary_client_middleware_interceptor new_stream_client_middleware_interceptor
    with_interceptors none opts = opts
    with_interceptors (some err_gen) opts =
        let unary_interceptor =
          new_unary_client_middleware_interceptor c.err_of
            (c.unary_client_middleware err_gen ∷ []) in
        let stream_interceptor =
          new_stream_client_middleware_interceptor (c.stream_client_middleware err_gen ∷ []) in
        opts
        ++ c.with_unary_interceptor unary_interceptor
          ∷ c.with_stream_interceptor stream_interceptor
          ∷ []

    abbrev on_cleanup : Bool → Conn → List (Event Conn)
    on_cleanup true conn = close_at_cleanup conn ∷ []
    on_cleanup false conn = []

    abbrev dialing : Bool → Conn × Option Err → Test Conn Conn
    dialing cleanup (conn, err) =
        after (require (c.no_error err) (codes "dial gRPC server address"))
          (λ _. record { events = dialed conn ∷ on_cleanup cleanup conn; ended = goes_on conn })

    unfoldable pub grpc_client_conn : Bool → List DialOption → Test Conn Conn
    unfolding check_for_grpc_service with_interceptors after
    grpc_client_conn cleanup opts = after check_for_grpc_service (λ _. dialing cleanup (
        c.dial manager.opts.grpc_service_address
          (with_interceptors manager.opts.err_generator opts)))

    -- GrpcPingClient; the client is its connection.
    unfoldable pub grpc_ping_client : Bool → List DialOption → Test Conn Conn
    unfolding check_for_grpc_service grpc_client_conn after
    grpc_ping_client cleanup opts = after check_for_grpc_service (λ _.
        after (require (c.is_true manager.opts.add_ping_service) (codes "ping service in use"))
          (λ _. grpc_client_conn cleanup opts))

    abbrev await_listen : Selected → Test Conn (Unit {0})
    await_listen listen_over = record { events = []; ended = goes_on tt }
    await_listen services_over = assertion (c.no_error (some canceled)) (codes "manager exiting")
    await_listen timer_fired = record {
      events = reported (codes "timout on gRPC listen") ∷ [];
      ended = failed_now;
    }

    abbrev ctx_or_default : Option Ctx → Ctx
    ctx_or_default none = c.default_ctx
    ctx_or_default (some ctx) = ctx

    abbrev waited : Option (Option Err) → Test Conn (Unit {0})
    waited none = record { events = []; ended = still_waiting }
    waited (some err) = require (c.no_error err) (codes "wait for gRPC server")

    unfoldable pub ping_grpc_server :
        StatusApi → Heap → Selected → Option Ctx → Test Conn (Unit {0})
    unfolding check_for_grpc_service grpc_client_conn wait_for_grpc_server after closing
    ping_grpc_server g h selected given = after check_for_grpc_service (λ _.
        after (await_listen selected) (λ _.
          after (grpc_client_conn false (c.with_insecure ∷ [])) (λ conn.
            closing conn
              (waited (wait_for_grpc_server g h (c.pings (ctx_or_default given) conn))))))

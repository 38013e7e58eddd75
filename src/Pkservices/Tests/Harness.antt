-- ===== src/Pkservices/Tests/Harness.antt =====
-- The harness of a manager with one service and the ping service, whose server answers the second
-- ping.
use g_rpeakec_go.Prelude.{
  ℕ, ◌≡◌, ◌↔◌, ◌≢◌, refl, true, false, not, Option, none, some, [], ◌∷◌, ◌++◌, any,
}
use g_rpeakec_go.Prelude.Text.{Text, codes}
use g_rpeakec_go.Errors.{Err}
use g_rpeakec_go.Pkerr.Tests.{sample_heap, sample_proto}
use g_rpeakec_go.Pkerr.Tests.SmallStatus.{small_status}
use g_rpeakec_go.Pkservices.Report.{is_some}
use g_rpeakec_go.Pkservices.Options.{new_manager_opts}
use g_rpeakec_go.Pkservices.Services.{
  UserServices, Service, ping_service, user, is_grpc_service, Manager, new_manager,
}
use g_rpeakec_go.Pkservices.Tester.{
  Client, goes_on, listen_over, timer_fired, blocks, services, check_for_grpc_service, send_signal,
  ping_grpc_server,
}
use g_rpeakec_go.Pkservices.Tester.Laws.{
  dialed_with, wait_with, ping_grpc_server-goes_on_iff, ClosesAll, ping_grpc_server-ClosesAll,
}
use g_rpeakec_go.Pkservices.Tester.Start.{new_manager_lem}

-- A service is its id; none of them serves gRPC.
abbrev pub plain : UserServices
plain = record { Service = Text; id = λ id. id; setup = λ id. none; is_grpc_service = λ id. false }

abbrev pub db : Service plain
db = user (codes "db")

abbrev append : Text → Text → Text
append logger id = logger ++ id

abbrev pub manager : Manager plain ℕ ℕ ℕ Text ℕ ℕ
manager = new_manager [] append none (db ∷ [])

abbrev unavailable : Err
unavailable = Err.foreign 0 (13 ∷ codes "connecting")

abbrev pub client : Client ℕ
client = record {
  Ctx = ℕ;
  Conn = ℕ;
  DialOption = ℕ;
  Request = ℕ;
  Reply = ℕ;
  CallOptions = ℕ;
  Desc = ℕ;
  Replied = Option Err;
  Streamed = ℕ;
  unary_client_middleware = λ gen next. next;
  stream_client_middleware = λ gen next. next;
  err_of = λ err. err;
  with_unary_interceptor = λ interceptor. 1;
  with_stream_interceptor = λ interceptor. 2;
  with_insecure = 0;
  dial = λ address opts. (7, none);
  default_ctx = 3;
  pings = λ ctx conn. some unavailable ∷ none ∷ [];
  no_error = λ err. not (is_some err);
  is_true = λ b. b;
}

ping_grpc_server-goes_on_iff_example :
    ((ping_grpc_server manager client
        (small_status sample_proto)
        sample_heap
        listen_over
        none).ended
      ≡ goes_on tt)
    ↔ ((any (is_grpc_service plain) (services manager) ≡ true)
        × (listen_over ≢ timer_fired)
        × ((dialed_with manager client (small_status sample_proto) sample_heap).1 ≡ none)
        × (wait_with manager client (small_status sample_proto) sample_heap none ≡ some none))
ping_grpc_server-goes_on_iff_example =
    ping_grpc_server-goes_on_iff manager client (small_status sample_proto) sample_heap
      (λ err. refl) listen_over none

new_manager_lem_example :
    let m : Manager plain ℕ ℕ ℕ Text ℕ ℕ = new_manager [] append none (db ∷ []) in
    (services m ≡ db ∷ ping_service ∷ [])
    × (check_for_grpc_service m {Conn = ℕ} ≡ record { events = []; ended = goes_on tt })
    × (send_signal m true 2 ≡ blocks)
unfolding new_manager_opts
new_manager_lem_example = new_manager_lem [] append none (db ∷ []) true 2 refl

ping_grpc_server-ClosesAll_example :
    ClosesAll
      (ping_grpc_server manager client (small_status sample_proto) sample_heap listen_over none)
ping_grpc_server-ClosesAll_example =
    ping_grpc_server-ClosesAll manager client (small_status sample_proto) sample_heap listen_over
      none

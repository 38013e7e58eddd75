-- ===== src/Pktesting/Suite/Tests.antt =====
-- A suite around the manager of the harness's tests.
use g_rpeakec_go.Prelude.{◌≡◌, ◌≢◌, ◌↔◌, refl, true, some, none, any}
use g_rpeakec_go.Pkerr.Tests.{sample_heap, sample_proto}
use g_rpeakec_go.Pkerr.Tests.SmallStatus.{small_status}
use g_rpeakec_go.Prelude.{ℕ}
use g_rpeakec_go.Prelude.Text.{Text}
use g_rpeakec_go.Pkservices.Services.{is_grpc_service, Manager}
use g_rpeakec_go.Pkservices.Tester.{listen_over, timer_fired, services}
use g_rpeakec_go.Pkservices.Tester.Laws.{dialed_with, wait_with}
use g_rpeakec_go.Pkservices.Tests.Harness.{plain, manager, client}
use g_rpeakec_go.Pktesting.Suite.{ManagerSuite, setup_suite}
use g_rpeakec_go.Pktesting.Suite.Laws.{is_inner_set_up, setup_suite-inner_iff}

abbrev suite : ManagerSuite (Manager plain ℕ ℕ ℕ Text ℕ ℕ)
suite = record {
  inner_suite = record { has_setup_suite = true; has_tear_down_suite = true };
  manager = some manager;
}

setup_suite-inner_iff_example :
    (any is_inner_set_up
        (setup_suite client (small_status sample_proto) sample_heap listen_over 4 suite).events
      ≡ true)
    ↔ ((any (is_grpc_service plain) (services manager) ≡ true)
        × (listen_over ≢ timer_fired)
        × ((dialed_with manager client (small_status sample_proto) sample_heap).1 ≡ none)
        × (wait_with manager client (small_status sample_proto) sample_heap (some 4) ≡ some none))
setup_suite-inner_iff_example =
    setup_suite-inner_iff client (small_status sample_proto) sample_heap (λ err. refl) listen_over 4
      suite manager refl refl

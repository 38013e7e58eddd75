-- ===== src/Pktesting/Suite/Laws.antt =====
-- When the suite inside a ManagerSuite is set up.
use g_rpeakec_go.Prelude.{
  ◌≡◌, ◌≢◌, ◌↔◌, refl, not, Bool, true, false, Bool-cases, inl, inr, Option, none, some, List, [],
  ◌∷◌, ◌++◌, map, any, arith,
}
use g_rpeakec_go.Errors.{Err, Heap}
use g_rpeakec_go.Pkerr.Status.{StatusApi}
use g_rpeakec_go.Pkservices.Report.{is_some}
use g_rpeakec_go.Pkservices.Services.{UserServices, is_grpc_service, Manager}
use g_rpeakec_go.Pkservices.Tester.{
  Client, Event, Ended, goes_on, failed_now, still_waiting, Selected, timer_fired, services,
  ping_grpc_server,
}
use g_rpeakec_go.Pkservices.Tester.Laws.{dialed_with, wait_with, ping_grpc_server-goes_on_iff}
use g_rpeakec_go.Pktesting.Suite.{
  SuiteEvent, of_test, run_launched, inner_set_up, ManagerSuite, set_up_inner, setup_suite,
}

abbrev pub is_inner_set_up : {Conn : Type 0} → SuiteEvent Conn → Bool
is_inner_set_up inner_set_up = true
is_inner_set_up _ = false

quiet_before :
    {Conn : Type 0} (more : List (SuiteEvent Conn)) (ts : List (Event Conn))
    → any is_inner_set_up (map of_test ts ++ more) ≡ any is_inner_set_up more
quiet_before more [] = refl
quiet_before more (t ∷ ts) = quiet_before more ts

quiet_tests :
    {Conn : Type 0} (ts : List (Event Conn))
    → let harness : Event Conn → SuiteEvent Conn = of_test in
      any is_inner_set_up (map harness ts) ≡ false
quiet_tests [] = refl
quiet_tests (t ∷ ts) = quiet_tests ts

set_up_inner_iff :
    {Conn : Type 0} (ts : List (Event Conn)) (ended : Ended (Unit {0}))
    → (any is_inner_set_up (set_up_inner true (run_launched ∷ map of_test ts) ended).events ≡ true)
      ↔ (ended ≡ goes_on tt)
set_up_inner_iff ts (goes_on tt) = rw (quiet_before (inner_set_up ∷ []) ts) (λ e. refl, λ e. refl)
set_up_inner_iff ts failed_now = rw (quiet_tests ts) ground arith
set_up_inner_iff ts still_waiting = rw (quiet_tests ts) ground arith

module _ {us : UserServices} {U H G L O Signal : Type 0} (c : Client G) (g : StatusApi)
    (h : Heap) where
  -- Given that NoError tests for nil: an inner suite that has a SetupSuite is set up exactly when
  -- one of the manager's services is a GrpcService and PingGrpcServer returns, its timer not
  -- fired, Dial and the wait without an error. So it is not set up where no service is one.
  pub setup_suite-inner_iff :
      (honest : (e : Option Err) → c.no_error e ≡ not (is_some e))
      → (selected : Selected) (ctx : c.Ctx)
      → (suite : ManagerSuite (Manager us U H G L O Signal)) (manager : Manager us U H G L O Signal)
      → suite.manager ≡ some manager
      → suite.inner_suite.has_setup_suite ≡ true
      → (any is_inner_set_up (setup_suite c g h selected ctx suite).events ≡ true) ↔ (
          (any (is_grpc_service us) (services manager) ≡ true)
          × (selected ≢ timer_fired)
          × ((dialed_with manager c g h).1 ≡ none)
          × (wait_with manager c g h (some ctx) ≡ some none))
  unfolding setup_suite
  setup_suite-inner_iff honest selected ctx suite manager is_set has =
      let pinged = ping_grpc_server manager c g h selected (some ctx) in
      let goes_on_iff = ping_grpc_server-goes_on_iff manager c g h honest selected (some ctx) in
      let inner_iff = set_up_inner_iff pinged.events pinged.ended in
      elim (Bool-cases (any (is_grpc_service us) (services manager))) [
        | inl grpc ↦
            rw (is_set, grpc, has)
              (
                λ e.
                    let (is_grpc, open_in_time, dials, waits) = goes_on_iff.0 (inner_iff.0 e) in
                    (refl, open_in_time, dials, waits),
                λ (same, open_in_time, dials, waits).
                    inner_iff.1 (goes_on_iff.1 (grpc, open_in_time, dials, waits)),
              )
        | inr no_grpc ↦
            rw (is_set, no_grpc)
              (λ e. ground (arith, e), λ (e, _, _, _). ground (arith, e, no_grpc))
      ]

-- ===== src/Pktesting/Suite.antt =====
-- pktesting/managerSuite.go: a suite of tests around a manager. The suite inside is not read but for
-- the methods that it has; NotNil of testify fails on nil.
pub mod Laws
mod Tests
use g_rpeakec_go.Prelude.{
  Bool, true, false, Option, none, some, List, [], ◌∷◌, ◌++◌, map, any, if◌then◌else◌,
}
use g_rpeakec_go.Prelude.Text.{codes}
use g_rpeakec_go.Errors.{Heap}
use g_rpeakec_go.Pkerr.Status.{StatusApi}
use g_rpeakec_go.Pkservices.Services.{UserServices, is_grpc_service, Manager}
use g_rpeakec_go.Pkservices.Tester.{
  Client, Event, reported, Ended, goes_on, failed_now, still_waiting, Selected, services,
  ping_grpc_server,
}

-- Whether the inner suite has SetupSuite and TearDownSuite.
pub record InnerSuite : Type 0 where
  pub has_setup_suite : Bool
  pub has_tear_down_suite : Bool

pub data SuiteEvent (Conn : Type 0) : Type 0 where
  of_test : Event Conn → SuiteEvent Conn
  -- The goroutine of Run; StartShutdown; WaitForShutdown; the calls of the inner suite.
  run_launched shutdown_started shutdown_awaited : SuiteEvent Conn
  inner_set_up inner_torn_down : SuiteEvent Conn

pub record ManagerSuite (M : Type 0) : Type 0 where
  pub inner_suite : InnerSuite
  pub manager : Option M

-- `new_suite` is what new(suite.Suite) makes.
unfoldable pub new_manager_suite : {M : Type 0} → InnerSuite → Option InnerSuite → ManagerSuite M
new_manager_suite new_suite none = record { inner_suite = new_suite; manager = none }
new_manager_suite new_suite (some inner) = record { inner_suite = inner; manager = none }

pub record SuiteRun (Conn : Type 0) : Type 0 where
  pub events : List (SuiteEvent Conn)
  pub ended : Ended (Unit {0})

abbrev pub when_has : {Conn : Type 0} → Bool → SuiteEvent Conn → List (SuiteEvent Conn)
when_has true event = event ∷ []
when_has false event = []

-- The inner suite's set-up, if PingGrpcServer has returned.
abbrev pub set_up_inner :
    {Conn : Type 0} → Bool → List (SuiteEvent Conn) → Ended (Unit {0}) → SuiteRun Conn
set_up_inner has events (goes_on done) = record {
  events = events ++ when_has has inner_set_up;
  ended = goes_on done;
}
set_up_inner has events failed_now = record { events = events; ended = failed_now }
set_up_inner has events still_waiting = record { events = events; ended = still_waiting }

module _ {us : UserServices} {U H G L O Signal : Type 0} (c : Client G) (g : StatusApi)
    (h : Heap) where
  -- `selected` is the case of PingGrpcServer's select, `ctx` the context of New3SecondCtx.
  unfoldable pub setup_suite :
      (selected : Selected) (ctx : c.Ctx)
      → ManagerSuite (Manager us U H G L O Signal)
      → SuiteRun c.Conn
  unfolding services ping_grpc_server
  setup_suite selected ctx suite = elim suite.manager [
    | none ↦ record {
      events =
          of_test (reported (codes "manager is set"))
          ∷ of_test (reported (codes "manager is nil"))
          ∷ [];
      ended = failed_now;
    }
    | some manager ↦
        let pinged = ping_grpc_server manager c g h selected (some ctx) in
        if any (is_grpc_service us) (services manager)
        then set_up_inner suite.inner_suite.has_setup_suite
            (run_launched ∷ map of_test pinged.events) pinged.ended
        else record { events = run_launched ∷ []; ended = goes_on tt }
  ]

-- `none`: the manager is nil.
unfoldable pub tear_down_suite : {M Conn : Type 0} → ManagerSuite M → List (SuiteEvent Conn)
tear_down_suite suite =
    let inner = when_has suite.inner_suite.has_tear_down_suite inner_torn_down in
    elim suite.manager [ none ↦ inner | some manager ↦ shutdown_started ∷ shutdown_awaited ∷ inner ]

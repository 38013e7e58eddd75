-- ===== src/Pkservices/Tester/Laws.antt =====
-- When PingGrpcServer returns, and what it closes; the harness of a manager that NewManager made.
use g_rpeakec_go.Prelude.{
  ◌≡◌, ◌↔◌, ◌≢◌, ◌⊎◌, if◌then◌else◌, refl, Bool, true, false, not, Option, none, some, List, [],
  ◌∷◌, any, Bool-cases, inl, inr, arith,
}
use g_rpeakec_go.Prelude.Text.{codes}
use g_rpeakec_go.Errors.{Err, Heap, canceled}
use g_rpeakec_go.Pkerr.Status.{StatusApi}
use g_rpeakec_go.Pkclients.{wait_for_grpc_server}
use g_rpeakec_go.Pkservices.Report.{is_some}
use g_rpeakec_go.Pkservices.Services.{UserServices, Service, is_grpc_service, Manager}
use g_rpeakec_go.Pkservices.Tester.{
  Client, Event, reported, dialed, closed, close_at_cleanup, Ended, goes_on, failed_now,
  still_waiting, Test, after, closing, Selected, listen_over, services_over, timer_fired,
  close_at_end, services, check_services, check_for_grpc_service, with_interceptors, dialing,
  grpc_client_conn, await_listen, ctx_or_default, waited, ping_grpc_server,
}

-- The connections that are dialed, and those that are closed.
unfoldable pub opened : {Conn : Type 0} → List (Event Conn) → List Conn
opened [] = []
opened (reported _ ∷ events) = opened events
opened (dialed conn ∷ events) = conn ∷ opened events
opened (closed _ ∷ events) = opened events
opened (close_at_cleanup _ ∷ events) = opened events

unfoldable pub closed_of : {Conn : Type 0} → List (Event Conn) → List Conn
closed_of [] = []
closed_of (reported _ ∷ events) = closed_of events
closed_of (dialed _ ∷ events) = closed_of events
closed_of (closed conn ∷ events) = conn ∷ closed_of events
closed_of (close_at_cleanup _ ∷ events) = closed_of events

-- A test that has come to its end has closed what it has opened, in that order.
abbrev pub ClosesAll : {Conn A : Type 0} → Test Conn A → Type 0
ClosesAll test = (test.ended ≡ still_waiting) ⊎ (closed_of test.events ≡ opened test.events)

module _ {us : UserServices} {U H G L O Signal : Type 0}
    (manager : Manager us U H G L O Signal) where
  -- checkForGrpcService ends the test exactly when no service is a GrpcService.
  pub check_services_lem :
      {Conn : Type 0} (ss : List (Service us))
      → check_services manager {Conn = Conn} ss ≡ (
          if any (is_grpc_service us) ss
          then record { events = []; ended = goes_on tt }
          else record {
            events = reported (codes "manager does not have registered gRPC services") ∷ [];
            ended = failed_now;
          })
  unfolding check_services
  check_services_lem [] = refl
  check_services_lem (s ∷ ss) = elim (Bool-cases (is_grpc_service us s)) [
    | inl yes_grpc ↦ rw yes_grpc refl
    | inr not_grpc ↦ rw not_grpc (check_services_lem ss)
  ]

  module _ (c : Client G) (g : StatusApi) (h : Heap) where
    open c use {Ctx, Conn}

    -- What Dial gives, and how waiting over its connection ends.
    abbrev pub dialed_with : Conn × Option Err
    dialed_with =
        c.dial manager.opts.grpc_service_address
          (with_interceptors manager c manager.opts.err_generator (c.with_insecure ∷ []))

    abbrev pub wait_with : Option Ctx → Option (Option Err)
    wait_with given =
        wait_for_grpc_server g h (c.pings (ctx_or_default manager c given) dialed_with.0)

    abbrev has_grpc : Bool
    has_grpc = any (is_grpc_service us) (services manager)

    check_passes :
        has_grpc ≡ true
        → check_for_grpc_service manager {Conn = Conn} ≡ record { events = []; ended = goes_on tt }
    unfolding check_for_grpc_service
    check_passes has = rw (check_services_lem (services manager), has) refl

    check_fails :
        has_grpc ≡ false
        → check_for_grpc_service manager {Conn = Conn} ≡ record {
          events = reported (codes "manager does not have registered gRPC services") ∷ [];
          ended = failed_now;
        }
    unfolding check_for_grpc_service
    check_fails has = rw (check_services_lem (services manager), has) refl

    -- The part behind the select: dialing, and waiting with the connection's close deferred.
    abbrev dial_and_wait : Option Ctx → Test Conn (Unit {0})
    dial_and_wait given = after (dialing manager c false dialed_with) (λ conn. closing conn (
        waited manager c
          (wait_for_grpc_server g h (c.pings (ctx_or_default manager c given) conn))))

    ping_grpc_server-tail :
        (selected : Selected) (given : Option Ctx)
        → has_grpc ≡ true
        → ping_grpc_server manager c g h selected given
          ≡ after (await_listen manager c selected) (λ _. dial_and_wait given)
    unfolding ping_grpc_server grpc_client_conn after
    ping_grpc_server-tail selected given has = rw (check_passes has) refl

    waited_lem :
        ((e : Option Err) → c.no_error e ≡ not (is_some e))
        → (w : Option (Option Err)) → ((waited manager c w).ended ≡ goes_on tt) ↔ (w ≡ some none)
    waited_lem honest none = ground arith
    waited_lem honest (some none) = rw (honest none) ground arith
    waited_lem honest (some (some e)) = rw (honest (some e)) ground arith

    closing-ended_iff :
        (conn : Conn) (events : List (Event Conn)) (ended : Ended (Unit {0}))
        → ((close_at_end conn events ended).ended ≡ goes_on tt) ↔ (ended ≡ goes_on tt)
    closing-ended_iff conn events (goes_on a) = ground arith
    closing-ended_iff conn events failed_now = ground arith
    closing-ended_iff conn events still_waiting = ground arith

    abbrev waiting_over : Option Ctx → Conn → Test Conn (Unit {0})
    waiting_over given conn = closing conn (
        waited manager c (wait_for_grpc_server g h (c.pings (ctx_or_default manager c given) conn)))

    dialing_iff :
        ((e : Option Err) → c.no_error e ≡ not (is_some e))
        → (given : Option Ctx) (d : Conn × Option Err)
        → ((after (dialing manager c false d) (waiting_over given)).ended ≡ goes_on tt) ↔ (
            (d.1 ≡ none)
            × (wait_for_grpc_server g h (c.pings (ctx_or_default manager c given) d.0) ≡ some none))
    unfolding after closing
    dialing_iff honest given (conn, none) =
        let w = wait_for_grpc_server g h (c.pings (ctx_or_default manager c given) conn) in
        let over = waited_lem honest w in
        let t = waited manager c w in
        let cl = closing-ended_iff conn t.events t.ended in
        rw (honest none) (λ e. (refl, over.0 (cl.0 e)), λ (_, e). cl.1 (over.1 e))
    dialing_iff honest given (conn, some err) = rw (honest (some err)) ground arith

    ends_iff :
        ((e : Option Err) → c.no_error e ≡ not (is_some e))
        → (selected : Selected) (given : Option Ctx)
        → ((after (await_listen manager c selected) (λ _. dial_and_wait given)).ended ≡ goes_on tt)
          ↔ ((selected ≢ timer_fired) × (dialed_with.1 ≡ none) × (wait_with given ≡ some none))
    unfolding after
    ends_iff honest listen_over given =
        let d = dialing_iff honest given dialed_with in
        (λ e. (λ q. ground (arith, q), (d.0 e).0, (d.0 e).1), λ (_, a, b). d.1 (a, b))
    ends_iff honest services_over given =
        let d = dialing_iff honest given dialed_with in
        rw (honest (some canceled))
          (λ e. (λ q. ground (arith, q), (d.0 e).0, (d.0 e).1), λ (_, a, b). d.1 (a, b))
    ends_iff honest timer_fired given = (λ e. ground (arith, e), λ (ne, _, _). absurd (ne refl))

    fails_iff :
        (selected : Selected) (given : Option Ctx)
        → has_grpc ≡ false
        → (ping_grpc_server manager c g h selected given).ended ≡ failed_now
    unfolding ping_grpc_server after
    fails_iff selected given has = rw (check_fails has) refl

    -- Given that NoError tests for nil: PingGrpcServer returns exactly when a service is a
    -- GrpcService, the timer of 3 seconds has not fired, Dial gives no error and waiting for the
    -- server ends without one. That the manager is exiting does not keep it from returning.
    pub ping_grpc_server-goes_on_iff :
        (honest : (e : Option Err) → c.no_error e ≡ not (is_some e))
        → (selected : Selected) (given : Option Ctx)
        → ((ping_grpc_server manager c g h selected given).ended ≡ goes_on tt) ↔ (
            (any (is_grpc_service us) (services manager) ≡ true)
            × (selected ≢ timer_fired)
            × (dialed_with.1 ≡ none)
            × (wait_with given ≡ some none))
    ping_grpc_server-goes_on_iff honest selected given = elim (Bool-cases has_grpc) [
      | inl has ↦
          let e = ends_iff honest selected given in
          rw (ping_grpc_server-tail selected given has)
            (λ q. (has, (e.0 q).0, (e.0 q).1, (e.0 q).2), λ (_, a, b, d). e.1 (a, b, d))
      | inr has_not ↦
          let f = fails_iff selected given has_not in
          (λ q. ground (arith, f, q), λ (has, _, _, _). ground (arith, has, has_not))
    ]

    waited-closes :
        (conn : Conn) (w : Option (Option Err))
        → ((closing conn (waited manager c w)).ended ≡ still_waiting)
          ⊎ ((closed_of (closing conn (waited manager c w)).events ≡ conn ∷ [])
              × (opened (closing conn (waited manager c w)).events ≡ []))
    unfolding closing closed_of opened
    waited-closes conn none = inl refl
    waited-closes conn (some err) = elim (Bool-cases (c.no_error err)) [
      | inl passes ↦ rw passes (inr (refl, refl))
      | inr fails ↦ rw fails (inr (refl, refl))
    ]

    dialing-closes :
        (given : Option Ctx) (d : Conn × Option Err)
        → ClosesAll (after (dialing manager c false d) (waiting_over given))
    unfolding after closed_of opened
    dialing-closes given (conn, err) = elim (Bool-cases (c.no_error err)) [
      | inl passes ↦
          let w = wait_for_grpc_server g h (c.pings (ctx_or_default manager c given) conn) in
          elim (waited-closes conn w) [
            | inl waits ↦ rw passes (inl waits)
            | inr (closes, opens) ↦ rw passes (inr (rw (closes, opens) refl))
          ]
      | inr fails ↦ rw fails (inr refl)
    ]

    tail-closes :
        (selected : Selected) (given : Option Ctx)
        → ClosesAll (after (await_listen manager c selected) (λ _. dial_and_wait given))
    unfolding after closed_of opened
    tail-closes listen_over given = dialing-closes given dialed_with
    tail-closes services_over given = elim (Bool-cases (c.no_error (some canceled))) [
      | inl passes ↦ rw passes (dialing-closes given dialed_with)
      | inr fails ↦ rw fails (dialing-closes given dialed_with)
    ]
    tail-closes timer_fired given = inr refl

    -- PingGrpcServer closes the connection that it dials, when it returns and when it ends the
    -- test: the connections that it closes are those it opened, unless it still waits.
    pub ping_grpc_server-ClosesAll :
        (selected : Selected) (given : Option Ctx)
        → ClosesAll (ping_grpc_server manager c g h selected given)
    unfolding ping_grpc_server after closed_of opened
    ping_grpc_server-ClosesAll selected given = elim (Bool-cases has_grpc) [
      | inl has ↦ rw (ping_grpc_server-tail selected given has) (tail-closes selected given)
      | inr has_not ↦ rw (check_fails has_not) (inr refl)
    ]

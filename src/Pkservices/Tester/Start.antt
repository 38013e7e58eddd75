-- ===== src/Pkservices/Tester/Start.antt =====
-- The harness of a manager that NewManager has made.
use g_rpeakec_go.Prelude.{
  ◌≡◌, refl, ap, Bool, true, Option, List, [], ◌∷◌, ◌++◌, any, map, Bool-cases, inl, inr,
}
use g_rpeakec_go.Prelude.Text.{Text}
use g_rpeakec_go.Pkservices.Options.{ManagerOpts}
use g_rpeakec_go.Pkservices.Manager.{new_manager_services}
use g_rpeakec_go.Pkservices.Services.{
  UserServices, Service, ping_service, id, is_grpc_service, ServiceInfo, Manager, opts_or_default,
  new_manager,
}
use g_rpeakec_go.Pkservices.Tester.{goes_on, blocks, services, check_for_grpc_service, send_signal}
use g_rpeakec_go.Pkservices.Tester.Laws.{check_services_lem}

ping-IsGrpc :
    {us : UserServices} (ss : List (Service us))
    → any (is_grpc_service us) (ss ++ ping_service ∷ []) ≡ true
unfolding is_grpc_service
ping-IsGrpc [] = refl
ping-IsGrpc {us = us} (s ∷ ss) = elim (Bool-cases (is_grpc_service us s)) [
  | inl grpc ↦ rw grpc refl
  | inr not_grpc ↦ rw not_grpc (ping-IsGrpc ss)
]

wrapped_services :
    {us : UserServices} {L : Type 0} (logger : Service us → L) (ss : List (Service us))
    → let info : Service us → ServiceInfo us L = λ s. record { service = s; logger = logger s } in
      map (λ i. i.service) (map info ss) ≡ ss
wrapped_services logger [] = refl
wrapped_services logger (s ∷ ss) = ap (λ later. s ∷ later) (wrapped_services logger ss)

module _ {us : UserServices} {U H G L O Signal : Type 0} where
  -- With the ping service, as by default: the harness of a manager from NewManager lists the given
  -- services and the ping service behind them, checkForGrpcService passes whatever the given ones
  -- are, and SendSignal blocks, since the manager's channel of signals is never made.
  pub new_manager_lem :
      (no_logger : L) (str : L → Text → L) (given : Option (ManagerOpts U H G L O))
      → (ss : List (Service us)) (has_room : Bool) (os_signal : Signal) {Conn : Type 0}
      → (opts_or_default no_logger given).add_ping_service ≡ true
      → let m : Manager us U H G L O Signal = new_manager no_logger str given ss in
        (services m ≡ ss ++ ping_service ∷ [])
        × (check_for_grpc_service m {Conn = Conn} ≡ record { events = []; ended = goes_on tt })
        × (send_signal m has_room os_signal ≡ blocks)
  unfolding new_manager new_manager_services services check_for_grpc_service send_signal
  new_manager_lem no_logger str given ss has_room os_signal adds =
      let opts = opts_or_default no_logger given in
      let all = wrapped_services (λ s. str opts.logger (id us s)) (ss ++ ping_service ∷ []) in
      rw adds
        (all, rw (all, check_services_lem _ (ss ++ ping_service ∷ []), ping-IsGrpc ss) refl, refl)

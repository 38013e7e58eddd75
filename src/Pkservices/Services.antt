-- ===== src/Pkservices/Services.antt =====
-- pkservices/pingService.go, the type Manager of pkservices/manager.go, and NewManager. A service is
-- the ping service or one of the caller's.
use g_rpeakec_go.Prelude.{Bool, true, Option, none, some, List, map}
use g_rpeakec_go.Prelude.Text.{Text, codes}
use g_rpeakec_go.Errors.{Err}
use g_rpeakec_go.Pkservices.Options.{ManagerOpts, new_manager_opts}
use g_rpeakec_go.Pkservices.Manager.{ManagerSync, reset, new_manager_services}

-- The interfaces Service and GrpcService, as far as they are called here: whether a service has the
-- methods of GrpcService.
pub record UserServices : Type 1 where
  pub Service : Type 0
  pub id : Service → Text
  pub setup : Service → Option Err
  pub is_grpc_service : Service → Bool

pub data Service (us : UserServices) : Type 0 where
  ping_service : Service us
  user : UserServices.Service us → Service us

module _ (us : UserServices) where
  unfoldable pub id : Service us → Text
  id ping_service = codes "gPEAKERC Ping"
  id (user s) = UserServices.id us s

  unfoldable pub setup : Service us → Option Err
  setup ping_service = none
  setup (user s) = UserServices.setup us s

  -- pingService has RegisterOnServer.
  unfoldable pub is_grpc_service : Service us → Bool
  is_grpc_service ping_service = true
  is_grpc_service (user s) = UserServices.is_grpc_service us s

-- pingService.Ping.
unfoldable pub ping : {Ctx Empty : Type 0} → Ctx → Empty → Empty × Option Err
ping ctx msg = (msg, none)

pub record ServiceInfo (us : UserServices) (L : Type 0) : Type 0 where
  pub service : Service us
  pub logger : L

-- `G` is the generator's type. A channel is nil, or holds the signals that have not been received.
pub record Manager (us : UserServices) (U H G L O Signal : Type 0) : Type 0 where
  pub sync : ManagerSync
  pub os_signals : Option (List Signal)
  pub services : List (ServiceInfo us L)
  pub opts : ManagerOpts U H G L O

abbrev pub opts_or_default :
    {U H G L O : Type 0} → L → Option (ManagerOpts U H G L O) → ManagerOpts U H G L O
opts_or_default no_logger none = new_manager_opts no_logger
opts_or_default no_logger (some opts) = opts

-- `str` adds a text under the key SERVICE to a logger.
unfoldable pub new_manager :
    {us : UserServices} {U H G L O Signal : Type 0}
    → (no_logger : L) → (str : L → Text → L) → Option (ManagerOpts U H G L O)
    → List (Service us)
    → Manager us U H G L O Signal
unfolding new_manager_services reset id
new_manager {us = us} no_logger str given services =
    let opts = opts_or_default no_logger given in
    record {
      sync = reset;
      os_signals = none;
      services =
          map (λ s. record { service = s; logger = str opts.logger (id us s) })
            (new_manager_services opts.add_ping_service ping_service services);
      opts = opts;
    }

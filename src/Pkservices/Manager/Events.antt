-- ===== src/Pkservices/Manager/Events.antt =====
-- The order in which a run of a manager cancels its contexts.
use g_rpeakec_go.Prelude.{◌≡◌, Bool, true, false, List, [], ◌∷◌, ◌++◌, All, if◌then◌else◌}
use g_rpeakec_go.Prelude.Text.{Text}
use g_rpeakec_go.Pksync.ConcurrentMap.{Report}
use g_rpeakec_go.Pkservices.Manager.{
  Event, services_cancelled, resources_cancelled, listeners_cancelled, shutdown_logged,
  shutdown_complete, ManagerSync,
}

-- What StartShutdown does: its log line, and the cancellation of the services' context.
abbrev pub IsShutdown : Event → Type 0
IsShutdown services_cancelled = Unit
IsShutdown shutdown_logged = Unit
IsShutdown _ = ⊥

abbrev pub OnlyShutdowns : List Event → Type 0
OnlyShutdowns events = All IsShutdown events

-- What has been added to the events.
abbrev Adds : ManagerSync → ManagerSync → Type 0
Adds s s' = (m : List Event) × OnlyShutdowns m × (s'.events ≡ s.events ++ m)

abbrev pub is_services_cancelled : Event → Bool
is_services_cancelled services_cancelled = true
is_services_cancelled _ = false

abbrev if_released : Bool → List Event
if_released released = if released then listeners_cancelled ∷ [] else []

-- The events of a run between its three lists of calls of StartShutdown.
abbrev pub run_order : List Event → List Event → List Event → Bool → List Event
run_order pre mid post released =
    pre
    ++ resources_cancelled
      ∷ (mid
          ++ ((if released then listeners_cancelled ∷ [] else [])
              ++ (post ++ shutdown_complete ∷ [])))

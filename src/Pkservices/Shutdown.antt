-- ===== src/Pkservices/Shutdown.antt =====
-- The life of a Manager in pkservices/manager.go: the goroutine of Run, the two listeners that
-- launchListeners starts and the contexts of managerSync, as one system of steps. The services are
-- the environment: a map over them reports errors and comes to its end.
pub mod Rises
pub mod Safety
pub mod Returns
pub mod Phases
pub mod Endings
use g_rpeakec_go.Prelude.{ℕ, ◌≡◌, Bool, true, false, ◌||◌}
use g_rpeakec_go.Prelude.Int.{ℤ, pos, ltb_ℤ}

-- How Run ends: the resources are released, the shutdown has timed out, or runAllServices has
-- panicked.
pub data End : Type 0 where
  finished timed_out panicked : End

-- Run: in setupServices, which has reported an error or not; in runAllServices; past the stages; in
-- the select of waitForShutdownComplete; in listenersExited.Wait; before the deferred calls; and
-- past them, with shutdownComplete closed.
pub data Main : Type 0 where
  setting_up : Bool → Main
  running stages_over waiting joining : Main
  ending done : End → Main

-- timeoutShutdown: at its start, with its timer set, and past its deferred calls.
pub data TimeoutListener : Type 0 where
  launched armed gone : TimeoutListener

-- listenForSignal.
pub data SignalListener : Type 0 where
  listening gone : SignalListener

-- The flags say that a context is done; `released` says that the channel resourcesReleased of
-- waitForShutdownComplete is closed.
pub record Life : Type 0 where
  pub services_done : Bool
  pub resources_done : Bool
  pub listeners_done : Bool
  pub shutdown_done : Bool
  pub released : Bool
  pub main : Main
  pub timeout : TimeoutListener
  pub signal : SignalListener

-- Reset and launchListeners.
unfoldable pub launch_listeners : Life
launch_listeners = record {
  services_done = false;
  resources_done = false;
  listeners_done = false;
  shutdown_done = false;
  released = false;
  main = setting_up false;
  timeout = launched;
  signal = listening;
}

-- `manager.opts.maxShutdownDuration < 0`
abbrev pub is_unlimited : ℤ → Bool
is_unlimited max = ltb_ℤ max (pos 0)

-- StartShutdown.
abbrev pub start_shutdown : Life → Life
start_shutdown s = record s { services_done = true }

-- What the goroutines of the manager do by themselves; a timer that is set fires.
pub data Own (max : ℤ) (s : Life) : Life → Type 0 where
  -- listenForSignal: a context is done.
  signal_quits :
      s.signal ≡ listening
      → (s.services_done || s.listeners_done) ≡ true
      → Own max s (record (start_shutdown s) { signal = SignalListener.gone })
  timeout_returns :
      s.timeout ≡ launched
      → is_unlimited max ≡ true
      → Own max s (record s { timeout = TimeoutListener.gone })
  timeout_set :
      s.timeout ≡ launched
      → is_unlimited max ≡ false
      → s.services_done ≡ true
      → Own max s (record s { timeout = armed })
  timeout_stopped :
      s.timeout ≡ armed
      → s.listeners_done ≡ true
      → Own max s (record s { timeout = TimeoutListener.gone; shutdown_done = true })
  timeout_fires :
      s.timeout ≡ armed
      → Own max s (record s { timeout = TimeoutListener.gone; shutdown_done = true })
  -- Run, behind its stages.
  cancel_resources :
      s.main ≡ stages_over → Own max s (record s { main = waiting; resources_done = true })
  wait_released :
      s.main ≡ waiting
      → s.released ≡ true
      → Own max s (record s { main = joining; listeners_done = true })
  wait_timed_out :
      s.main ≡ waiting → s.shutdown_done ≡ true → Own max s (record s { main = ending timed_out })
  listeners_exited :
      s.main ≡ joining
      → s.timeout ≡ TimeoutListener.gone
      → s.signal ≡ SignalListener.gone
      → Own max s (record s { main = ending finished })
  deferred_calls :
      (e : End) → s.main ≡ ending e → Own max s (record (start_shutdown s) { main = done e })

pub data Step (max : ℤ) (s : Life) : Life → Type 0 where
  own : {u : Life} → Own max s u → Step max s u
  -- A call of StartShutdown from anywhere, and a signal of the host.
  shutdown_ordered : Step max s (start_shutdown s)
  signal_received :
      s.signal ≡ listening → Step max s (record (start_shutdown s) { signal = SignalListener.gone })
  -- mapServices in setupServices: a service fails, and the end of the map.
  setup_error :
      (failed : Bool)
      → s.main ≡ setting_up failed
      → Step max s (record (start_shutdown s) { main = setting_up true })
  setup_failed : s.main ≡ setting_up true → Step max s (record s { main = stages_over })
  setup_complete : s.main ≡ setting_up false → Step max s (record s { main = running })
  -- runAllServices: a service fails, the end, and a panic of runsComplete.Wait. Its deferred
  -- StartShutdown is called in both.
  run_error : s.main ≡ running → Step max s (start_shutdown s)
  run_complete : s.main ≡ running → Step max s (record (start_shutdown s) { main = stages_over })
  run_panics : s.main ≡ running → Step max s (record (start_shutdown s) { main = ending panicked })
  -- The resources' wait group comes to 0, which the goroutine of waitForShutdownComplete sees.
  resources_released : s.resources_done ≡ true → Step max s (record s { released = true })

pub data Reachable (max : ℤ) : Life → Type 0 where
  start : Reachable max launch_listeners
  next : {s t : Life} → Reachable max s → Step max s t → Reachable max t

-- ===== src/App/BringUp.antt =====
-- src/app/app.cpp: `App::initialize`, over the services that it brings up. The registration of the
-- idle callback is in `Hal.Threads`; the constructions of the singletons and the threads that
-- `init_task` creates do nothing else here. Log lines are left out.
pub mod Start
pub mod Outcome
use base_platform_zephyr_ble.Prelude.{ℕ, ◌*◌, Bool, true, false, if◌then◌else◌}
use base_platform_zephyr_ble.Config.{Config}
use base_platform_zephyr_ble.DeviceTable
use base_platform_zephyr_ble.Eda.{
  Event, MsgQueue, Bus, Run, running, halted, ◌>>=◌, init_port, send_event, queue_length, app_port,
  PortList, acquisition_port, comms_port, system_diagnostics_port,
}
use base_platform_zephyr_ble.Eda.Timer.{Timer, start}
use base_platform_zephyr_ble.Events.{app_event_id, services_ready, services_failed}
use base_platform_zephyr_ble.Hal.Ble.{AdvReport}
use base_platform_zephyr_ble.Hal.Watchdog.{Driver, Watchdog, set_timeout}
use base_platform_zephyr_ble.Link.{Link}
use base_platform_zephyr_ble.Comms.{World}
use base_platform_zephyr_ble.Comms
use base_platform_zephyr_ble.Acquisition.Service.{Node}
use base_platform_zephyr_ble.Acquisition.Service
use base_platform_zephyr_ble.App.{App}
use base_platform_zephyr_ble.App

-- src/app/app_config.hpp
abbrev pub watchdog_timeout_ms : ℕ
watchdog_timeout_ms = 10 * 1000

-- The device: the application with the ports, and the services with what they drive. The table of
-- the acquisition and that of the uplink are one object.
pub record Device (Q P L : Type 0) : Type 0 where
  pub app : App Q
  pub node : Node P
  pub world : World L
  pub heartbeat_timer : Timer
  pub watchdog : Watchdog

module _ {Q P L : Type 0} (os : MsgQueue Event Q) (pool : MsgQueue AdvReport P) (link : Link L)
    (driver : Driver) (c : Config) (debug : Bool) where
  -- A port with the queue of an active object whose `init_task` has just run.
  unfoldable pub register : PortList → Device Q P L → Device Q P L
  register p d = record d {
    app = record (d.app) {
      context = record (d.app.context) {
        bus = init_port d.app.context.bus p (os.init queue_length);
      };
    };
  }

  abbrev pub initialize_table : Device Q P L → Device Q P L
  initialize_table d = record d {
    node = record (d.node) { table = base_platform_zephyr_ble.DeviceTable.initialize c };
    world = record (d.world) { table = base_platform_zephyr_ble.DeviceTable.initialize c };
  }

  unfoldable pub initialize_acquisition : ℕ → Device Q P L → Device Q P L × Bool
  unfolding register
  initialize_acquisition answer d =
      let (n, ready) =
        base_platform_zephyr_ble.Acquisition.Service.initialize pool c answer d.node in
      (record (register acquisition_port d) { node = n }, ready)

  unfoldable pub initialize_comms : Device Q P L → Device Q P L × Bool
  unfolding register
  initialize_comms d =
      let (w, ready) = base_platform_zephyr_ble.Comms.initialize link d.world in
      (record (register comms_port d) { world = w }, ready)

  -- `svc::system_diagnostics::initialize`, which always succeeds.
  unfoldable pub initialize_diagnostics : Device Q P L → Device Q P L × Bool
  unfolding register
  initialize_diagnostics d = (
    record (register system_diagnostics_port d) { heartbeat_timer = start d.heartbeat_timer },
    true,
  )

  -- The services, from the table on; false is one that failed, and those behind it are not tried.
  unfoldable pub initialize_services : Device Q P L → ℕ → Device Q P L × Bool
  unfolding initialize_acquisition initialize_comms initialize_diagnostics
  initialize_services d answer =
      let (d1, acquiring) = initialize_acquisition answer (initialize_table d) in
      let (d2, linked) = initialize_comms d1 in
      if acquiring then (if linked then initialize_diagnostics d2 else (d2, false)) else (d1, false)

  set_app : Device Q P L → Run (App Q) → Run (Device Q P L)
  set_app d (running a) = running (record d { app = a })
  set_app d (halted a) = halted (record d { app = a })

  set_bus : Device Q P L → Run (Bus Q) → Run (Device Q P L)
  set_bus d (running b) =
      running (record d { app = record (d.app) { context = record (d.app.context) { bus = b } } })
  set_bus d (halted b) =
      halted (record d { app = record (d.app) { context = record (d.app.context) { bus = b } } })

  -- The end of `initialize`: the state machine, and the outcome as an event.
  unfoldable pub begin : Device Q P L → Bool → Run (Device Q P L)
  unfolding set_app set_bus
  begin d ready =
      let outcome = if ready then app_event_id services_ready else app_event_id services_failed in
      set_app d (base_platform_zephyr_ble.App.start os debug d.app) >>= λ d'.
      set_bus d' (send_event os debug d'.app.context.bus app_port outcome 0)

  -- `answer` is what the controller's call returns to the acquisition service.
  unfoldable pub initialize : ℕ → Device Q P L → Run (Device Q P L)
  unfolding initialize_services begin
  initialize answer d =
      let fed = record d { watchdog = (set_timeout driver watchdog_timeout_ms d.watchdog).0 } in
      let (d', ready) = initialize_services (register app_port fed) answer in begin d' ready

-- ===== src/Concentrator.antt =====
-- The whole device at work: the four threads, the three timers and the Bluetooth callback, over
-- the shared ports, the one device table and the one error light. An order of execution is a
-- sequence of turns; a turn of a thread is one round of `ActiveObject::process_events`.
pub mod Environment
pub mod Order
pub mod Delivery
use base_platform_zephyr_ble.Prelude.{ℕ, Bool, Option, none, some, List, [], ◌∷◌}
use base_platform_zephyr_ble.Config.{Config}
use base_platform_zephyr_ble.Eda.{
  Event, MsgQueue, Bus, Run, running, halted, ◌>>=◌, acquisition_port, system_diagnostics_port,
  next_event, send_event_from_isr,
}
use base_platform_zephyr_ble.Hal.Ble.{AdvReport, Ble, adv_report}
use base_platform_zephyr_ble.Link.{Link}
use base_platform_zephyr_ble.Acquisition.{Acquisition, on_adv_report}
use base_platform_zephyr_ble.Acquisition.Service.{Node}
use base_platform_zephyr_ble.Acquisition.Service
use base_platform_zephyr_ble.Diagnostics.{Diagnostics, diagnostics_event_id, heartbeat_due}
use base_platform_zephyr_ble.Diagnostics
use base_platform_zephyr_ble.System.{System, bus_of, with_bus}
use base_platform_zephyr_ble.System

-- `core` is the application and the uplink. The error light is one object, which the application
-- and the diagnostics service both drive: it is kept in the application's context.
pub record Device (P Q L : Type 0) : Type 0 where
  pub core : System Q L
  pub acquisition : Acquisition P
  pub ble : Ble
  pub diagnostics : Diagnostics

-- Who runs. An advertisement is what the controller received: the address and its type, the level
-- and the payload. The acquisition thread sees a clock, by the round of its drain, and the answer
-- of the controller, if it asks it anything.
pub data Activity : Type 0 where
  core_turn : System.Turn → Activity
  advertisement : List ℕ → ℕ → ℕ → List ℕ → Activity
  acquisition_turn : (ℕ → ℕ) → ℕ → Activity
  heartbeat_expires diagnostics_turn : Activity

module _ {P Q L : Type 0} where
  abbrev pub set_core : Device P Q L → Run (System Q L) → Run (Device P Q L)
  set_core d (running s) = running (record d { core = s })
  set_core d (halted s) = halted (record d { core = s })

  -- What the acquisition thread works on.
  abbrev pub acquisition_node : Device P Q L → Node P
  acquisition_node d = record {
    acquisition = d.acquisition;
    ble = d.ble;
    table = d.core.world.table;
  }

  -- A drain out of fuel counts as a thread that does not come back.
  abbrev pub set_acquisition : Device P Q L → Option (Node P) → Run (Device P Q L)
  set_acquisition d none = halted d
  set_acquisition d (some n) = running (record d {
    core = record (d.core) { world = record (d.core.world) { table = n.table } };
    acquisition = n.acquisition;
    ble = n.ble;
  })

  -- The lights as the diagnostics service finds them.
  abbrev pub diagnostics_of : Device P Q L → Diagnostics
  diagnostics_of d = record (d.diagnostics) {
    leds = record (d.diagnostics.leds) { error = d.core.app.context.error_led };
  }

  abbrev pub set_diagnostics : Device P Q L → Diagnostics → Device P Q L
  set_diagnostics d e = record d {
    core = record (d.core) {
      app = record (d.core.app) {
        context = record (d.core.app.context) { error_led = e.leds.error };
      };
    };
    diagnostics = e;
  }

  abbrev pub on_bus : Device P Q L → Bus Q → Device P Q L
  on_bus d b = record d { core = with_bus d.core b }

module _ {P Q L : Type 0} (c : Config) (link : Link L) (pool : MsgQueue AdvReport P)
    (os : MsgQueue Event Q) (debug : Bool) where
  -- `scan_callback` and the callback that it calls.
  unfoldable pub hear : AdvReport → Device P Q L → Device P Q L
  hear r d =
      let (a, b) = on_adv_report pool os r (d.acquisition, bus_of d.core) in
      record (on_bus d b) { acquisition = a }

  unfoldable pub acquisition_turns :
      (ℕ → ℕ) → ℕ → Option (Event × Bus Q) → Device P Q L → Run (Device P Q L)
  acquisition_turns clock answer none d = running d
  acquisition_turns clock answer (some (e, b)) d = set_acquisition (on_bus d b) (
      base_platform_zephyr_ble.Acquisition.Service.execute_event pool c clock answer e.event_id
        (acquisition_node d))

  unfoldable pub diagnostics_turns : Option (Event × Bus Q) → Device P Q L → Device P Q L
  diagnostics_turns none d = d
  diagnostics_turns (some (e, b)) d =
      set_diagnostics (on_bus d b)
        (base_platform_zephyr_ble.Diagnostics.execute_event b.fault e.event_id (diagnostics_of d))

  -- `on_heartbeat_timer_expired` of system_diagnostics/subsystem.cpp.
  unfoldable pub on_heartbeat_timer_expired : Device P Q L → Device P Q L
  on_heartbeat_timer_expired d = on_bus d (
      send_event_from_isr os (bus_of d.core) system_diagnostics_port
        (diagnostics_event_id heartbeat_due) 0)

  unfoldable pub step : Activity → Device P Q L → Run (Device P Q L)
  unfolding hear acquisition_turns diagnostics_turns on_heartbeat_timer_expired
  step (core_turn t) d = set_core d (base_platform_zephyr_ble.System.step c link os debug t d.core)
  step (advertisement address address_type rssi buffer) d =
      running (hear (adv_report address address_type rssi buffer) d)
  step (acquisition_turn clock answer) d =
      acquisition_turns clock answer (next_event os (bus_of d.core) acquisition_port) d
  step heartbeat_expires d = running (on_heartbeat_timer_expired d)
  step diagnostics_turn d =
      running (diagnostics_turns (next_event os (bus_of d.core) system_diagnostics_port) d)

  unfoldable pub run : List Activity → Device P Q L → Run (Device P Q L)
  unfolding step
  run [] d = running d
  run (t ∷ ts) d = step t d >>= run ts

-- ===== src/Concentrator/Order.antt =====
-- What holds of the whole device after any order of turns.
mod Latched
mod World
pub mod Soundness
mod Threads
use mathlib.Core.Path.{subst}
use base_platform_zephyr_ble.Prelude.{
  ℕ, ◌+◌, ◌^◌, ◌<◌, ◌≡◌, refl, sym, ap, ◌∙◌, Bool, true, false, ◌⊎◌, inl, inr, Option, none, some,
  List, [], ◌∷◌, ◌++◌, ltb, if◌then◌else◌, All, All-append, Bool-cases, arith,
}
use base_platform_zephyr_ble.Config.{Config}
use base_platform_zephyr_ble.Fault.{Fault}
use base_platform_zephyr_ble.DeviceTable.Upsert
use base_platform_zephyr_ble.Eda.{
  Event, MsgQueue, Bus, Run, running, state, ◌>>=◌, acquisition_port, system_diagnostics_port,
  next_event,
}
use base_platform_zephyr_ble.Hal.Ble.{AdvReport, adv_report}
use base_platform_zephyr_ble.Hal.Led.{Led}
use base_platform_zephyr_ble.Link.{Link}
use base_platform_zephyr_ble.Acquisition.{Acquisition, on_adv_report}
use base_platform_zephyr_ble.Acquisition.Drain.{consume_all-Inv, on_adv_report_lem}
use base_platform_zephyr_ble.Acquisition.Service.{
  Handled, drained, untouched, execute_event-Handled,
}
use base_platform_zephyr_ble.Acquisition.Widths.{ReportFits, consume_all-TableFits}
use base_platform_zephyr_ble.App.{App}
use base_platform_zephyr_ble.App.Invariant.{Inv, light-Inv}
use base_platform_zephyr_ble.Diagnostics.{diagnostics_event_id, heartbeat_due, execute_event-error}
use base_platform_zephyr_ble.Diagnostics
use base_platform_zephyr_ble.Comms.Widths.{WorldFits}
use base_platform_zephyr_ble.System.{System, bus_of, with_bus}
use base_platform_zephyr_ble.System
use base_platform_zephyr_ble.System.Returns.{step-Keeps, on_bus-Inv}
use base_platform_zephyr_ble.Concentrator.{
  Device, Activity, core_turn, advertisement, acquisition_turn, heartbeat_expires, diagnostics_turn,
  diagnostics_of, set_diagnostics, set_core, set_acquisition, acquisition_node, on_bus, hear,
  acquisition_turns, diagnostics_turns, on_heartbeat_timer_expired, step, run,
}
use base_platform_zephyr_ble.Concentrator.Environment.{Bytewise, Allowed, adv_report-ReportFits}
use base_platform_zephyr_ble.Concentrator.Order.Latched.{
  FrontKeeps, next_event-fault, send_event_from_isr-fault, step-held,
}
use base_platform_zephyr_ble.Concentrator.Order.World.{WorldSound, step-WorldSound}
use base_platform_zephyr_ble.Concentrator.Order.Soundness.{Sound, Kept, on_bus-Sound, on_bus-Kept}
use base_platform_zephyr_ble.Concentrator.Order.Threads.{
  core_turn-Kept, hear-Kept, acquisition_turns-Kept, diagnostics_turns-Kept,
}

module _ {P Q L : Type 0} (c : Config) (link : Link L) (pool : MsgQueue AdvReport P)
    (os : MsgQueue Event Q) (room : 0 < c.max_devices) (small : Bytewise link) where
  step-Kept :
      (t : Activity) (d : Device P Q L)
      → Allowed c t
      → Sound c pool d
      → Kept c pool d (step c link pool os false t d)
  unfolding step on_heartbeat_timer_expired
  step-Kept (core_turn t) d a v = core_turn-Kept c link pool os room small t d a v
  step-Kept (advertisement address address_type rssi buffer) d (whole, level, bytes) v =
      hear-Kept c link pool os room small (adv_report address address_type rssi buffer) d
        (adv_report-ReportFits address address_type rssi buffer whole level bytes) v
  step-Kept (acquisition_turn clock answer) d a v =
      acquisition_turns-Kept c link pool os room small clock answer
        (next_event os (bus_of d.core) acquisition_port) d a
        (next_event-fault os (bus_of d.core) acquisition_port) v
  step-Kept heartbeat_expires d a v =
      on_bus-Kept c pool d _
        (send_event_from_isr-fault os (bus_of d.core) system_diagnostics_port
          (diagnostics_event_id heartbeat_due) 0)
        v
  step-Kept diagnostics_turn d a v =
      diagnostics_turns-Kept c link pool os room small
        (next_event os (bus_of d.core) system_diagnostics_port) d
        (next_event-fault os (bus_of d.core) system_diagnostics_port) v

  -- On a release build with room for a device and a transport of uint8_t sizes, from a sound
  -- device: whatever the order in which advertisements arrive, timers expire and the four threads
  -- run, every turn comes back and the device is sound afterwards. So the machine is in the state
  -- it says, the backoff and its timer fit that state, and the error light does while no fault is
  -- latched; the table is well formed; every field fits its machine width; and every payload
  -- offered is bytes, of the length that its header announces. A fault latched before keeps its
  -- reason.
  pub run-Sound :
      (turns : List Activity) (d : Device P Q L)
      → All (Allowed c) turns
      → Sound c pool d
      → (d' : Device P Q L) × (run c link pool os false turns d ≡ running d')
        × Sound c pool d'
        × ((bus_of d.core).fault.active ≡ true → (bus_of d'.core).fault ≡ (bus_of d.core).fault)
  unfolding run
  run-Sound [] d a v = (d, refl, v, λ _. refl)
  run-Sound (t ∷ turns) d a v =
      let (d', done, v', kept) = step-Kept t d a.0 v in
      let (d'', rest, v'', still) = run-Sound turns d' a.1 v' in
      (
        d'',
        ap (λ r. r >>= run c link pool os false turns) done ∙ rest,
        v'',
        λ latched. still (ap (λ (f : Fault). f.active) (kept latched) ∙ latched) ∙ kept latched,
      )

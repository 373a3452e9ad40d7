-- ===== src/Diagnostics.antt =====
-- src/svc/system_diagnostics: the heartbeat, and how a latched fault is shown. The health log and
-- the calls of the port's callback table are left out: nothing registers one.
use base_platform_zephyr_ble.Prelude.{
  ℕ, zero, suc, ◌+◌, ◌%◌, ◌^◌, ◌≡◌, Bool, true, false, not, ◌==◌, if◌then◌else◌, arith,
}
use base_platform_zephyr_ble.Fault.{Fault, is_active}
use base_platform_zephyr_ble.Hal.Led.{
  Manager, heartbeat_led, activity_led, error_led, with_led, turn_on, turn_off, toggle,
}

-- src/svc/system_diagnostics/port.hpp
pub data DiagnosticsEvent : Type 0 where
  invalid heartbeat_due : DiagnosticsEvent

abbrev pub diagnostics_event_id : DiagnosticsEvent → ℕ
diagnostics_event_id invalid = 0
diagnostics_event_id heartbeat_due = 1

-- The statics, and the lights that the service drives.
pub record Diagnostics : Type 0 where
  pub fault_announced : Bool
  pub fault_blink_on : Bool
  pub heartbeat_count : ℕ
  pub leds : Manager

unfoldable pub annunciate_fault : Diagnostics → Diagnostics
annunciate_fault d =
    let announced = if d.fault_announced then d.leds else with_led heartbeat_led turn_off d.leds in
    let blink = not d.fault_blink_on in
    record d {
      fault_announced = true;
      fault_blink_on = blink;
      leds =
          if blink
          then with_led activity_led turn_on (with_led error_led turn_on announced)
          else with_led activity_led turn_off (with_led error_led turn_off announced);
    }

-- `Port::execute_event`; the count is a uint32_t.
unfoldable pub execute_event : Fault → ℕ → Diagnostics → Diagnostics
unfolding annunciate_fault
execute_event fault id d =
    let counted = record d { heartbeat_count = (d.heartbeat_count + 1) % 2 ^ 32 } in
    if id == diagnostics_event_id heartbeat_due
    then (if is_active fault
        then annunciate_fault counted
        else record counted { leds = with_led heartbeat_led toggle d.leds })
    else d

-- The heartbeats of a device whose fault stays latched.
abbrev pub heartbeats : ℕ → Fault → Diagnostics → Diagnostics
heartbeats zero fault d = d
heartbeats (suc n) fault d =
    heartbeats n fault (execute_event fault (diagnostics_event_id heartbeat_due) d)

-- What a faulted device shows.
pub record Showing (d : Diagnostics) : Type 0 where
  pub announced : d.fault_announced ≡ true
  pub heartbeat_off : d.leds.heartbeat.state ≡ false
  pub error_blinks : d.leds.error.state ≡ d.fault_blink_on
  pub activity_blinks : d.leds.activity.state ≡ d.fault_blink_on

-- Without a fault the service leaves the error light alone.
pub execute_event-error :
    (fault : Fault) (id : ℕ) (d : Diagnostics)
    → fault.active ≡ false
    → (execute_event fault id d).leds.error ≡ d.leds.error
unfolding execute_event
execute_event-error fault id d h = ground arith

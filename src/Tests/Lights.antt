-- ===== src/Tests/Lights.antt =====
-- A device with a latched fault.
use base_platform_zephyr_ble.Prelude.{Bool, true, false, [], ◌∷◌}
use base_platform_zephyr_ble.Fault.{Fault, event_lost}
use base_platform_zephyr_ble.Diagnostics.{Diagnostics}
use base_platform_zephyr_ble.Hal.Gpio.{low}
use base_platform_zephyr_ble.Hal.Gpio
use base_platform_zephyr_ble.Hal.Led.{error_led, manager, get_led}
use base_platform_zephyr_ble.Hal.Led.Follows.{
  Follows, turn_it_on, toggle_it, calls, manager-Follows,
}
use base_platform_zephyr_ble.Tests.Fixtures.{dark}

abbrev pub healthy : Diagnostics
healthy = record {
  fault_announced = false;
  fault_blink_on = false;
  heartbeat_count = 41;
  leds = record { heartbeat = record dark { state = true }; activity = dark; error = dark };
}

abbrev lost_one : Fault
lost_one = record { active = true; reason = event_lost }

-- A board without an activity light.
abbrev has : Gpio.GpioInstances → Bool
has Gpio.activity_led = false
has _ = true

manager-Follows_example : Follows low (
    calls
      (turn_it_on ∷ toggle_it ∷ turn_it_on ∷ [])
      (get_led error_led (manager (Gpio.manager has (λ _. true) (λ _. true)))))
manager-Follows_example =
    manager-Follows low has error_led (turn_it_on ∷ toggle_it ∷ turn_it_on ∷ [])

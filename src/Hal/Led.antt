-- ===== src/Hal/Led.antt =====
-- src/hal/led: a status light over a pin, and the three lights of the board.
pub mod Follows
use base_platform_zephyr_ble.Prelude.{Bool, true, false, not}
use base_platform_zephyr_ble.Hal.Gpio.{
  Gpio, low, high, set_pin, toggle_pin, get_gpio, instance_value,
}
use base_platform_zephyr_ble.Hal.Gpio

pub record Led : Type 0 where
  pub gpio : Gpio
  pub state : Bool

abbrev pub led : Gpio → Led
led gpio = record { gpio = gpio; state = false }

abbrev pub turn_on : Led → Led
turn_on l = record { gpio = Gpio.write high l.gpio; state = true }

abbrev pub turn_off : Led → Led
turn_off l = record { gpio = Gpio.write low l.gpio; state = false }

abbrev pub toggle : Led → Led
toggle l = record { gpio = Gpio.toggle l.gpio; state = not l.state }

pub data LedInstances : Type 0 where
  heartbeat_led activity_led error_led : LedInstances

-- The lights of `hal::led::Manager`.
pub record Manager : Type 0 where
  pub heartbeat : Led
  pub activity : Led
  pub error : Led

abbrev pub get_state : Led → Bool
get_state l = l.state

-- The constructor: each light over the pin that the manager of the pins has for it.
abbrev pub manager : Gpio.Manager → Manager
manager pins = record {
  heartbeat = led (get_gpio (instance_value Gpio.heartbeat_led) pins);
  activity = led (get_gpio (instance_value Gpio.activity_led) pins);
  error = led (get_gpio (instance_value Gpio.error_led) pins);
}

abbrev pub get_led : LedInstances → Manager → Led
get_led heartbeat_led m = m.heartbeat
get_led activity_led m = m.activity
get_led error_led m = m.error

-- A method of the light that `get_led` returns.
abbrev pub with_led : LedInstances → (Led → Led) → Manager → Manager
with_led heartbeat_led f m = record m { heartbeat = f m.heartbeat }
with_led activity_led f m = record m { activity = f m.activity }
with_led error_led f m = record m { error = f m.error }

-- ===== src/Hal/Led/Follows.antt =====
-- A light and its pin.
use base_platform_zephyr_ble.Prelude.{◌≡◌, Bool, true, false, List, [], ◌∷◌, arith, if◌then◌else◌}
use base_platform_zephyr_ble.Hal.Gpio.{
  Gpio, GpioState, low, high, GpioInstances, level, get_gpio, instance_value,
}
use base_platform_zephyr_ble.Hal.Gpio
use base_platform_zephyr_ble.Hal.Led.{
  Led, LedInstances, heartbeat_led, activity_led, error_led, manager, get_led, turn_on, turn_off,
  toggle,
}

-- What a caller does with a light.
pub data LedCall : Type 0 where
  turn_it_on turn_it_off toggle_it : LedCall

abbrev pub call : LedCall → Led → Led
call turn_it_on l = turn_on l
call turn_it_off l = turn_off l
call toggle_it l = toggle l

abbrev pub calls : List LedCall → Led → Led
calls [] l = l
calls (o ∷ ops) l = calls ops (call o l)

abbrev pub shown : Bool → GpioState
shown lit = if lit then high else low

-- The pin shows what the light says that it does; a light without a pin never calls the driver.
pub record Follows (before : GpioState) (l : Led) : Type 0 where
  pub present : l.gpio.is_present ≡ true → level before l.gpio.calls ≡ shown l.state
  pub absent : l.gpio.is_present ≡ false → l.gpio.calls ≡ []

call-Follows :
    (before : GpioState) (o : LedCall) (l : Led) → Follows before l → Follows before (call o l)
call-Follows before turn_it_on l v = ground arith
call-Follows before turn_it_off l v = ground arith
call-Follows before toggle_it l v = ground arith

calls-Follows :
    (before : GpioState) (ops : List LedCall) (l : Led)
    → Follows before l
    → Follows before (calls ops l)
calls-Follows before [] l v = v
calls-Follows before (o ∷ ops) l v = calls-Follows before ops (call o l) (call-Follows before o l v)

-- Whichever pins the board has, if the driver configures those: after any calls on a light of the
-- board, from its construction on, its pin has the level that the state of the light says, whatever
-- level it had at power-on; and no light calls the driver for a pin that the board has not.
pub manager-Follows :
    (before : GpioState) (has : GpioInstances → Bool) (i : LedInstances) (ops : List LedCall)
    → Follows before (calls ops (get_led i (manager (Gpio.manager has (λ _. true) (λ _. true)))))
manager-Follows before has i ops = calls-Follows before ops _ (fresh i)
  where
    fresh :
        (i : LedInstances)
        → Follows before (get_led i (manager (Gpio.manager has (λ _. true) (λ _. true))))
    fresh heartbeat_led = ground arith
    fresh activity_led = ground arith
    fresh error_led = ground arith

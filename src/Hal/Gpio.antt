-- ===== src/Hal/Gpio.antt =====
-- src/hal/gpio/zephyr: a pin, present or not, with the calls it made on the driver, latest first; and
-- the manager of the board's pins. A callback is a name.
use base_platform_zephyr_ble.Prelude.{
  ℕ, Bool, false, Option, none, some, List, [], ◌∷◌, if◌then◌else◌, ◌==◌,
}

pub data GpioState : Type 0 where
  low high : GpioState

pub data DriverCall : Type 0 where
  set_pin : GpioState → DriverCall
  toggle_pin configure_pin : DriverCall

pub record Gpio : Type 0 where
  pub is_present : Bool
  pub callback : Option ℕ
  pub calls : List DriverCall

abbrev pub write : GpioState → Gpio → Gpio
write s g = if g.is_present then record g { calls = set_pin s ∷ g.calls } else g

abbrev pub toggle : Gpio → Gpio
toggle g = if g.is_present then record g { calls = toggle_pin ∷ g.calls } else g

abbrev pub set_callback : ℕ → Gpio → Gpio
set_callback callback g = record g { callback = some callback }

-- `positive` is whether the driver reads a positive level.
abbrev pub read : Bool → Gpio → GpioState
read positive g = if g.is_present then (if positive then high else low) else low

-- `ready` and `configured` are the driver's answers.
abbrev pub configure_as_output : Bool → Bool → Gpio → Gpio × Bool
configure_as_output ready configured g =
    if g.is_present
    then (if ready then (record g { calls = configure_pin ∷ g.calls }, configured) else (g, false))
    else (g, false)

-- A pin of the board, if it has it; ABSENT_PIN is the spec of one that it has not.
abbrev pub gpio : Bool → Gpio
gpio present = record { is_present = present; callback = none; calls = [] }

pub data GpioInstances : Type 0 where
  heartbeat_led activity_led error_led : GpioInstances

-- The values of the enumeration.
abbrev pub instance_value : GpioInstances → ℕ
instance_value heartbeat_led = 0
instance_value activity_led = 1
instance_value error_led = 2

pub record Manager : Type 0 where
  pub heartbeat : Gpio
  pub activity : Gpio
  pub error : Gpio

-- The constructor: which pins the board has, and what the driver answers for a pin.
abbrev pub manager :
    (present : GpioInstances → Bool) (ready configured : GpioInstances → Bool) → Manager
manager present ready configured =
    let bring_up : GpioInstances → Gpio =
      λ i. (configure_as_output (ready i) (configured i) (gpio (present i))).0 in
    record {
      heartbeat = bring_up heartbeat_led;
      activity = bring_up activity_led;
      error = bring_up error_led;
    }

-- `get_gpio` on the value of its argument: one that names no pin falls back to the first.
abbrev pub get_gpio : ℕ → Manager → Gpio
get_gpio i m =
    if i == instance_value heartbeat_led
    then m.heartbeat
    else if i == instance_value activity_led
    then m.activity
    else if i == instance_value error_led
    then m.error
    else m.heartbeat

-- The level of a pin after some calls, the latest first, by the driver's documentation: a pin that
-- is configured with GPIO_OUTPUT_INACTIVE is low, and one that nothing was called on is as it was.
abbrev pub level : GpioState → List DriverCall → GpioState
level before [] = before
level before (set_pin s ∷ calls) = s
level before (toggle_pin ∷ calls) = elim (level before calls) [ low ↦ high | high ↦ low ]
level before (configure_pin ∷ calls) = low

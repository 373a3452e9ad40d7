-- ===== src/Hal/System.antt =====
-- src/hal/system/zephyr/system_zephyr.cpp. `reset` is one call of Zephyr's.
use base_platform_zephyr_ble.Prelude.{
  ℕ, ◌/◌, ◌%◌, ◌^◌, Bool, true, false, Option, none, some, if◌then◌else◌,
}

pub data ResetReason : Type 0 where
  unknown power_on pin_reset software watchdog brownout : ResetReason

-- Zephyr's flags that the code asks for.
pub data Cause : Type 0 where
  reset_watchdog reset_brownout reset_software reset_pin reset_por : Cause

-- `cause` tells which flags `hwinfo_get_reset_cause` has set, none for an error; the first argument
-- is CONFIG_HWINFO.
unfoldable pub get_reset_reason : Bool → Option (Cause → Bool) → ResetReason
get_reset_reason false cause = unknown
get_reset_reason true none = unknown
get_reset_reason true (some caused) =
    if caused reset_watchdog
    then watchdog
    else if caused reset_brownout
    then brownout
    else if caused reset_software
    then software
    else if caused reset_pin
    then pin_reset
    else if caused reset_por
    then power_on
    else unknown

-- `k_uptime_get` is the argument, in milliseconds.
abbrev pub get_uptime_seconds : ℕ → ℕ
get_uptime_seconds uptime_ms = uptime_ms / 1000 % 2 ^ 32

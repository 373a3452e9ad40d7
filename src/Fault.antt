-- ===== src/Fault.antt =====
-- src/utils/fault: the latch that says why the device gave up. A reset is the only way out.
use base_platform_zephyr_ble.Prelude.{Bool, true, false, if◌then◌else◌}

pub data Reason : Type 0 where
  no_fault event_lost port_not_ready unrecoverable : Reason

pub record Fault : Type 0 where
  pub active : Bool
  pub reason : Reason

abbrev pub no_report : Fault
no_report = record { active = false; reason = no_fault }

abbrev pub report : Reason → Fault → Fault
report reason f = if f.active then f else record { active = true; reason = reason }

abbrev pub is_active : Fault → Bool
is_active f = f.active

abbrev pub get_reason : Fault → Reason
get_reason f = f.reason

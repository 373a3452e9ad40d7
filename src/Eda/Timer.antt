-- ===== src/Eda/Timer.antt =====
-- src/eda/timer: the timer's own fields, and the last call that it made on the kernel timer.
use base_platform_zephyr_ble.Prelude.{ℕ, Bool, if◌then◌else◌}

pub data KernelCall : Type 0 where
  never stopped : KernelCall
  started_once started_periodic : ℕ → KernelCall

pub record Timer : Type 0 where
  pub period : ℕ
  pub is_periodic : Bool
  pub last_call : KernelCall

abbrev pub timer : ℕ → Bool → Timer
timer period is_periodic = record { period = period; is_periodic = is_periodic; last_call = never }

-- `start(period)`; `start()` passes the period that the timer has.
abbrev pub start_with : ℕ → Timer → Timer
start_with period t = record t {
  period = period;
  last_call = if t.is_periodic then started_periodic period else started_once period;
}

abbrev pub start : Timer → Timer
start t = start_with t.period t

abbrev pub stop : Timer → Timer
stop t = record t { last_call = stopped }

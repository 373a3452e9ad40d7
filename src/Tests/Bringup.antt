-- ===== src/Tests/Bringup.antt =====
-- Bring-up, the watchdog, the thread pool and the ring queue at concrete inputs.
use base_platform_zephyr_ble.Prelude.{ℕ, ◌≡◌, true, false, some, List, [], ◌∷◌, arith}
use base_platform_zephyr_ble.Fault.{no_report}
use base_platform_zephyr_ble.Eda.{Event, start_up}
use base_platform_zephyr_ble.Eda.Timer.{timer}
use base_platform_zephyr_ble.Hal.Ble.{AdvReport}
use base_platform_zephyr_ble.Hal.Watchdog.{Driver, watchdog}
use base_platform_zephyr_ble.Hal.Watchdog.Armed.{Op, sets, refreshes, run, Guarded, run-Guarded}
use base_platform_zephyr_ble.Hal.Threads.{ThreadStart, powered_up, creates, Pooled, creates-Pooled}
use base_platform_zephyr_ble.Utils.Ring.{empty}
use base_platform_zephyr_ble.Utils.Ring.Refine
use base_platform_zephyr_ble.Utils.Ring.Refine.{op_push, op_pop, op_clear, run_refines}
use base_platform_zephyr_ble.App.{constructed}
use base_platform_zephyr_ble.App.BringUp.{Device, initialize}
use base_platform_zephyr_ble.App.BringUp.Outcome.{BroughtUp, acquires, links, initialize-BroughtUp}
use base_platform_zephyr_ble.Tests.Fixtures.{
  Items, list_queue, two_slots, scripted, dark, world, one_heard,
}

abbrev calls : List (base_platform_zephyr_ble.Utils.Ring.Refine.Op {T = ℕ} 0 2)
calls = op_push 5 ∷ op_push 6 ∷ op_push 7 ∷ op_pop ∷ op_push 8 ∷ []

run_refines_example :
    base_platform_zephyr_ble.Utils.Ring.Refine.run {T = ℕ} 0 2 calls (empty 0 2)
    ≡ base_platform_zephyr_ble.Utils.Ring.Refine.list_run {T = ℕ} 0 2 calls []
run_refines_example = run_refines {T = ℕ} 0 2 calls (omega arith)

abbrev good_driver : Driver
good_driver = record {
  is_ready = λ calls. true;
  installed = λ calls. some 1;
  succeeds = λ calls. true;
}

abbrev watched : List Op
watched = refreshes ∷ sets 100 ∷ sets 10000 ∷ refreshes ∷ sets 600 ∷ refreshes ∷ []

run-Guarded_example : Guarded good_driver (run good_driver watched watchdog)
run-Guarded_example = run-Guarded good_driver watched

abbrev start_of : ℕ → ThreadStart × ℕ
start_of n = (record { entry = n; arg = n }, 5)

abbrev nine : List (ThreadStart × ℕ)
nine =
    start_of 8
    ∷ start_of 7
    ∷ start_of 6
    ∷ start_of 5
    ∷ start_of 4
    ∷ start_of 3
    ∷ start_of 2
    ∷ start_of 1
    ∷ start_of 0
    ∷ []

creates-Pooled_example : Pooled nine (creates nine powered_up)
creates-Pooled_example = creates-Pooled nine

abbrev device : Device (Items Event) (Items AdvReport) ℕ
device = record {
  app = constructed (start_up 0 no_report) dark;
  node = record {
    acquisition = record {
      report_pool = record { items = []; limit = 4 };
      dropped_report_count = 0;
    };
    ble = record { is_initialized = false; is_scanning = false };
    table = one_heard;
  };
  world = world one_heard;
  heartbeat_timer = timer 1000 true;
  watchdog = watchdog;
}

initialize-BroughtUp_example :
    BroughtUp list_queue list_queue
      (scripted false true 11)
      good_driver
      two_slots
      true
      no_report
      (acquires list_queue list_queue (scripted false true 11) good_driver two_slots true 7 device)
      (links list_queue list_queue (scripted false true 11) good_driver two_slots true device)
      (initialize list_queue list_queue
        (scripted false true 11)
        good_driver
        two_slots
        true
        7
        device)
initialize-BroughtUp_example =
    initialize-BroughtUp list_queue list_queue (scripted false true 11) good_driver two_slots true 7
      device 0 no_report dark

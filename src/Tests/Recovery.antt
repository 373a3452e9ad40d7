-- ===== src/Tests/Recovery.antt =====
-- A recovery through both threads at a concrete input.
use base_platform_zephyr_ble.Prelude.{ℕ, ◌≡◌, refl, true, some, none, [], ◌∷◌, arith}
use base_platform_zephyr_ble.Eda.{Event, running, queue_of, app_port, comms_port}
use base_platform_zephyr_ble.App.{in_soft_error, constructed}
use base_platform_zephyr_ble.System.{System, retry_expires, app_turn, comms_turn, run}
use base_platform_zephyr_ble.System.Passing.{Idle}
use base_platform_zephyr_ble.System.Recovery.{Recovered, run-Recovered}
use base_platform_zephyr_ble.Tests.Fixtures.{
  Items, list_queue, two_slots, quiet_bus, dark, scripted, world, one_heard, calm_env, no_events,
}

abbrev failed : System (Items Event) ℕ
failed = record {
  app = record (constructed quiet_bus dark) {
    machine = record { current = some in_soft_error; previous = none; next = none };
  };
  world = world one_heard;
}

app-Idle : Idle list_queue quiet_bus app_port
unfolding queue_of
app-Idle = record { queue = no_events; registered = refl; empty = refl; room = omega arith }

comms-Idle : Idle list_queue quiet_bus comms_port
unfolding queue_of
comms-Idle = record { queue = no_events; registered = refl; empty = refl; room = omega arith }

run-Recovered_example :
    (s' : System (Items Event) ℕ) × (run two_slots
        (scripted true true 51)
        list_queue
        true
        (retry_expires ∷ app_turn ∷ comms_turn calm_env ∷ app_turn ∷ comms_turn calm_env ∷ [])
        failed
      ≡ running s')
    × Recovered two_slots (scripted true true 51) list_queue true failed s'
run-Recovered_example =
    run-Recovered two_slots (scripted true true 51) list_queue true failed calm_env calm_env refl
      app-Idle comms-Idle refl

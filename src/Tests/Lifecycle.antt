-- ===== src/Tests/Lifecycle.antt =====
-- The application from power-on.
use base_platform_zephyr_ble.Prelude.{ℕ, ◌≡◌, refl, false, true, none, some, List, [], ◌∷◌}
use base_platform_zephyr_ble.Eda.{Event, running, state}
use base_platform_zephyr_ble.Eda.Timer.{timer, start_with}
use base_platform_zephyr_ble.Events.{
  app_event_id, network_joined, network_join_failed, retry_timeout,
}
use base_platform_zephyr_ble.App.{StateId, in_startup, App, constructed, start, run, dispatch_event}
use base_platform_zephyr_ble.App.Invariant.{Inv}
use base_platform_zephyr_ble.App.Returns.{start-run-returns}
use base_platform_zephyr_ble.Hal.Led.{turn_on}
use base_platform_zephyr_ble.Tests.Fixtures.{Items, list_queue, quiet_bus, dark}

abbrev outage : List ℕ
outage =
    app_event_id network_join_failed
    ∷ app_event_id retry_timeout
    ∷ app_event_id network_join_failed
    ∷ app_event_id network_joined
    ∷ []

start-run-returns_example :
    (a a' : App (Items Event)) × (start list_queue false (constructed quiet_bus dark) ≡ running a)
    × (run list_queue false outage a ≡ running a')
    × Inv true a'
start-run-returns_example = start-run-returns list_queue outage quiet_bus dark refl

abbrev in_outage : StateId → App (Items Event)
in_outage s = record {
  machine = record { current = some s; previous = some in_startup; next = none };
  current_state_id = s;
  context = record {
    bus = quiet_bus;
    retry_delay_ms = 60000;
    retry_timer = start_with 30000 (timer 30000 false);
    error_led = turn_on dark;
  };
}

-- The state that an event leaves behind.
abbrev after : ℕ → App (Items Event) → App (Items Event)
after id a = state (dispatch_event list_queue true id a)

-- ===== src/Tests/Device.antt =====
-- The whole device at concrete inputs.
use base_platform_zephyr_ble.Prelude.{
  ℕ, ◌≡◌, refl, true, false, none, some, List, [], ◌∷◌, All, arith,
}
use base_platform_zephyr_ble.Eda.{
  Event, Bus, put_slot, running, queue_of, acquisition_port, comms_port, system_diagnostics_port,
}
use base_platform_zephyr_ble.App.{in_listening, constructed}
use base_platform_zephyr_ble.Hal.Ble.{AdvReport}
use base_platform_zephyr_ble.DeviceTable.Widths.{Bytes, Address, EntryFits, TableFits}
use base_platform_zephyr_ble.Comms.{dispatch}
use base_platform_zephyr_ble.Comms.Widths.{WorldFits, EnvFits, dispatch-WorldFits}
use base_platform_zephyr_ble.System.{dispatch_expires, comms_turn, bus_of}
use base_platform_zephyr_ble.Concentrator.{
  Device, Activity, core_turn, advertisement, acquisition_turn, heartbeat_expires, diagnostics_turn,
  run,
}
use base_platform_zephyr_ble.Concentrator.Environment.{Surroundings, Allowed}
use base_platform_zephyr_ble.Concentrator.Order.Soundness.{Sound}
use base_platform_zephyr_ble.Concentrator.Order.{run-Sound}
use base_platform_zephyr_ble.System.Passing.{Idle}
use base_platform_zephyr_ble.Concentrator.Delivery.Frame.{Advertised}
use base_platform_zephyr_ble.Tests.Fixtures.{
  Items, list_queue, two_slots, quiet_bus, no_events, dark, scripted, world, one_heard,
  one_heard-Inv, calm_env, address_b,
}
use base_platform_zephyr_ble.Tests.Lights.{healthy}
use base_platform_zephyr_ble.Acquisition.RoundTrip.{payload}
use base_platform_zephyr_ble.Tests.Radio.{frame, flags_element, frame-Fits}

abbrev pub four_ports : Bus (Items Event)
four_ports = put_slot quiet_bus system_diagnostics_port no_events

abbrev listening : Device (Items AdvReport) (Items Event) ℕ
listening = record {
  core = record {
    app = record (constructed four_ports dark) {
      machine = record { current = some in_listening; previous = none; next = none };
      current_state_id = in_listening;
    };
    world = world one_heard;
  };
  acquisition = record { report_pool = record { items = []; limit = 4 }; dropped_report_count = 0 };
  ble = record { is_initialized = true; is_scanning = true };
  diagnostics = healthy;
}

address_b-Address : Address address_b
address_b-Address = record { size = refl; bytes = ground arith }

one_heard-fits : All EntryFits one_heard.entries
one_heard-fits = ground arith

one_heard-TableFits : TableFits one_heard
one_heard-TableFits = record { entries = one_heard-fits; evicted_count = omega arith }

one_heard-WorldFits : WorldFits (world one_heard)
one_heard-WorldFits = record {
  table = one_heard-TableFits;
  sequence = omega arith;
  last_uplink_uptime_s = omega arith;
  offered = tt;
}

calm-EnvFits : EnvFits calm_env
calm-EnvFits = record { sent_s = λ i. omega arith; meanwhile = λ i t v. v }

dispatch-WorldFits_example :
    WorldFits (dispatch two_slots (scripted true true 51) calm_env (world one_heard))
dispatch-WorldFits_example =
    dispatch-WorldFits two_slots (scripted true true 51) calm_env (world one_heard) calm-EnvFits
      one_heard-WorldFits

calm-Surroundings : Surroundings two_slots calm_env
calm-Surroundings = record {
  sent_s = λ i. omega arith;
  clock = λ i j. 0;
  reports = λ i. [];
  times = λ i j. omega arith;
  fits = λ i. tt;
  meanwhile = λ i t. refl;
}

listening-Sound : Sound two_slots list_queue listening
listening-Sound = record {
  app = record {
    badge = refl;
    no_next = refl;
    delay_low = omega arith;
    delay_high = omega arith;
    one_shot = refl;
    retrying = tt;
  };
  light = λ h. record {
    badge = refl;
    no_next = refl;
    delay_low = omega arith;
    delay_high = omega arith;
    one_shot = refl;
    retrying = refl;
  };
  world = record { table = one_heard-Inv; widths = one_heard-WorldFits };
  reports = tt;
  dropped = omega arith;
}

-- The value of an advertisement with the frame of an endpoint.
abbrev pub aired : List ℕ
aired = payload (flags_element ∷ []) frame []

abbrev busy : List Activity
busy =
    advertisement address_b 1 200 aired
    ∷ acquisition_turn (λ i. 30) 0
    ∷ heartbeat_expires
    ∷ diagnostics_turn
    ∷ core_turn dispatch_expires
    ∷ core_turn (comms_turn calm_env)
    ∷ []

aired-Bytes : Bytes aired
aired-Bytes = ground arith

busy-Allowed : All (Allowed two_slots) busy
busy-Allowed = (
  (address_b-Address, omega arith, aired-Bytes),
  ((λ i. omega arith), (tt, (tt, (tt, (calm-Surroundings, tt))))),
)

run-Sound_example :
    (d' : Device (Items AdvReport) (Items Event) ℕ) × (run two_slots
        (scripted true true 51)
        list_queue
        list_queue
        false
        busy
        listening
      ≡ running d')
    × Sound two_slots list_queue d'
    × ((bus_of listening.core).fault.active ≡ true
        → (bus_of d'.core).fault ≡ (bus_of listening.core).fault)
run-Sound_example =
    run-Sound two_slots (scripted true true 51) list_queue list_queue (omega arith)
      (record { available = λ l. omega arith; uplinks = λ l. omega arith }) busy listening
      busy-Allowed listening-Sound

pub four_ports-acquisition : Idle list_queue four_ports acquisition_port
unfolding queue_of
four_ports-acquisition = record {
  queue = no_events;
  registered = refl;
  empty = refl;
  room = omega arith;
}

pub four_ports-comms : Idle list_queue four_ports comms_port
unfolding queue_of
four_ports-comms = record { queue = no_events; registered = refl; empty = refl; room = omega arith }

pub aired-Advertised : Advertised two_slots frame aired
aired-Advertised = record {
  elements = flags_element ∷ [];
  rest = [];
  others = ((λ e. cc), tt);
  fits = frame-Fits;
  bytes = refl;
  short = omega arith;
  company = refl;
}

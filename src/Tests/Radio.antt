-- ===== src/Tests/Radio.antt =====
-- Reports from the air, and the events that follow.
use base_platform_zephyr_ble.Prelude.{
  ℕ, zero, suc, ◌<◌, ◌≡◌, refl, true, List, [], ◌∷◌, ◌++◌, length, ◌==◌, if◌then◌else◌, arith,
}
use base_platform_zephyr_ble.Hal.Ble.{AdvReport}
use base_platform_zephyr_ble.Eda.{
  Event, event, app_port, acquisition_port, Bus, put_slot, send_event,
}
use base_platform_zephyr_ble.Eda.Delivery.{SendOutcome, send_event-SendOutcome}
use base_platform_zephyr_ble.Fault.{event_lost}
use base_platform_zephyr_ble.Acquisition.{
  ManufacturerFrame, accepted, rejected, parse_custom_frame, Acquisition, drain_report_pool,
}
use base_platform_zephyr_ble.Acquisition.Parse.{Element, Fits, parse_custom_frame-agree}
use base_platform_zephyr_ble.Acquisition.RoundTrip.{payload, parse-payload}
use base_platform_zephyr_ble.Acquisition.Drain.{Drained, drain_report_pool-Drained}
use base_platform_zephyr_ble.Wire.{u8_at}
use base_platform_zephyr_ble.Acquisition.Service.{Node}
use base_platform_zephyr_ble.Tests.Fixtures.{
  two_slots, address_a, one_heard, Items, list_queue, quiet_bus,
}

abbrev pub frame : ManufacturerFrame
frame = record {
  company_id = 0x59;
  sensor_data = record {
    sns_temperature = 21;
    sns_humidity = 40;
    sns_pressure = 1013;
    acc_x_raw_data = 1;
    acc_y_raw_data = 65535;
    acc_z_raw_data = 300;
    battery_mv = 3000;
    timestamp = 70000;
    status_flags = 1;
  };
}

-- The flags element that most advertisements start with.
abbrev pub flags_element : Element
flags_element = record { ad_type = 1; value = 6 ∷ [] }

abbrev report : AdvReport
report = record {
  address = address_a;
  address_type = 1;
  rssi = 200;
  data_length = 24;
  bytes = payload (flags_element ∷ []) frame [];
}

abbrev padded_report : AdvReport
padded_report = record report { bytes = payload (flags_element ∷ []) frame (0xff ∷ 0xff ∷ []) }

pub frame-Fits : Fits frame
frame-Fits = record {
  company = omega arith;
  pressure = omega arith;
  x = omega arith;
  y = omega arith;
  z = omega arith;
  battery = omega arith;
  time = omega arith;
}

parse-payload_example :
    parse_custom_frame two_slots report
    ≡ (if frame.company_id == two_slots.expected_company_id then accepted frame else rejected)
parse-payload_example =
    parse-payload two_slots report (flags_element ∷ []) frame [] ((λ e. cc), tt) frame-Fits refl
      refl

u8_at-prefix : (xs ys : List ℕ) (i : ℕ) → i < length xs → u8_at xs i ≡ u8_at (xs ++ ys) i
u8_at-prefix [] ys i h = elim h [ ]
u8_at-prefix (x ∷ xs) ys zero h = refl
u8_at-prefix (x ∷ xs) ys (suc i) h = u8_at-prefix xs ys i (omega arith)

parse_custom_frame-agree_example :
    parse_custom_frame two_slots report ≡ parse_custom_frame two_slots padded_report
parse_custom_frame-agree_example =
    parse_custom_frame-agree two_slots report padded_report refl
      (λ i h. u8_at-prefix report.bytes (0xff ∷ 0xff ∷ []) i h)

abbrev pool : Items AdvReport
pool = record { items = report ∷ padded_report ∷ []; limit = 4 }

drain_report_pool-Drained_example :
    Drained list_queue two_slots
      (λ i. 30)
      0
      (report ∷ padded_report ∷ [])
      one_heard
      (drain_report_pool list_queue two_slots (λ i. 30) 3 0 pool one_heard)
drain_report_pool-Drained_example =
    drain_report_pool-Drained list_queue two_slots (λ i. 30) 3 0 pool one_heard (omega arith)

send_event-SendOutcome_example :
    SendOutcome list_queue true quiet_bus acquisition_port 3 0
      (send_event list_queue true quiet_bus acquisition_port 3 0)
send_event-SendOutcome_example =
    send_event-SendOutcome list_queue true quiet_bus acquisition_port 3 0

abbrev faulty_bus : Bus (Items Event)
faulty_bus = record quiet_bus { fault = record { active = true; reason = event_lost } }

abbrev waiting : Items Event
waiting = record { items = event app_port 3 0 ∷ event app_port 9 0 ∷ []; limit = 20 }

abbrev waiting_bus : Bus (Items Event)
waiting_bus = put_slot quiet_bus app_port waiting

abbrev listening : Acquisition (Items AdvReport)
listening = record {
  report_pool = record { items = report ∷ []; limit = 1 };
  dropped_report_count = 4;
}

abbrev busy : Node (Items AdvReport)
busy = record {
  acquisition = record { report_pool = pool; dropped_report_count = 4 };
  ble = record { is_initialized = true; is_scanning = true };
  table = one_heard;
}

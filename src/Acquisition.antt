-- ===== src/Acquisition.antt =====
-- src/svc/acquisition: from an advertising report in the pool to a reading in the device table.
pub mod Parse
pub mod RoundTrip
pub mod Drain
pub mod Service
pub mod Widths
use base_platform_zephyr_ble.Prelude.{
  ℕ, zero, suc, ◌+◌, ◌-◌, ◌*◌, ◌%◌, ◌^◌, ◌<◌, ◌≡◌, refl, Bool, true, false, not, Option, none, some,
  List, [], ◌∷◌, ltb, leb, ◌==◌, if◌then◌else◌, length,
}
use base_platform_zephyr_ble.Config.{Config}
use base_platform_zephyr_ble.Wire.{u8_at, u16_at, u32_at}
use base_platform_zephyr_ble.Hal.Ble.{AdvReport}
use base_platform_zephyr_ble.Eda.{Event, MsgQueue, Bus, send_event_from_isr, acquisition_port}
use base_platform_zephyr_ble.Events.{acquisition_event_id, adv_report_available}
use base_platform_zephyr_ble.DeviceTable.{Reading, Table, upsert}

-- `SensorPayload`; a signed field is its bit pattern.
pub record SensorPayload : Type 0 where
  pub sns_temperature : ℕ
  pub sns_humidity : ℕ
  pub sns_pressure : ℕ
  pub acc_x_raw_data : ℕ
  pub acc_y_raw_data : ℕ
  pub acc_z_raw_data : ℕ
  pub battery_mv : ℕ
  pub timestamp : ℕ
  pub status_flags : ℕ

pub record ManufacturerFrame : Type 0 where
  pub company_id : ℕ
  pub sensor_data : SensorPayload

abbrev pub frame_size : ℕ
frame_size = 19

abbrev pub ad_type_manufacturer_specific : ℕ
ad_type_manufacturer_specific = 0xff

-- The struct that a `memcpy` of its size from `bytes[i]` gives.
unfoldable pub frame_at : List ℕ → ℕ → ManufacturerFrame
frame_at bytes i = record {
  company_id = u16_at bytes i;
  sensor_data = record {
    sns_temperature = u8_at bytes (i + 2);
    sns_humidity = u8_at bytes (i + 3);
    sns_pressure = u16_at bytes (i + 4);
    acc_x_raw_data = u16_at bytes (i + 6);
    acc_y_raw_data = u16_at bytes (i + 8);
    acc_z_raw_data = u16_at bytes (i + 10);
    battery_mv = u16_at bytes (i + 12);
    timestamp = u32_at bytes (i + 14);
    status_flags = u8_at bytes (i + 18);
  };
}

-- `unfinished` is a loop that has used up its fuel; the theorem on totality rules it out.
pub data Parsed : Type 0 where
  accepted : ManufacturerFrame → Parsed
  rejected unfinished : Parsed

-- What becomes of an element of the manufacturer type.
abbrev pub manufacturer_element : Config → AdvReport → ℕ → Parsed
manufacturer_element c report offset =
    let frame = frame_at report.bytes (offset + 2) in
    if not ((u8_at report.bytes offset + 256 - 1) % 256 == frame_size)
    then rejected
    else if frame.company_id == c.expected_company_id
    then accepted frame
    else rejected

-- The loop of `parse_custom_frame` from `offset` on.
unfoldable pub parse_from : Config → AdvReport → ℕ → ℕ → Parsed
parse_from c report zero offset = unfinished
parse_from c report (suc fuel) offset =
    let element_length = u8_at report.bytes offset in
    let rest = parse_from c report fuel (offset + (1 + element_length)) in
    if not (ltb (offset + 1) report.data_length)
    then rejected
    else if element_length == 0
    then rejected
    else if ltb report.data_length (offset + 1 + element_length)
    then rejected
    else if u8_at report.bytes (offset + 1) == ad_type_manufacturer_specific
    then manufacturer_element c report offset
    else rest

-- Every round moves at least two bytes on, so the length is fuel enough.
unfoldable pub parse_custom_frame : Config → AdvReport → Parsed
unfolding parse_from
parse_custom_frame c report = parse_from c report (report.data_length + 1) 0

-- The fields of a frame as the table keeps them.
abbrev pub reading_of : ManufacturerFrame → Reading
reading_of frame = record {
  temperature = frame.sensor_data.sns_temperature;
  humidity = frame.sensor_data.sns_humidity;
  pressure = frame.sensor_data.sns_pressure;
  acc_x = frame.sensor_data.acc_x_raw_data;
  acc_y = frame.sensor_data.acc_y_raw_data;
  acc_z = frame.sensor_data.acc_z_raw_data;
  battery_mv = frame.sensor_data.battery_mv;
  endpoint_timestamp = frame.sensor_data.timestamp;
  status_flags = frame.sensor_data.status_flags;
}

-- One round of `drain_report_pool` on the report it took; `now_s` is the uptime that `upsert`
-- reads.
unfoldable pub consume : Config → ℕ → AdvReport → Table → Table
consume c now_s report table = elim (parse_custom_frame c report) [
  | accepted frame ↦ upsert table report.address report.rssi (reading_of frame) now_s
  | rejected ↦ table
  | unfinished ↦ table
]

-- The pool and the counter of acquisition/subsystem.cpp.
pub record Acquisition (P : Type 0) : Type 0 where
  pub report_pool : P
  pub dropped_report_count : ℕ

module _ {P Q : Type 0} (pool : MsgQueue AdvReport P) (os : MsgQueue Event Q) where
  -- Runs in the Bluetooth stack's context.
  unfoldable pub on_adv_report : AdvReport → Acquisition P × Bus Q → Acquisition P × Bus Q
  on_adv_report report (s, bus) = elim (pool.put s.report_pool report) [
    | none ↦ (
      record s {
        dropped_report_count =
            if ltb s.dropped_report_count (2 ^ 16 - 1)
            then s.dropped_report_count + 1
            else s.dropped_report_count;
      },
      bus,
    )
    | some p ↦ (
      record s { report_pool = p },
      send_event_from_isr os bus acquisition_port (acquisition_event_id adv_report_available) 0,
    )
  ]

module _ {P : Type 0} (pool : MsgQueue AdvReport P) where
  -- `drain_report_pool`: `clock` gives the uptime that each round sees. `none` is out of fuel.
  unfoldable pub drain_report_pool : Config → (ℕ → ℕ) → ℕ → ℕ → P → Table → Option (P × Table)
  drain_report_pool c clock zero round p table = none
  drain_report_pool c clock (suc fuel) round p table = elim (pool.try_get p) [
    | none ↦ some (p, table)
    | some (report, p') ↦
        drain_report_pool c clock fuel (round + 1) p' (consume c (clock round) report table)
  ]

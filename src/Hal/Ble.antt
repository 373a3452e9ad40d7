-- ===== src/Hal/Ble.antt =====
-- src/hal/ble: the scanner, and the report that it hands to its one callback. The controller's
-- answers (`bt_enable`, `bt_le_scan_start`, `bt_le_scan_stop`) are arguments.
use base_platform_zephyr_ble.Prelude.{
  ℕ, ◌%◌, Bool, true, false, not, Option, none, some, List, take, ltb, ◌==◌, if◌then◌else◌, length,
}

abbrev pub address_size : ℕ
address_size = 6

abbrev pub max_adv_data_size : ℕ
max_adv_data_size = 31

-- `data` holds the valid bytes; the array behind it is as long as MAX_ADV_DATA_SIZE.
pub record AdvReport : Type 0 where
  pub address : List ℕ
  pub address_type : ℕ
  pub rssi : ℕ
  pub data_length : ℕ
  pub bytes : List ℕ

-- The report that `scan_callback` builds from what the controller received.
abbrev pub adv_report : List ℕ → ℕ → ℕ → List ℕ → AdvReport
adv_report address address_type rssi buffer =
    let length_kept =
      if ltb max_adv_data_size (length buffer) then max_adv_data_size else length buffer in
    record {
      address = address;
      address_type = address_type;
      rssi = rssi;
      data_length = length_kept % 256;
      bytes = take length_kept buffer;
    }

-- What `scan_callback` passes on, if a callback is registered.
abbrev pub scan_callback : Bool → List ℕ → ℕ → ℕ → List ℕ → Option AdvReport
scan_callback registered address address_type rssi buffer =
    if registered then some (adv_report address address_type rssi buffer) else none

pub data BleError : Type 0 where
  no_error hardware_error already_running : BleError

pub record Ble : Type 0 where
  pub is_initialized : Bool
  pub is_scanning : Bool

-- `result` is what the controller's call returned; zero is success.
abbrev pub initialize : ℕ → Ble → Ble × BleError
initialize result b =
    if b.is_initialized
    then (b, already_running)
    else if not (result == 0)
    then (b, hardware_error)
    else (record b { is_initialized = true }, no_error)

abbrev pub start_scan : ℕ → Ble → Ble × BleError
start_scan result b =
    if b.is_scanning
    then (b, no_error)
    else if not (result == 0)
    then (b, hardware_error)
    else (record b { is_scanning = true }, no_error)

abbrev pub stop_scan : ℕ → Ble → Ble × BleError
stop_scan result b =
    if not b.is_scanning
    then (b, no_error)
    else if not (result == 0)
    then (b, hardware_error)
    else (record b { is_scanning = false }, no_error)

-- ===== src/Concentrator/Environment.antt =====
-- What the device relies on: widths of what the controller, the clock and the transport give, and
-- that the acquisition thread is what changes the table while a fragment is on its way.
use base_platform_zephyr_ble.Prelude.{
  ℕ, ◌^◌, ◌<◌, ◌≡◌, List, All, All-take, length, ltb, if◌then◌else◌,
}
use base_platform_zephyr_ble.Config.{Config}
use base_platform_zephyr_ble.DeviceTable.{Table}
use base_platform_zephyr_ble.DeviceTable.Upsert
use base_platform_zephyr_ble.DeviceTable.Widths.{Bytes, Address}
use base_platform_zephyr_ble.Hal.Ble.{AdvReport, adv_report, max_adv_data_size}
use base_platform_zephyr_ble.Acquisition.Drain.{consume_all, consume_all-Inv}
use base_platform_zephyr_ble.Acquisition.Widths.{ReportFits, consume_all-TableFits}
use base_platform_zephyr_ble.Link.{Link}
use base_platform_zephyr_ble.Comms.{Env}
use base_platform_zephyr_ble.Comms.Widths.{EnvFits}
use base_platform_zephyr_ble.System.{comms_turn}
use base_platform_zephyr_ble.Concentrator.{
  Activity, core_turn, advertisement, acquisition_turn, heartbeat_expires, diagnostics_turn,
}

-- The sizes that a transport returns are of type uint8_t.
pub record Bytewise {L : Type 0} (link : Link L) : Type 0 where
  pub available : (l : L) → link.get_available_payload_size l < 2 ^ 8
  pub uplinks : (l : L) → link.get_max_uplinks_per_dispatch l < 2 ^ 8

-- The uptime is of 32 bits, and what happens to the table during fragment `i` is that the
-- acquisition thread consumes some reports.
pub record Surroundings (c : Config) (env : Env) : Type 0 where
  pub sent_s : (i : ℕ) → env.sent_s i < 2 ^ 32
  pub clock : ℕ → ℕ → ℕ
  pub reports : ℕ → List AdvReport
  pub times : (i j : ℕ) → clock i j < 2 ^ 32
  pub fits : (i : ℕ) → All ReportFits (reports i)
  pub meanwhile : (i : ℕ) (t : Table) → env.meanwhile i t ≡ consume_all c (clock i) 0 (reports i) t

pub Surroundings-EnvFits : (c : Config) (env : Env) → Surroundings c env → EnvFits env
Surroundings-EnvFits c env s = record {
  sent_s = s.sent_s;
  meanwhile = λ i t v.
      rw (s.meanwhile i t)
        (consume_all-TableFits c (s.clock i) 0 (s.reports i) t (s.times i) (s.fits i) v);
}

pub Surroundings-Inv :
    (c : Config) (env : Env)
    → 0 < c.max_devices
    → Surroundings c env
    → (i : ℕ) (t : Table) → Upsert.Inv c t
    → Upsert.Inv c (env.meanwhile i t)
Surroundings-Inv c env room s i t v =
    rw (s.meanwhile i t) (consume_all-Inv c (s.clock i) 0 (s.reports i) t room v)

-- What a turn may bring in.
abbrev pub Allowed : Config → Activity → Type 0
Allowed c (core_turn (comms_turn env)) = Surroundings c env
Allowed c (core_turn _) = Unit {0}
Allowed c (advertisement address address_type rssi buffer) =
    Address address × (rssi < 2 ^ 8) × Bytes buffer
Allowed c (acquisition_turn clock answer) = (i : ℕ) → clock i < 2 ^ 32
Allowed c heartbeat_expires = Unit {0}
Allowed c diagnostics_turn = Unit {0}

pub adv_report-ReportFits :
    (address : List ℕ) (address_type rssi : ℕ) (buffer : List ℕ)
    → Address address
    → rssi < 2 ^ 8
    → Bytes buffer
    → ReportFits (adv_report address address_type rssi buffer)
adv_report-ReportFits address address_type rssi buffer a level b = record {
  address = a;
  rssi = level;
  bytes =
      All-take (λ n. n < 2 ^ 8)
        (if ltb max_adv_data_size (length buffer) then max_adv_data_size else length buffer) buffer
        b;
}

-- ===== src/Comms/Wire.antt =====
-- The wire format: its sizes, and that a receiver reads back what was packed.
use base_platform_zephyr_ble.Prelude.{
  ℕ, ◌+◌, ◌*◌, ◌^◌, ◌<◌, ◌≡◌, refl, ap, ◌∙◌, List, [], ◌∷◌, ◌++◌, length, length-append, arith,
}
use base_platform_zephyr_ble.Wire.{u8_at, u16_at, u32_at}
use base_platform_zephyr_ble.DeviceTable.{Entry}
use base_platform_zephyr_ble.Comms.{
  UplinkHeader, EndpointRecord, header_size, record_size, to_record, header_bytes, record_bytes,
  records_bytes,
}

pub length-header_bytes : (h : UplinkHeader) → length (header_bytes h) ≡ header_size
unfolding header_bytes
length-header_bytes h = refl

-- A BLE address is six bytes.
abbrev pub AllAddressed : List Entry → Type 0
AllAddressed [] = Unit {0}
AllAddressed (e ∷ es) = (length e.address ≡ 6) × AllAddressed es

length-record_bytes :
    (r : EndpointRecord) → length r.address ≡ 6 → length (record_bytes r) ≡ record_size
unfolding record_bytes
length-record_bytes r h = length-append r.address _ ∙ ap (λ k. k + 20) h

pub length-records_bytes :
    (es : List Entry) (now_s : ℕ)
    → AllAddressed es
    → length (records_bytes es now_s) ≡ length es * record_size
unfolding records_bytes
length-records_bytes [] now_s a = refl
length-records_bytes (e ∷ es) now_s a = omega (
  arith,
  length-append (record_bytes (to_record e now_s)) (records_bytes es now_s),
  length-record_bytes (to_record e now_s) a.0,
  length-records_bytes es now_s a.1,
)

pub record HeaderFits (h : UplinkHeader) : Type 0 where
  pub id : h.concentrator_id < 2 ^ 32
  pub sequence : h.sequence < 2 ^ 16

-- The receiver's reading of a packet's first twelve bytes.
abbrev pub header_at : List ℕ → UplinkHeader
header_at bytes = record {
  concentrator_id = u32_at bytes 0;
  sequence = u16_at bytes 4;
  fragment_index = u8_at bytes 6;
  fragment_count = u8_at bytes 7;
  record_count = u8_at bytes 8;
  dropped_adv_reports = u8_at bytes 9;
  evicted_devices = u8_at bytes 10;
  flags = u8_at bytes 11;
}

-- The receiver reads the header of any fragment back, whatever records follow it.
pub header_at-bytes :
    (h : UplinkHeader) (rest : List ℕ) → HeaderFits h → header_at (header_bytes h ++ rest) ≡ h
unfolding header_bytes
header_at-bytes h rest v = ground arith

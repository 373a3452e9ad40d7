-- ===== src/Acquisition/Widths.antt =====
-- A report of bytes leads to readings that fit the fields of the table.
use base_platform_zephyr_ble.Prelude.{
  ℕ, zero, suc, ◌+◌, ◌-◌, ◌%◌, ◌^◌, ◌<◌, ◌≡◌, refl, not, List, [], ◌∷◌, arith, ltb, ◌==◌, All,
  if-keeps,
}
use base_platform_zephyr_ble.Config.{Config}
use base_platform_zephyr_ble.Wire.{u8_at, u16_at, u32_at}
use base_platform_zephyr_ble.Hal.Ble.{AdvReport}
use base_platform_zephyr_ble.DeviceTable.{Table}
use base_platform_zephyr_ble.DeviceTable.Widths.{
  Bytes, Address, ReadingFits, TableFits, upsert-TableFits,
}
use base_platform_zephyr_ble.Acquisition.{
  ad_type_manufacturer_specific, frame_size, Parsed, ManufacturerFrame, accepted, rejected,
  unfinished, frame_at, parse_from, parse_custom_frame, reading_of, consume,
}
use base_platform_zephyr_ble.Acquisition.Drain.{consume_all}

-- What the controller delivers: a six-byte address, a level in a byte, and bytes.
pub record ReportFits (r : AdvReport) : Type 0 where
  pub address : Address r.address
  pub rssi : r.rssi < 2 ^ 8
  pub bytes : Bytes r.bytes

u8_at-lt : (bytes : List ℕ) (i : ℕ) → Bytes bytes → u8_at bytes i < 2 ^ 8
u8_at-lt [] i b = omega arith
u8_at-lt (x ∷ xs) zero b = b.0
u8_at-lt (x ∷ xs) (suc i) b = u8_at-lt xs i b.1

u16_at-lt : (bytes : List ℕ) (i : ℕ) → Bytes bytes → u16_at bytes i < 2 ^ 16
u16_at-lt bytes i b = omega (arith, u8_at-lt bytes i b, u8_at-lt bytes (i + 1) b)

u32_at-lt : (bytes : List ℕ) (i : ℕ) → Bytes bytes → u32_at bytes i < 2 ^ 32
u32_at-lt bytes i b = omega (arith, u16_at-lt bytes i b, u16_at-lt bytes (i + 2) b)

frame_at-ReadingFits :
    (bytes : List ℕ) (i : ℕ) → Bytes bytes → ReadingFits (reading_of (frame_at bytes i))
unfolding frame_at
frame_at-ReadingFits bytes i b = record {
  temperature = u8_at-lt bytes (i + 2) b;
  humidity = u8_at-lt bytes (i + 3) b;
  pressure = u16_at-lt bytes (i + 4) b;
  acc_x = u16_at-lt bytes (i + 6) b;
  acc_y = u16_at-lt bytes (i + 8) b;
  acc_z = u16_at-lt bytes (i + 10) b;
  battery_mv = u16_at-lt bytes (i + 12) b;
  endpoint_timestamp = u32_at-lt bytes (i + 14) b;
  status_flags = u8_at-lt bytes (i + 18) b;
}

data ParsedFits : Parsed → Type 0 where
  reading_fits : {f : ManufacturerFrame} → ReadingFits (reading_of f) → ParsedFits (accepted f)
  none_read : ParsedFits rejected
  none_yet : ParsedFits unfinished

parse_from-ParsedFits :
    (c : Config) (r : AdvReport) (fuel offset : ℕ)
    → Bytes r.bytes
    → ParsedFits (parse_from c r fuel offset)
unfolding parse_from
parse_from-ParsedFits c r zero offset b = none_yet
parse_from-ParsedFits c r (suc fuel) offset b =
    let size = u8_at r.bytes offset in
    let frame = frame_at r.bytes (offset + 2) in
    if-keeps ParsedFits (not (ltb (offset + 1) r.data_length)) none_read (
      if-keeps ParsedFits (size == 0) none_read (
        if-keeps ParsedFits (ltb r.data_length (offset + 1 + size)) none_read (
          if-keeps ParsedFits (u8_at r.bytes (offset + 1) == ad_type_manufacturer_specific)
            (if-keeps ParsedFits (not ((size + 256 - 1) % 256 == frame_size)) none_read (
              if-keeps ParsedFits (frame.company_id == c.expected_company_id)
                (reading_fits {f = frame} (frame_at-ReadingFits r.bytes (offset + 2) b)) none_read))
            (parse_from-ParsedFits c r fuel (offset + (1 + size)) b))))

consumed :
    (c : Config) (now : ℕ) (r : AdvReport) (t : Table) (p : Parsed)
    → parse_custom_frame c r ≡ p
    → ParsedFits p
    → ReportFits r
    → now < 2 ^ 32
    → TableFits t
    → TableFits (consume c now r t)
unfolding consume
consumed c now r t (accepted f) e (reading_fits fits) report time v =
    rw (e, consume)
      (upsert-TableFits r.address r.rssi (reading_of f) now report.address report.rssi fits time t
        v)
consumed c now r t rejected e none_read report time v = rw (e, consume) v
consumed c now r t unfinished e none_yet report time v = rw (e, consume) v

-- Reports taken one after the other, at any times of 32 bits, keep the table within its widths.
pub consume_all-TableFits :
    (c : Config) (clock : ℕ → ℕ) (round : ℕ) (rs : List AdvReport) (t : Table)
    → ((i : ℕ) → clock i < 2 ^ 32)
    → All ReportFits rs
    → TableFits t
    → TableFits (consume_all c clock round rs t)
unfolding parse_custom_frame
consume_all-TableFits c clock round [] t time fits v = v
consume_all-TableFits c clock round (r ∷ rs) t time fits v =
    consume_all-TableFits c clock (round + 1) rs (consume c (clock round) r t) time fits.1 (
      consumed c (clock round) r t (parse_custom_frame c r) refl
        (parse_from-ParsedFits c r (r.data_length + 1) 0 fits.0.bytes) fits.0 (time round) v)

-- ===== src/DeviceTable/Heard.antt =====
-- A device that has just been heard is pending.
use base_platform_zephyr_ble.Prelude.{
  ℕ, ◌+◌, ◌%◌, ◌^◌, ◌<◌, ◌≤◌, ◌≡◌, ◌≢◌, refl, ◌∙◌, true, some, List, arith, bytes_eq_refl,
}
use base_platform_zephyr_ble.Config.{Config}
use base_platform_zephyr_ble.DeviceTable.{
  Reading, Entry, Table, record_reading, wiped_for, age, is_reportable, upsert,
}
use base_platform_zephyr_ble.DeviceTable.Lookup.{lookup}
use base_platform_zephyr_ble.DeviceTable.Reported.{lookup-holds}
use base_platform_zephyr_ble.DeviceTable.Upsert.{
  Inv, Outcome, refreshed, added, evicted, upsert-Outcome,
}

module _ (c : Config) (t : Table) (a : List ℕ) (rssi : ℕ) (r : Reading) (now snapshot_s : ℕ) where
  -- The entry of a device that has been heard, and is due for the next dispatch.
  pub record Pending (t' : Table) : Type 0 where
    pub entry : Entry
    pub found : lookup t'.entries a ≡ some entry
    pub level : entry.rssi ≡ rssi
    pub reading : entry.reading ≡ r
    pub due : is_reportable c snapshot_s entry ≡ true

  -- The sixteen bits of the counter of readings do not come round to the last one reported.
  abbrev pub Unwrapped : Type 0
  Unwrapped =
      (e : Entry) → lookup t.entries a ≡ some e → (e.update_seq + 1) % 2 ^ 16 ≢ e.reported_seq

  Outcome-Pending :
      (t' : Table)
      → age snapshot_s now ≤ c.device_stale_after_s
      → Unwrapped
      → Outcome t a rssi r now t'
      → Pending t'
  Outcome-Pending t' recent fresh (refreshed e h at _) = record {
    entry = record_reading rssi r now e;
    found = at a ∙ rw (bytes_eq_refl a) refl;
    level = refl;
    reading = refl;
    due = ground (arith, lookup-holds t.entries a e h, fresh e h);
  }
  Outcome-Pending t' recent fresh (added _ at _) = record {
    entry = record_reading rssi r now (wiped_for a);
    found = at a ∙ rw (bytes_eq_refl a) refl;
    level = refl;
    reading = refl;
    due = ground arith;
  }
  Outcome-Pending t' recent fresh (evicted _ old _ _ _ _ at _) = record {
    entry = record_reading rssi r now (wiped_for a);
    found = at a ∙ rw (bytes_eq_refl a) refl;
    level = refl;
    reading = refl;
    due = ground arith;
  }

  -- Under the invariant, with room for a device and a counter that does not come round: a device
  -- that is heard is in the table with what was heard, and is reportable at the time of the next
  -- snapshot, unless the reading is stale by then.
  pub upsert-Pending :
      Inv c t
      → 0 < c.max_devices
      → age snapshot_s now ≤ c.device_stale_after_s
      → Unwrapped
      → Pending (upsert t a rssi r now)
  upsert-Pending v room recent fresh =
      Outcome-Pending (upsert t a rssi r now) recent fresh (upsert-Outcome c t a rssi r now v room)

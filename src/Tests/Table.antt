-- ===== src/Tests/Table.antt =====
-- The device table at work.
use base_platform_zephyr_ble.Prelude.{
  ◌+◌, ◌%◌, ◌^◌, ◌≡◌, refl, not, none, some, ◌==◌, bytes_eq, arith,
}
use base_platform_zephyr_ble.DeviceTable.{
  Entry, is_reportable, record_reading, upsert, snapshot, mark_reported,
}
use base_platform_zephyr_ble.DeviceTable.Lookup.{lookup}
use base_platform_zephyr_ble.DeviceTable.Upsert.{Outcome, upsert-Outcome}
use base_platform_zephyr_ble.DeviceTable.Delivery.{acknowledge}
use base_platform_zephyr_ble.DeviceTable.Reported.{
  snapshot_acknowledged, reportable-upsert, mark_reported-upsert,
}
use base_platform_zephyr_ble.Tests.Fixtures.{
  two_slots, address_a, address_b, address_c, warm, heard, one_heard, full_table, one_heard-Inv,
  full_table-Inv,
}

-- The full table evicts address_b, which was heard last at 5 s.
upsert-Outcome_example :
    Outcome full_table address_c 190 warm 30 (upsert full_table address_c 190 warm 30)
upsert-Outcome_example =
    upsert-Outcome two_slots full_table address_c 190 warm 30 full_table-Inv (omega arith)

upsert_evicts : lookup (upsert full_table address_c 190 warm 30).entries address_b ≡ none
unfolding upsert bytes_eq
upsert_evicts = refl

abbrev reported : Entry
reported = record (heard address_a 10 1) { reported_seq = 1 }

snapshot_acknowledged_example :
    lookup (acknowledge full_table (snapshot two_slots full_table 20 2)).entries address_a
    ≡ some reported
unfolding bytes_eq
snapshot_acknowledged_example =
    snapshot_acknowledged two_slots full_table 20 address_a full_table-Inv

reportable-upsert_example :
    (e' : Entry) × (lookup (upsert one_heard address_a 190 warm 30).entries address_a ≡ some e')
    × (e'.reading ≡ warm)
    × (is_reportable two_slots 30 e'
        ≡ not (
            ((heard address_a 10 1).update_seq + 1) % 2 ^ 16
            == (heard address_a 10 1).reported_seq))
unfolding bytes_eq
reportable-upsert_example =
    reportable-upsert two_slots one_heard address_a 190 warm 30 (heard address_a 10 1) one_heard-Inv
      (omega arith) refl

mark_reported-upsert_example :
    lookup (mark_reported (upsert one_heard address_a 190 warm 30) address_a 1).entries address_a
    ≡ some (record_reading 190 warm 30 (heard address_a 10 1))
unfolding bytes_eq
mark_reported-upsert_example =
    mark_reported-upsert two_slots one_heard address_a 190 warm 30 (heard address_a 10 1)
      one_heard-Inv (omega arith) refl

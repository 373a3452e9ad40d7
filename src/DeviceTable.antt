-- ===== src/DeviceTable.antt =====
-- src/svc/device_table: the table of the endpoints that this concentrator has heard.
-- The mutex makes each operation one step, so an operation is a function on the table. A pointer
-- into `s_entries` is an index. Bytes and signed fields are bit patterns: they are only copied.
pub mod Lookup
pub mod Claim
pub mod Unique
pub mod Upsert
pub mod Snapshot
pub mod Delivery
pub mod Reported
pub mod Widths
pub mod Heard
use base_platform_zephyr_ble.Prelude.{
  ℕ, zero, suc, ◌+◌, ◌-◌, ◌%◌, ◌^◌, ◌<◌, Bool, true, false, not, ◌&&◌, Option, none, some, List, [],
  ◌∷◌, get_elem?, modify, replicate, ltb, leb, ◌==◌, if◌then◌else◌, bytes_eq,
}
use base_platform_zephyr_ble.Config.{Config}

pub record Reading : Type 0 where
  pub temperature : ℕ
  pub humidity : ℕ
  pub pressure : ℕ
  pub acc_x : ℕ
  pub acc_y : ℕ
  pub acc_z : ℕ
  pub battery_mv : ℕ
  pub endpoint_timestamp : ℕ
  pub status_flags : ℕ

pub record Entry : Type 0 where
  pub address : List ℕ
  pub rssi : ℕ
  pub reading : Reading
  pub last_seen_uptime_s : ℕ
  pub update_seq : ℕ
  pub reported_seq : ℕ
  pub in_use : Bool

-- `Entry{}`: every field zero.
abbrev pub empty_reading : Reading
empty_reading = record {
  temperature = 0;
  humidity = 0;
  pressure = 0;
  acc_x = 0;
  acc_y = 0;
  acc_z = 0;
  battery_mv = 0;
  endpoint_timestamp = 0;
  status_flags = 0;
}

abbrev pub empty_entry : Entry
empty_entry = record {
  address = replicate 6 0;
  rssi = 0;
  reading = empty_reading;
  last_seen_uptime_s = 0;
  update_seq = 0;
  reported_seq = 0;
  in_use = false;
}

-- `s_entries` and `s_evicted_count`.
pub record Table : Type 0 where
  pub entries : List Entry
  pub evicted_count : ℕ

-- `memcmp` over ADDRESS_SIZE bytes, which is the whole of both arrays.
abbrev pub addresses_match : List ℕ → List ℕ → Bool
addresses_match left right = bytes_eq left right

unfoldable pub find_entry : List Entry → List ℕ → Option ℕ
find_entry [] address = none
find_entry (e ∷ es) address =
    let rest = find_entry es address in
    if e.in_use && addresses_match e.address address
    then some 0
    else (elim rest [ none ↦ none | some i ↦ some (suc i) ])

-- The first loop of `claim_slot`.
pub free_slot : List Entry → Option ℕ
free_slot [] = none
free_slot (e ∷ es) =
    let rest = free_slot es in
    if not e.in_use then some 0 else (elim rest [ none ↦ none | some i ↦ some (suc i) ])

-- The second loop: the list is what is left to visit from index `i` on; `oldest` is the index of
-- `p_oldest` and `seen` its time.
pub oldest_slot : List Entry → ℕ → ℕ → ℕ → ℕ
oldest_slot [] i oldest seen = oldest
oldest_slot (e ∷ es) i oldest seen =
    let older = ltb e.last_seen_uptime_s seen in
    oldest_slot es (suc i) (if older then i else oldest)
      (if older then e.last_seen_uptime_s else seen)

-- `p_oldest` starts at `&s_entries[0]`, which the loop then visits as well.
pub least_recently_seen : List Entry → ℕ
unfolding oldest_slot
least_recently_seen [] = 0
least_recently_seen (e ∷ es) = oldest_slot (e ∷ es) 0 0 e.last_seen_uptime_s

abbrev pub saturating_increment : ℕ → ℕ
saturating_increment n = if ltb n (2 ^ 16 - 1) then n + 1 else n

-- The slot for a new device, and the table with the eviction counted if there is one.
unfoldable pub claim_slot : Table → ℕ × Table
unfolding free_slot least_recently_seen
claim_slot t = elim (free_slot t.entries) [
  | some i ↦ (i, t)
  | none ↦ (
    least_recently_seen t.entries,
    record t { evicted_count = saturating_increment t.evicted_count },
  )
]

abbrev pub initialize : Config → Table
initialize c = record { entries = replicate c.max_devices empty_entry; evicted_count = 0 }

-- The last four assignments of `upsert`; `++update_seq` wraps.
abbrev pub record_reading : ℕ → Reading → ℕ → Entry → Entry
record_reading rssi reading now_s e = record e {
  rssi = rssi;
  reading = reading;
  last_seen_uptime_s = now_s;
  update_seq = (e.update_seq + 1) % 2 ^ 16;
}

-- The recycled slot, wiped and given to a new device.
abbrev pub wiped_for : List ℕ → Entry
wiped_for address = record empty_entry { address = address; in_use = true }

unfoldable pub upsert : Table → List ℕ → ℕ → Reading → ℕ → Table
unfolding find_entry claim_slot
upsert t address rssi reading now_s = elim (find_entry t.entries address) [
  | some i ↦ record t { entries = modify t.entries i (record_reading rssi reading now_s) }
  | none ↦
      let (i, t') = claim_slot t in
      record t' {
        entries = modify t'.entries i (λ _. record_reading rssi reading now_s (wiped_for address));
      }
]

-- `now_s - last_seen_uptime_s` in uint32_t.
abbrev pub age : ℕ → ℕ → ℕ
age now_s seen = (now_s + 2 ^ 32 - seen) % 2 ^ 32

-- The three `continue` guards of `snapshot`.
abbrev pub is_reportable : Config → ℕ → Entry → Bool
is_reportable c now_s e =
    if not e.in_use
    then false
    else if ltb c.device_stale_after_s (age now_s e.last_seen_uptime_s)
    then false
    else not (e.update_seq == e.reported_seq)

-- The loop of `snapshot`, with `room` places left in the caller's array.
unfoldable pub snapshot_loop : Config → ℕ → List Entry → ℕ → List Entry
snapshot_loop c now_s es zero = []
snapshot_loop c now_s [] (suc room) = []
snapshot_loop c now_s (e ∷ es) (suc room) = elim (is_reportable c now_s e) [
  | true ↦ e ∷ snapshot_loop c now_s es room
  | false ↦ snapshot_loop c now_s es (suc room)
]

-- The entries written; `room` is `max_entries`, and the caller's array is not null.
unfoldable pub snapshot : Config → Table → ℕ → ℕ → List Entry
unfolding snapshot_loop
snapshot c t now_s room = snapshot_loop c now_s t.entries room

unfoldable pub mark_reported : Table → List ℕ → ℕ → Table
unfolding find_entry
mark_reported t address seq = elim (find_entry t.entries address) [
  | none ↦ t
  | some i ↦ record t {
    entries =
        modify t.entries i
          (λ e. if e.update_seq == seq then record e { reported_seq = seq } else e);
  }
]

count_in_use : List Entry → ℕ
count_in_use [] = 0
count_in_use (e ∷ es) = let rest = count_in_use es in if e.in_use then rest + 1 else rest

-- The count is a uint16_t.
unfoldable pub get_device_count : Table → ℕ
unfolding count_in_use
get_device_count t = count_in_use t.entries % 2 ^ 16

abbrev pub get_evicted_count : Table → ℕ
get_evicted_count t = t.evicted_count

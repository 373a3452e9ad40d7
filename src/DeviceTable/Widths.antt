-- ===== src/DeviceTable/Widths.antt =====
-- The machine widths of the table: every field of every entry fits the type that the source gives it.
use base_platform_zephyr_ble.Prelude.{
  ℕ, ◌^◌, ◌<◌, ◌≡◌, refl, Option, none, some, List, [], ◌∷◌, arith, length, All, All-modify,
  All-replicate,
}
use base_platform_zephyr_ble.Config.{Config}
use base_platform_zephyr_ble.DeviceTable.{
  Reading, Entry, Table, find_entry, free_slot, claim_slot, saturating_increment, record_reading,
  wiped_for, empty_entry, initialize, upsert, mark_reported,
}
use base_platform_zephyr_ble.DeviceTable.Delivery.{mark_seq, acknowledge}

abbrev pub Bytes : List ℕ → Type 0
Bytes bytes = All (λ b. b < 2 ^ 8) bytes

-- A six-byte address.
pub record Address (a : List ℕ) : Type 0 where
  pub size : length a ≡ 6
  pub bytes : Bytes a

pub record ReadingFits (r : Reading) : Type 0 where
  pub temperature : r.temperature < 2 ^ 8
  pub humidity : r.humidity < 2 ^ 8
  pub pressure : r.pressure < 2 ^ 16
  pub acc_x : r.acc_x < 2 ^ 16
  pub acc_y : r.acc_y < 2 ^ 16
  pub acc_z : r.acc_z < 2 ^ 16
  pub battery_mv : r.battery_mv < 2 ^ 16
  pub endpoint_timestamp : r.endpoint_timestamp < 2 ^ 32
  pub status_flags : r.status_flags < 2 ^ 8

pub record EntryFits (e : Entry) : Type 0 where
  pub address : Address e.address
  pub rssi : e.rssi < 2 ^ 8
  pub reading : ReadingFits e.reading
  pub last_seen_uptime_s : e.last_seen_uptime_s < 2 ^ 32
  pub update_seq : e.update_seq < 2 ^ 16
  pub reported_seq : e.reported_seq < 2 ^ 16

pub record TableFits (t : Table) : Type 0 where
  pub entries : All EntryFits t.entries
  pub evicted_count : t.evicted_count < 2 ^ 16

empty_entry-EntryFits : EntryFits empty_entry
empty_entry-EntryFits = record {
  address = record { size = refl; bytes = ground arith };
  rssi = omega arith;
  reading = record {
    temperature = omega arith;
    humidity = omega arith;
    pressure = omega arith;
    acc_x = omega arith;
    acc_y = omega arith;
    acc_z = omega arith;
    battery_mv = omega arith;
    endpoint_timestamp = omega arith;
    status_flags = omega arith;
  };
  last_seen_uptime_s = omega arith;
  update_seq = omega arith;
  reported_seq = omega arith;
}

pub initialize-TableFits : (c : Config) → TableFits (initialize c)
initialize-TableFits c = record {
  entries = All-replicate EntryFits c.max_devices empty_entry empty_entry-EntryFits;
  evicted_count = omega arith;
}

module _ (a : List ℕ) (rssi : ℕ) (r : Reading) (now : ℕ) (address : Address a)
    (level : rssi < 2 ^ 8) (reading : ReadingFits r) (time : now < 2 ^ 32) where
  record_reading-EntryFits :
      (e : Entry)
      → Address e.address
      → e.reported_seq < 2 ^ 16
      → EntryFits (record_reading rssi r now e)
  record_reading-EntryFits e v w = record {
    address = v;
    rssi = level;
    reading = reading;
    last_seen_uptime_s = time;
    update_seq = omega arith;
    reported_seq = w;
  }

  saturating_increment-lt : (n : ℕ) → n < 2 ^ 16 → saturating_increment n < 2 ^ 16
  saturating_increment-lt n h = ground arith

  claimed :
      (t : Table) (o : Option ℕ)
      → free_slot t.entries ≡ o
      → TableFits t
      → TableFits (claim_slot t).1
  unfolding claim_slot
  claimed t (some i) h v = rw (h, claim_slot) v
  claimed t none h v =
      rw (h, claim_slot)
        (record {
          entries = v.entries;
          evicted_count = saturating_increment-lt t.evicted_count v.evicted_count;
        })

  placed :
      (t : Table) (o : Option ℕ)
      → find_entry t.entries a ≡ o
      → TableFits t
      → TableFits (upsert t a rssi r now)
  unfolding upsert
  placed t (some i) h v =
      rw (h, upsert)
        (record {
          entries =
              All-modify EntryFits t.entries i (record_reading rssi r now)
                (λ e w. record_reading-EntryFits e w.address w.reported_seq) v.entries;
          evicted_count = v.evicted_count;
        })
  placed t none h v =
      let w = claimed t (free_slot t.entries) refl v in
      rw (h, upsert)
        (record {
          entries =
              All-modify EntryFits (claim_slot t).1.entries (claim_slot t).0
                (λ _. record_reading rssi r now (wiped_for a))
                (λ _ _. record_reading-EntryFits (wiped_for a) address (omega arith)) w.entries;
          evicted_count = w.evicted_count;
        })

  -- A reading that fits its fields leaves a table that fits.
  pub upsert-TableFits : (t : Table) → TableFits t → TableFits (upsert t a rssi r now)
  upsert-TableFits t v = placed t (find_entry t.entries a) refl v

mark_seq-EntryFits : (seq : ℕ) (e : Entry) → seq < 2 ^ 16 → EntryFits e → EntryFits (mark_seq seq e)
mark_seq-EntryFits seq e h v = ground arith

marked :
    (t : Table) (a : List ℕ) (seq : ℕ) (o : Option ℕ)
    → find_entry t.entries a ≡ o
    → seq < 2 ^ 16
    → TableFits t
    → TableFits (mark_reported t a seq)
unfolding mark_reported
marked t a seq none h s v = rw (h, mark_reported) v
marked t a seq (some i) h s v =
    rw (h, mark_reported)
      (record {
        entries =
            All-modify EntryFits t.entries i (mark_seq seq) (λ e. mark_seq-EntryFits seq e s)
              v.entries;
        evicted_count = v.evicted_count;
      })

pub acknowledge-TableFits :
    (t : Table) (es : List Entry) → All EntryFits es → TableFits t → TableFits (acknowledge t es)
unfolding acknowledge
acknowledge-TableFits t [] f v = v
acknowledge-TableFits t (e ∷ es) f v =
    acknowledge-TableFits (mark_reported t e.address e.update_seq) es f.1
      (marked t e.address e.update_seq (find_entry t.entries e.address) refl f.0.update_seq v)

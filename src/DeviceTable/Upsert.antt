-- ===== src/DeviceTable/Upsert.antt =====
-- `upsert` against the table seen as a map from addresses, and the invariant of the table.
use base_platform_zephyr_ble.Prelude.{
  ℕ, zero, suc, ◌-◌, ◌^◌, ◌≤◌, ◌<◌, ◌≡◌, refl, ap, ◌∙◌, Option, none, some, List, inl, inr, ◌⊎◌,
  arith, length, length-modify, get_elem?, length-replicate, modify, replicate, if◌then◌else◌,
  bytes_eq, bytes_eq_refl,
}
use base_platform_zephyr_ble.Config.{Config}
use base_platform_zephyr_ble.DeviceTable.{
  Reading, Entry, Table, find_entry, claim_slot, saturating_increment, record_reading, wiped_for,
  upsert, initialize, empty_entry,
}
use base_platform_zephyr_ble.DeviceTable.Lookup.{
  holds, lookup, Finds, find_entry-Finds, map_entry, lookup-modify,
}
use base_platform_zephyr_ble.DeviceTable.Claim.{AllInUse, AllSeenSince, Claimed, claim_slot-Claimed}
use base_platform_zephyr_ble.DeviceTable.Unique.{
  Distinct, lookup-replace, Distinct-replace, Distinct-modify,
}

-- What a table always is.
pub record Inv (c : Config) (t : Table) : Type 0 where
  pub size : length t.entries ≡ c.max_devices
  pub distinct : Distinct t.entries
  pub counted : t.evicted_count ≤ 2 ^ 16 - 1

Distinct-empty : (n : ℕ) → Distinct (replicate n empty_entry)
Distinct-empty zero = tt
Distinct-empty (suc n) = ((λ u. cc), Distinct-empty n)

-- The table starts empty and well formed.
pub initialize-Inv : (c : Config) → Inv c (initialize c)
initialize-Inv c = record {
  size = length-replicate c.max_devices empty_entry;
  distinct = Distinct-empty c.max_devices;
  counted = omega arith;
}

-- The three things that a reading can do to the table: refresh a known device, take a free slot,
-- or evict a device that nobody in the full table has been silent for longer than.
pub data Outcome (t : Table) (a : List ℕ) (rssi : ℕ) (r : Reading) (now : ℕ) (t' : Table)
    : Type 0 where
  refreshed :
      (e : Entry)
      → lookup t.entries a ≡ some e
      → ((b : List ℕ)
          → lookup t'.entries b
            ≡ (if bytes_eq a b then some (record_reading rssi r now e) else lookup t.entries b))
      → t'.evicted_count ≡ t.evicted_count
      → Outcome t a rssi r now t'
  added :
      lookup t.entries a ≡ none
      → ((b : List ℕ)
          → lookup t'.entries b ≡ (
              if bytes_eq a b
              then some (record_reading rssi r now (wiped_for a))
              else lookup t.entries b))
      → t'.evicted_count ≡ t.evicted_count
      → Outcome t a rssi r now t'
  evicted :
      (i : ℕ) (old : Entry)
      → lookup t.entries a ≡ none
      → get_elem? t.entries i ≡ some old
      → AllInUse t.entries
      → AllSeenSince old.last_seen_uptime_s t.entries
      → ((b : List ℕ)
          → lookup t'.entries b ≡ (
              if bytes_eq a b
              then some (record_reading rssi r now (wiped_for a))
              else if holds old b
              then none
              else lookup t.entries b))
      → t'.evicted_count ≡ saturating_increment t.evicted_count
      → Outcome t a rssi r now t'

module _ (c : Config) (t : Table) (a : List ℕ) (rssi : ℕ) (r : Reading) (now : ℕ)
    (v : Inv c t) where
  known :
      (i : ℕ)
      → find_entry t.entries a ≡ some i
      → Finds t.entries a (some i)
      → let t' = record t { entries = modify t.entries i (record_reading rssi r now) } in
        Outcome t a rssi r now t' × Inv c t'
  known i h (e, at, found, held, below) = (
    refreshed e found
        (λ b.
          lookup-modify t.entries a b i (record_reading rssi r now) (λ _. (refl, refl)) h
          ∙ ap
              (λ o.
                if bytes_eq a b
                then map_entry (record_reading rssi r now) o
                else lookup t.entries b)
              found)
        refl,
    record {
      size = length-modify t.entries i (record_reading rssi r now) ∙ v.size;
      distinct =
          Distinct-modify t.entries a i (record_reading rssi r now) (λ _. (refl, refl)) h
            v.distinct;
      counted = v.counted;
    },
  )

  abbrev fresh : Entry
  fresh = record_reading rssi r now (wiped_for a)

  -- A claimed slot, whoever had it.
  replaced :
      (i : ℕ) (old : Entry) (count : ℕ)
      → lookup t.entries a ≡ none
      → get_elem? t.entries i ≡ some old
      → count ≤ 2 ^ 16 - 1
      → Inv c (record { entries = modify t.entries i (λ _. fresh); evicted_count = count })
  replaced i old count absent at small = record {
    size = length-modify t.entries i (λ _. fresh) ∙ v.size;
    distinct = Distinct-replace t.entries a i old fresh at refl refl absent v.distinct;
    counted = small;
  }

  new_device :
      (i : ℕ) (t₁ : Table)
      → lookup t.entries a ≡ none
      → Claimed t (i, t₁)
      → let t' = record t₁ { entries = modify t₁.entries i (λ _. fresh) } in
        Outcome t a rssi r now t' × Inv c t'
  new_device i t₁ absent (same, inl ((old, at, below, free), count)) = simp same (
    added absent
        (λ b. lookup-replace t.entries a b i old fresh at refl refl absent v.distinct ∙ rw free)
        count,
    replaced i old t₁.evicted_count absent at (rw count v.counted),
  )
  new_device i t₁ absent (same, inr (full, (old, at, below, oldest), count)) = simp same (
    evicted i old absent at full oldest
        (λ b. lookup-replace t.entries a b i old fresh at refl refl absent v.distinct) count,
    replaced i old t₁.evicted_count absent at (let w = v.counted in ground arith),
  )

  upsert_cases :
      (o : Option ℕ)
      → 0 < c.max_devices
      → Finds t.entries a o
      → find_entry t.entries a ≡ o
      → Outcome t a rssi r now (upsert t a rssi r now) × Inv c (upsert t a rssi r now)
  unfolding upsert
  upsert_cases none room f e =
      rw (e, upsert)
        (new_device (claim_slot t).0 (claim_slot t).1 f
          (claim_slot-Claimed t (let w = v.size in omega arith)))
  upsert_cases (some i) room f e = rw (e, upsert) (known i e f)

-- Under the invariant, in a table of at least one slot, recording a reading refreshes the device's
-- entry, or adds the device in a free slot, or, when every slot is in use, takes the slot of a
-- device of the table that was seen no later than any other and counts the eviction; every other
-- device is found as before.
pub upsert-Outcome :
    (c : Config) (t : Table) (a : List ℕ) (rssi : ℕ) (r : Reading) (now : ℕ)
    → Inv c t
    → 0 < c.max_devices
    → Outcome t a rssi r now (upsert t a rssi r now)
upsert-Outcome c t a rssi r now v room =
    (upsert_cases c t a rssi r now v (find_entry t.entries a) room (find_entry-Finds t.entries a)
      refl).0

-- Recording a reading keeps the invariant: the table's size, one slot to an address, and the
-- saturated eviction count.
pub upsert-Inv :
    (c : Config) (t : Table) (a : List ℕ) (rssi : ℕ) (r : Reading) (now : ℕ)
    → Inv c t
    → 0 < c.max_devices
    → Inv c (upsert t a rssi r now)
upsert-Inv c t a rssi r now v room =
    (upsert_cases c t a rssi r now v (find_entry t.entries a) room (find_entry-Finds t.entries a)
      refl).1

-- The device that was just heard is in the table, with this reading and this time.
pub lookup-upsert :
    (c : Config) (t : Table) (a : List ℕ) (rssi : ℕ) (r : Reading) (now : ℕ)
    → Inv c t
    → 0 < c.max_devices
    → (e : Entry) × (lookup (upsert t a rssi r now).entries a ≡ some (record_reading rssi r now e))
      × ((lookup t.entries a ≡ some e) ⊎ ((lookup t.entries a ≡ none) × (e ≡ wiped_for a)))
lookup-upsert c t a rssi r now v room = from (upsert-Outcome c t a rssi r now v room)
  where
    from :
        Outcome t a rssi r now (upsert t a rssi r now)
        → (e : Entry) × (lookup (upsert t a rssi r now).entries a
            ≡ some (record_reading rssi r now e))
          × ((lookup t.entries a ≡ some e) ⊎ ((lookup t.entries a ≡ none) × (e ≡ wiped_for a)))
    from (refreshed e found all count) = (e, all a ∙ rw (bytes_eq_refl a), inl found)
    from (added absent all count) = (wiped_for a, all a ∙ rw (bytes_eq_refl a), inr (absent, refl))
    from (evicted i old absent at full oldest all count) =
        (wiped_for a, all a ∙ rw (bytes_eq_refl a), inr (absent, refl))

-- A device already in the table keeps its entry, updated with the reading.
pub lookup-upsert_known :
    (c : Config) (t : Table) (a : List ℕ) (rssi : ℕ) (r : Reading) (now : ℕ) (e : Entry)
    → Inv c t
    → 0 < c.max_devices
    → lookup t.entries a ≡ some e
    → lookup (upsert t a rssi r now).entries a ≡ some (record_reading rssi r now e)
lookup-upsert_known c t a rssi r now e v room h =
    let (e', found, origin) = lookup-upsert c t a rssi r now v room in
    elim origin [
      | inl same ↦ let one : e' ≡ e = ground arith in rw one at found
      | inr (absent, _) ↦ absurd (ground arith)
    ]

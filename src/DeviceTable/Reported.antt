-- ===== src/DeviceTable/Reported.antt =====
-- Delivery as a whole: what a snapshot hands out and an acknowledgement then settles.
use base_platform_zephyr_ble.Prelude.{
  ℕ, ◌+◌, ◌%◌, ◌^◌, ◌<◌, ◌≡◌, refl, sym, ap, ◌∙◌, Bool, true, false, not, ◌⊎◌, inl, inr, Option,
  none, some, List, [], ◌∷◌, arith, select, ◌==◌, Bool-cases, bytes_eq, bytes_eq_refl,
  eq_of_bytes_eq, leb, ◌&&◌, if◌then◌else◌,
}
use base_platform_zephyr_ble.Config.{Config}
use base_platform_zephyr_ble.DeviceTable.{
  Reading, Entry, Table, age, is_reportable, snapshot, mark_reported, upsert, record_reading,
}
use base_platform_zephyr_ble.DeviceTable.Lookup.{lookup, holds, map_entry}
use base_platform_zephyr_ble.DeviceTable.Unique.{Distinct}
use base_platform_zephyr_ble.DeviceTable.Upsert.{Inv, lookup-upsert_known}
use base_platform_zephyr_ble.DeviceTable.Snapshot.{reportable, snapshot-eq-reportable}
use base_platform_zephyr_ble.DeviceTable.Delivery.{
  lookup-mark_reported, acknowledge, marks, lookup-acknowledge,
}

pub lookup-holds :
    (es : List Entry) (a : List ℕ) (e : Entry) → lookup es a ≡ some e → holds e a ≡ true
lookup-holds [] a e h = cc
lookup-holds (x ∷ es) a e h = ground (arith, lookup-holds es a e)

marks-none : (es : List Entry) (b : List ℕ) → marks es b none ≡ none
marks-none [] b = refl
marks-none (x ∷ es) b = elim (Bool-cases (bytes_eq x.address b)) [
  | inl h ↦ rw h (marks-none es b)
  | inr h ↦ rw h (marks-none es b)
]

-- Acknowledging selected entries changes nothing under an address that the table does not know.
marks-absent :
    (p : Entry → Bool) (es : List Entry) (b : List ℕ) (o : Option Entry)
    → ((x : Entry) → p x ≡ true → x.in_use ≡ true)
    → lookup es b ≡ none
    → marks (select p es) b o ≡ o
marks-absent p [] b o used h = refl
marks-absent p (x ∷ es) b o used h = elim (Bool-cases (p x)) [
  | inl t ↦
      let used' : x.in_use ≡ true = used x t in
      let other : bytes_eq x.address b ≡ false = ground arith in
      simp t (rw (other, marks) (marks-absent p es b o used (ground arith)))
  | inr f ↦ simp f (marks-absent p es b o used (ground arith))
]

-- Acknowledging the selected entries marks the entry under an address, if it is one of them.
marks-select :
    (p : Entry → Bool) (es : List Entry) (b : List ℕ) (e : Entry)
    → ((x : Entry) → p x ≡ true → x.in_use ≡ true)
    → Distinct es
    → lookup es b ≡ some e
    → marks (select p es) b (some e)
      ≡ some (if p e then record e { reported_seq = e.update_seq } else e)
marks-select p [] b e used d h = cc
marks-select p (x ∷ es) b e used d h =
    step (Bool-cases (holds x b)) (Bool-cases (p x)) (λ later. marks-select p es b e used d.1 later)
  where
    step :
        (holds x b ≡ true) ⊎ (holds x b ≡ false)
        → (p x ≡ true) ⊎ (p x ≡ false)
        → (lookup es b ≡ some e
            → marks (select p es) b (some e)
              ≡ some (if p e then record e { reported_seq = e.update_seq } else e))
        → marks (select p (x ∷ es)) b (some e)
          ≡ some (if p e then record e { reported_seq = e.update_seq } else e)
    step (inl hit) t ih =
        let it : x ≡ e = ground arith in
        let same : bytes_eq x.address b ≡ true = ground arith in
        let only : lookup es b ≡ none = ground (arith, d.0, eq_of_bytes_eq x.address b same) in
        first it same only t
      where
        first :
            x ≡ e
            → bytes_eq x.address b ≡ true
            → lookup es b ≡ none
            → (p x ≡ true) ⊎ (p x ≡ false)
            → marks (select p (x ∷ es)) b (some e)
              ≡ some (if p e then record e { reported_seq = e.update_seq } else e)
        first it same only (inl t) =
            let t' : p e ≡ true = ap p (sym it) ∙ t in
            let seq : (e.update_seq == x.update_seq) ≡ true =
              ground (arith, ap (λ (y : Entry). y.update_seq) it) in
            simp t (
              rw (same, seq, t', marks)
                (marks-absent p es b (some (record e { reported_seq = x.update_seq })) used only
                  ∙ ap (λ (y : Entry). some (record e { reported_seq = y.update_seq })) it))
        first it same only (inr f) =
            let f' : p e ≡ false = ap p (sym it) ∙ f in
            simp f (rw f' (marks-absent p es b (some e) used only))
    step (inr miss) (inl t) ih =
        let used' : x.in_use ≡ true = used x t in
        let other : bytes_eq x.address b ≡ false = ground arith in
        simp t (rw (other, marks) (ih (ground arith)))
    step (inr miss) (inr f) ih = simp f (ih (ground arith))

-- What the acknowledgement of everything that is due at `now` makes of an entry: the reading it
-- holds counts as reported, unless it has not been heard for so long that it is stale.
abbrev pub settle : Config → ℕ → Entry → Entry
settle c now e =
    if leb (age now e.last_seen_uptime_s) c.device_stale_after_s
      && not (e.update_seq == e.reported_seq)
    then record e { reported_seq = e.update_seq }
    else e

settle-eq :
    (c : Config) (now : ℕ) (e : Entry)
    → e.in_use ≡ true
    → (if is_reportable c now e then record e { reported_seq = e.update_seq } else e)
      ≡ settle c now e
settle-eq c now e used = ground arith

reported_cases :
    (c : Config) (t : Table) (now : ℕ) (b : List ℕ) (o : Option Entry)
    → Inv c t
    → lookup t.entries b ≡ o
    → marks (reportable c now t) b o ≡ map_entry (settle c now) o
reported_cases c t now b none v h = marks-none (reportable c now t) b
reported_cases c t now b (some e) v h =
    marks-select (is_reportable c now) t.entries b e (λ x r. ground arith) v.distinct h
    ∙ ap some (settle-eq c now e (let k = lookup-holds t.entries b e h in ground arith))

-- Under the invariant, when every entry of a full snapshot has been acknowledged, the table holds
-- the same devices, each as before, but that a reading that was new and not stale at the time of
-- the snapshot now counts as reported: a stale device is neither marked nor forgotten.
pub snapshot_acknowledged :
    (c : Config) (t : Table) (now : ℕ) (b : List ℕ)
    → Inv c t
    → lookup (acknowledge t (snapshot c t now c.max_devices)).entries b
      ≡ map_entry (settle c now) (lookup t.entries b)
snapshot_acknowledged c t now b v = rw (snapshot-eq-reportable c t now v) (
    lookup-acknowledge t (reportable c now t) b
    ∙ reported_cases c t now b (lookup t.entries b) v refl)

settle-due :
    (c : Config) (now : ℕ) (e : Option Entry) (e' : Entry)
    → map_entry (settle c now) e ≡ some e'
    → is_reportable c now e' ≡ false
settle-due c now none e' h = cc
settle-due c now (some e) e' h =
    rw (← (let d : settle c now e ≡ e' = ground arith in d)) (settled c now e)
  where
    settled : (c : Config) (now : ℕ) (e : Entry) → is_reportable c now (settle c now e) ≡ false
    settled c now e = ground arith

-- So no device in the table is reportable at that time any more.
pub snapshot-done :
    (c : Config) (t : Table) (now : ℕ) (b : List ℕ) (e : Entry)
    → Inv c t
    → lookup (acknowledge t (snapshot c t now c.max_devices)).entries b ≡ some e
    → is_reportable c now e ≡ false
snapshot-done c t now b e v h =
    settle-due c now (lookup t.entries b) e (sym (snapshot_acknowledged c t now b v) ∙ h)

-- Under the invariant, a reading of a known device makes it pending, unless the 16-bit counter of
-- its readings comes round to the last one reported: then, and only then, the new reading is not
-- reportable.
pub reportable-upsert :
    (c : Config) (t : Table) (a : List ℕ) (rssi : ℕ) (r : Reading) (now : ℕ) (e : Entry)
    → Inv c t
    → 0 < c.max_devices
    → lookup t.entries a ≡ some e
    → (e' : Entry) × (lookup (upsert t a rssi r now).entries a ≡ some e')
      × (e'.reading ≡ r)
      × (is_reportable c now e' ≡ not ((e.update_seq + 1) % 2 ^ 16 == e.reported_seq))
reportable-upsert c t a rssi r now e v room h = (
  record_reading rssi r now e,
  lookup-upsert_known c t a rssi r now e v room h,
  refl,
  ground (arith, lookup-holds t.entries a e h),
)

-- The race that the sequence is for, under the invariant: a known device that advertises again
-- while its uplink is in flight keeps its new reading exactly as recorded, for the acknowledgement
-- carries the older sequence.
pub mark_reported-upsert :
    (c : Config) (t : Table) (a : List ℕ) (rssi : ℕ) (r : Reading) (now : ℕ) (e : Entry)
    → Inv c t
    → 0 < c.max_devices
    → lookup t.entries a ≡ some e
    → lookup (mark_reported (upsert t a rssi r now) a e.update_seq).entries a
      ≡ some (record_reading rssi r now e)
mark_reported-upsert c t a rssi r now e v room h =
    lookup-mark_reported (upsert t a rssi r now) a a e.update_seq
    ∙ rw (bytes_eq_refl a, lookup-upsert_known c t a rssi r now e v room h) (ground arith)

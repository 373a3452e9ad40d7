-- ===== src/DeviceTable/Delivery.antt =====
-- Acknowledgement: `mark_reported`, alone and for every record of a fragment.
use base_platform_zephyr_ble.Prelude.{
  ℕ, ◌≡◌, refl, ap, ◌∙◌, inl, inr, Option, none, some, List, [], ◌∷◌, arith, length-modify, ◌==◌,
  if◌then◌else◌, Bool-cases, bytes_eq, eq_of_bytes_eq,
}
use base_platform_zephyr_ble.Config.{Config}
use base_platform_zephyr_ble.DeviceTable.{Entry, Table, find_entry, mark_reported}
use base_platform_zephyr_ble.DeviceTable.Lookup.{
  lookup, Finds, find_entry-Finds, map_entry, lookup-modify,
}
use base_platform_zephyr_ble.DeviceTable.Unique.{Distinct-modify}
use base_platform_zephyr_ble.DeviceTable.Upsert.{Inv}

-- What acknowledging sequence `seq` does to one entry.
abbrev pub mark_seq : ℕ → Entry → Entry
mark_seq seq e = if e.update_seq == seq then record e { reported_seq = seq } else e

mark_seq-Keeps :
    (seq : ℕ) (e : Entry)
    → ((mark_seq seq e).address ≡ e.address) × ((mark_seq seq e).in_use ≡ e.in_use)
mark_seq-Keeps seq e = ground arith

lookup_cases :
    (t : Table) (a b : List ℕ) (seq : ℕ) (o : Option ℕ)
    → Finds t.entries a o
    → find_entry t.entries a ≡ o
    → lookup (mark_reported t a seq).entries b
      ≡ (if bytes_eq a b then map_entry (mark_seq seq) (lookup t.entries b) else lookup t.entries b)
unfolding mark_reported
lookup_cases t a b seq none f h =
    rw (h, mark_reported)
      (elim (Bool-cases (bytes_eq a b)) [
        | inl same ↦ rw (same, ← eq_of_bytes_eq a b same, f)
        | inr other ↦ rw other
      ])
lookup_cases t a b seq (some i) f h =
    rw (h, mark_reported)
      (lookup-modify t.entries a b i (mark_seq seq) (mark_seq-Keeps seq) h
        ∙ (elim (Bool-cases (bytes_eq a b)) [
          | inl same ↦ rw (same, eq_of_bytes_eq a b same)
          | inr other ↦ rw other
        ]))

by_slot-Inv :
    (c : Config) (t : Table) (a : List ℕ) (seq : ℕ) (o : Option ℕ)
    → find_entry t.entries a ≡ o
    → Inv c t
    → Inv c (mark_reported t a seq)
unfolding mark_reported
by_slot-Inv c t a seq none h v = rw (h, mark_reported) v
by_slot-Inv c t a seq (some i) h v =
    rw (h, mark_reported)
      (record {
        size = length-modify t.entries i (mark_seq seq) ∙ v.size;
        distinct = Distinct-modify t.entries a i (mark_seq seq) (mark_seq-Keeps seq) h v.distinct;
        counted = v.counted;
      })

-- Acknowledging a sequence touches one device, and that only if the table still holds the very
-- reading that the uplink carried.
pub lookup-mark_reported :
    (t : Table) (a b : List ℕ) (seq : ℕ)
    → lookup (mark_reported t a seq).entries b
      ≡ (if bytes_eq a b then map_entry (mark_seq seq) (lookup t.entries b) else lookup t.entries b)
lookup-mark_reported t a b seq =
    lookup_cases t a b seq (find_entry t.entries a) (find_entry-Finds t.entries a) refl

-- Acknowledging keeps the invariant of the table.
pub mark_reported-Inv :
    (c : Config) (t : Table) (a : List ℕ) (seq : ℕ) → Inv c t → Inv c (mark_reported t a seq)
mark_reported-Inv c t a seq = by_slot-Inv c t a seq (find_entry t.entries a) refl

-- The acknowledgement loop of `send_fragment`.
unfoldable pub acknowledge : Table → List Entry → Table
acknowledge t [] = t
acknowledge t (e ∷ es) = acknowledge (mark_reported t e.address e.update_seq) es

pub acknowledge-Inv :
    (c : Config) (t : Table) (es : List Entry) → Inv c t → Inv c (acknowledge t es)
unfolding acknowledge
acknowledge-Inv c t [] v = v
acknowledge-Inv c t (e ∷ es) v =
    acknowledge-Inv c (mark_reported t e.address e.update_seq) es
      (mark_reported-Inv c t e.address e.update_seq v)

-- What a list of acknowledgements does to the entry under one address.
abbrev pub marks : List Entry → List ℕ → Option Entry → Option Entry
marks [] b o = o
marks (e ∷ es) b o =
    marks es b (if bytes_eq e.address b then map_entry (mark_seq e.update_seq) o else o)

pub lookup-acknowledge :
    (t : Table) (es : List Entry) (b : List ℕ)
    → lookup (acknowledge t es).entries b ≡ marks es b (lookup t.entries b)
unfolding acknowledge
lookup-acknowledge t [] b = refl
lookup-acknowledge t (e ∷ es) b =
    lookup-acknowledge (mark_reported t e.address e.update_seq) es b
    ∙ ap (marks es b) (lookup-mark_reported t e.address b e.update_seq)

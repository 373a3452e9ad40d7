-- ===== src/DeviceTable/Claim.antt =====
-- Which slot `claim_slot` takes: a free one, or the least recently seen device's.
use base_platform_zephyr_ble.Prelude.{
  ℕ, suc, ◌+◌, ◌≤◌, ◌<◌, ◌≡◌, refl, true, false, ◌⊎◌, inl, inr, Option, none, some, List, [], ◌∷◌,
  arith, length, get_elem?, ltb, ltb→lt, Bool-cases,
}
use base_platform_zephyr_ble.DeviceTable.{
  Entry, Table, free_slot, oldest_slot, least_recently_seen, claim_slot, saturating_increment,
}

abbrev pub AllInUse : List Entry → Type 0
AllInUse [] = Unit {0}
AllInUse (e ∷ es) = (e.in_use ≡ true) × AllInUse es

-- No entry was heard before time `n`.
abbrev pub AllSeenSince : ℕ → List Entry → Type 0
AllSeenSince n [] = Unit {0}
AllSeenSince n (e ∷ es) = (n ≤ e.last_seen_uptime_s) × AllSeenSince n es

AllSeenSince-mono : (m n : ℕ) (es : List Entry) → m ≤ n → AllSeenSince n es → AllSeenSince m es
AllSeenSince-mono m n [] h a = tt
AllSeenSince-mono m n (e ∷ es) h a = (omega arith, AllSeenSince-mono m n es h a.1)

-- The slot that `i` names, with what the entry there satisfies.
abbrev pub Slot : List Entry → ℕ → (Entry → Type 0) → Type 0
Slot es i P = (e : Entry) × (get_elem? es i ≡ some e) × (i < length es) × P e

abbrev pub FreeSlot : List Entry → Option ℕ → Type 0
FreeSlot es none = AllInUse es
FreeSlot es (some i) = Slot es i (λ e. e.in_use ≡ false)

FreeSlot-cons :
    (e : Entry) (es : List Entry) (o : Option ℕ)
    → e.in_use ≡ true
    → FreeSlot es o
    → FreeSlot (e ∷ es) (elim o [ none ↦ none | some i ↦ some (suc i) ])
FreeSlot-cons e es none h f = (h, f)
FreeSlot-cons e es (some i) h (x, at, below, free) = (x, at, omega arith, free)

pub free_slot-FreeSlot : (es : List Entry) → FreeSlot es (free_slot es)
unfolding free_slot
free_slot-FreeSlot [] = tt
free_slot-FreeSlot (e ∷ es) = elim (Bool-cases e.in_use) [
  | inl h ↦ simp h (FreeSlot-cons e es (free_slot es) h (free_slot-FreeSlot es))
  | inr h ↦ simp h (e, refl, omega arith, h)
]

-- What the second loop returns from index `i` on: the slot it started with if nothing older
-- follows, or else the slot of an entry than which none is older.
Oldest : List Entry → ℕ → ℕ → ℕ → ℕ → Type 0
Oldest es i oldest seen r =
    ((r ≡ oldest) × AllSeenSince seen es)
    ⊎ ((j : ℕ) × (r ≡ i + j)
        × Slot es j (λ e. (e.last_seen_uptime_s < seen) × AllSeenSince e.last_seen_uptime_s es))

Oldest-older :
    (e : Entry) (es : List Entry) (i oldest seen r : ℕ)
    → e.last_seen_uptime_s < seen
    → Oldest es (suc i) i e.last_seen_uptime_s r
    → Oldest (e ∷ es) i oldest seen r
unfolding Oldest
Oldest-older e es i oldest seen r h (inl (here, all)) =
    inr (0, omega arith, (e, refl, omega arith, (h, (omega arith, all))))
Oldest-older e es i oldest seen r h (inr (j, at, (x, got, below, (older, all)))) =
    inr (suc j, omega arith, (x, got, omega arith, (omega arith, (omega arith, all))))

Oldest-newer :
    (e : Entry) (es : List Entry) (i oldest seen r : ℕ)
    → seen ≤ e.last_seen_uptime_s
    → Oldest es (suc i) oldest seen r
    → Oldest (e ∷ es) i oldest seen r
unfolding Oldest
Oldest-newer e es i oldest seen r h (inl (here, all)) = inl (here, (h, all))
Oldest-newer e es i oldest seen r h (inr (j, at, (x, got, below, (older, all)))) =
    inr (suc j, omega arith, (x, got, omega arith, (older, (omega arith, all))))

oldest_slot-Oldest :
    (es : List Entry) (i oldest seen : ℕ) → Oldest es i oldest seen (oldest_slot es i oldest seen)
unfolding oldest_slot Oldest
oldest_slot-Oldest [] i oldest seen = inl (refl, tt)
oldest_slot-Oldest (e ∷ es) i oldest seen = elim (Bool-cases (ltb e.last_seen_uptime_s seen)) [
  | inl h ↦ rw h (
      Oldest-older e es i oldest seen _ (ltb→lt _ _ h)
        (oldest_slot-Oldest es (suc i) i e.last_seen_uptime_s))
  | inr h ↦
      rw h (
        Oldest-newer e es i oldest seen _ (ground arith)
          (oldest_slot-Oldest es (suc i) oldest seen))
]

-- The loop starts at slot 0 with that slot's own time.
Oldest-from_first :
    (e : Entry) (es : List Entry) (r : ℕ)
    → Oldest (e ∷ es) 0 0 e.last_seen_uptime_s r
    → Slot (e ∷ es) r (λ x. AllSeenSince x.last_seen_uptime_s (e ∷ es))
unfolding Oldest
Oldest-from_first e es r (inl (here, all)) = rw here (e, refl, omega arith, all)
Oldest-from_first e es r (inr (j, at, (x, got, below, (older, all)))) =
    let same : r ≡ j = omega arith in rw same (x, got, below, all)

-- In a table that has a slot at all, the least recently seen one is a slot of it.
pub least_recently_seen_lem :
    (es : List Entry)
    → 0 < length es
    → Slot es (least_recently_seen es) (λ e. AllSeenSince e.last_seen_uptime_s es)
unfolding least_recently_seen
least_recently_seen_lem [] h = elim h [ ]
least_recently_seen_lem (e ∷ es) h =
    Oldest-from_first e es _ (oldest_slot-Oldest (e ∷ es) 0 0 e.last_seen_uptime_s)

-- What `claim_slot` gives a new device.
abbrev pub Claimed : Table → ℕ × Table → Type 0
Claimed t (i, t') =
    (t'.entries ≡ t.entries)
    × ((Slot t.entries i (λ e. e.in_use ≡ false) × (t'.evicted_count ≡ t.evicted_count))
        ⊎ (AllInUse t.entries
            × Slot t.entries i (λ e. AllSeenSince e.last_seen_uptime_s t.entries)
            × (t'.evicted_count ≡ saturating_increment t.evicted_count)))

Claimed-cases :
    (t : Table) (o : Option ℕ)
    → 0 < length t.entries
    → FreeSlot t.entries o
    → free_slot t.entries ≡ o
    → Claimed t (claim_slot t)
unfolding claim_slot
Claimed-cases t none h f e =
    rw (e, claim_slot) (refl, inr (f, least_recently_seen_lem t.entries h, refl))
Claimed-cases t (some i) h f e = rw (e, claim_slot) (refl, inl (f, refl))

pub claim_slot-Claimed : (t : Table) → 0 < length t.entries → Claimed t (claim_slot t)
claim_slot-Claimed t h = Claimed-cases t (free_slot t.entries) h (free_slot-FreeSlot t.entries) refl

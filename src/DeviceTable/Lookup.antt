-- ===== src/DeviceTable/Lookup.antt =====
-- What an address finds in the table, and how an update in place changes it.
use base_platform_zephyr_ble.Prelude.{
  ℕ, zero, suc, ◌<◌, ◌≡◌, refl, Bool, true, false, ◌&&◌, inl, inr, Option, none, some, List, [],
  ◌∷◌, arith, length, get_elem?, modify, if◌then◌else◌, Bool-cases, bytes_eq, eq_of_bytes_eq,
  bytes_eq_refl,
}
use base_platform_zephyr_ble.DeviceTable.{Entry, find_entry}

abbrev pub holds : Entry → List ℕ → Bool
holds e address = e.in_use && bytes_eq e.address address

-- The first entry in use under an address: the table as a finite map.
abbrev pub lookup : List Entry → List ℕ → Option Entry
lookup [] address = none
lookup (e ∷ es) address = let rest = lookup es address in if holds e address then some e else rest

-- What `find_entry` points at is what `lookup` returns; it fails where `lookup` does.
abbrev pub Finds : List Entry → List ℕ → Option ℕ → Type 0
Finds es address none = lookup es address ≡ none
Finds es address (some i) =
    (e : Entry) × (get_elem? es i ≡ some e)
    × (lookup es address ≡ some e)
    × (holds e address ≡ true)
    × (i < length es)

Finds-cons :
    (e : Entry) (es : List Entry) (address : List ℕ) (o : Option ℕ)
    → holds e address ≡ false
    → Finds es address o
    → Finds (e ∷ es) address (elim o [ none ↦ none | some i ↦ some (suc i) ])
Finds-cons e es address none h f = rw h f
Finds-cons e es address (some i) h (x, at, found, held, below) =
    (x, at, rw h found, held, omega arith)

pub find_entry-Finds :
    (es : List Entry) (address : List ℕ) → Finds es address (find_entry es address)
unfolding find_entry
find_entry-Finds [] address = refl
find_entry-Finds (e ∷ es) address = elim (Bool-cases (holds e address)) [
  | inl h ↦ rw h (e, refl, rw h, h, omega arith)
  | inr h ↦ rw h (Finds-cons e es address (find_entry es address) h (find_entry-Finds es address))
]

-- An update that leaves the key alone.
abbrev pub Keeps : (Entry → Entry) → Type 0
Keeps f = (e : Entry) → ((f e).address ≡ e.address) × ((f e).in_use ≡ e.in_use)

abbrev pub map_entry : (Entry → Entry) → Option Entry → Option Entry
map_entry f none = none
map_entry f (some e) = some (f e)

-- Updating the entry found under an address is an update of the map at that address.
pub lookup-modify :
    (es : List Entry) (a b : List ℕ) (i : ℕ) (f : Entry → Entry)
    → Keeps f
    → find_entry es a ≡ some i
    → lookup (modify es i f) b ≡ (if bytes_eq a b then map_entry f (lookup es a) else lookup es b)
unfolding find_entry
lookup-modify [] a b i f k h = cc
lookup-modify (e ∷ es) a b zero f k h =
    ground (arith, k e, eq_of_bytes_eq e.address a, eq_of_bytes_eq e.address b, bytes_eq_refl b)
lookup-modify (e ∷ es) a b (suc i) f k h = ground (
  arith,
  lookup-modify es a b i f k,
  eq_of_bytes_eq e.address b,
  eq_of_bytes_eq a b,
  bytes_eq_refl b,
)

-- ===== src/DeviceTable/Unique.antt =====
-- No address stands in two slots, and what writing a whole slot does to the map.
use base_platform_zephyr_ble.Prelude.{
  ℕ, zero, suc, ◌≡◌, ◌≢◌, true, none, some, List, [], ◌∷◌, arith, get_elem?, modify, if◌then◌else◌,
  bytes_eq, eq_of_bytes_eq, bytes_eq_refl,
}
use base_platform_zephyr_ble.DeviceTable.{Entry, find_entry}
use base_platform_zephyr_ble.DeviceTable.Lookup.{holds, lookup, Keeps, lookup-modify}

-- Every entry in use is the only one under its address.
abbrev pub Distinct : List Entry → Type 0
Distinct [] = Unit {0}
Distinct (e ∷ es) = (e.in_use ≡ true → lookup es e.address ≡ none) × Distinct es

lookup-ne-none :
    (es : List Entry) (i : ℕ) (old : Entry) (b : List ℕ)
    → get_elem? es i ≡ some old
    → holds old b ≡ true
    → lookup es b ≢ none
lookup-ne-none [] i old b h t = cc
lookup-ne-none (e ∷ es) zero old b h t = ground arith
lookup-ne-none (e ∷ es) (suc i) old b h t = ground (arith, lookup-ne-none es i old b h t)

-- A slot given to a new address: the address is found there, and the slot's last owner is not
-- found any more.
pub lookup-replace :
    (es : List Entry) (a b : List ℕ) (i : ℕ) (old new : Entry)
    → get_elem? es i ≡ some old
    → new.in_use ≡ true
    → new.address ≡ a
    → lookup es a ≡ none
    → Distinct es
    → lookup (modify es i (λ _. new)) b
      ≡ (if bytes_eq a b then some new else if holds old b then none else lookup es b)
lookup-replace [] a b i old new at used key free d = cc
lookup-replace (e ∷ es) a b zero old new at used key free d =
    ground (arith, eq_of_bytes_eq e.address b, d.0)
lookup-replace (e ∷ es) a b (suc i) old new at used key free d = ground (
  arith,
  lookup-replace es a b i old new at used key,
  eq_of_bytes_eq e.address b,
  eq_of_bytes_eq a b,
  bytes_eq_refl b,
  lookup-ne-none es i old b at,
  d.0,
)

pub Distinct-replace :
    (es : List Entry) (a : List ℕ) (i : ℕ) (old new : Entry)
    → get_elem? es i ≡ some old
    → new.in_use ≡ true
    → new.address ≡ a
    → lookup es a ≡ none
    → Distinct es
    → Distinct (modify es i (λ _. new))
Distinct-replace [] a i old new at used key free d = d
Distinct-replace (e ∷ es) a zero old new at used key free d = ((λ _. ground arith), d.1)
Distinct-replace (e ∷ es) a (suc i) old new at used key free d = (
  (λ u. ground (
    arith,
    lookup-replace es a e.address i old new at used key,
    eq_of_bytes_eq a e.address,
    bytes_eq_refl a,
    d.0 u,
  )),
  Distinct-replace es a i old new at used key (ground arith) d.1,
)

pub Distinct-modify :
    (es : List Entry) (a : List ℕ) (i : ℕ) (f : Entry → Entry)
    → Keeps f
    → find_entry es a ≡ some i
    → Distinct es
    → Distinct (modify es i f)
unfolding find_entry
Distinct-modify [] a i f k h d = d
Distinct-modify (e ∷ es) a zero f k h d = ((λ u. ground (arith, k e, d.0)), d.1)
Distinct-modify (e ∷ es) a (suc i) f k h d = ground (
  arith,
  Distinct-modify es a i f k,
  lookup-modify es a e.address i f k,
  eq_of_bytes_eq a e.address,
)

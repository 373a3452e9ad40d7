-- ===== src/Comms/Fragments/Reach.antt =====
-- What the fragments of a dispatch hold, and the states of the transport that their sends lead to.
use base_platform_zephyr_ble.Prelude.{
  ℕ, zero, suc, ◌≤◌, ◌≡◌, ◌≢◌, refl, ap, List, [], ◌∷◌, ◌++◌, length, take, drop, map, arith,
}
use base_platform_zephyr_ble.DeviceTable.{Entry}
use base_platform_zephyr_ble.Link.{Link, no_error}
use base_platform_zephyr_ble.Comms.{header_size, records_bytes}

-- The records of the first `n` fragments, as bytes, the last fragment first.
abbrev pub chunks : ℕ → ℕ → List Entry → ℕ → List (List ℕ)
chunks zero per es now_s = []
chunks (suc n) per es now_s =
    chunks n per (drop per es) now_s ++ (records_bytes (take per es) now_s ∷ [])

pub map-append_one :
    (ps : List (List ℕ)) (p : List ℕ)
    → map (drop header_size) (ps ++ (p ∷ []))
      ≡ map (drop header_size) ps ++ (drop header_size p ∷ [])
map-append_one [] p = refl
map-append_one (q ∷ ps) p = ap (◌∷◌ (drop header_size q)) (map-append_one ps p)

-- A state that the transport comes to from `l` when it accepts payloads of at most `size` bytes.
pub data Reaches {L : Type 0} (link : Link L) (size : ℕ) : L → L → Type 0 where
  here : (l : L) → Reaches link size l l
  after :
      (p : List ℕ) (l l' : L)
      → length p ≤ size
      → (link.send p l).1 ≡ no_error
      → Reaches link size (link.send p l).0 l'
      → Reaches link size l l'

pub Reaches-le :
    {L : Type 0} (link : Link L) (m n : ℕ) (l l' : L)
    → m ≤ n
    → Reaches link m l l'
    → Reaches link n l l'
Reaches-le link m n l l' h (here _) = here l
Reaches-le link m n l l' h (after p _ _ small good next) =
    after p l l' (omega arith) good (Reaches-le link m n (link.send p l).0 l' h next)

-- The transport, from the state `l` on, refuses a payload of at most `size` bytes.
abbrev pub Refuses : {L : Type 0} → Link L → ℕ → L → Type 0
Refuses {L = L} link size l =
    (p : List ℕ) × (l' : L) × (length p ≤ size)
    × Reaches link size l l'
    × ((link.send p l').1 ≢ no_error)

-- The transport can accept a payload.
abbrev pub Accepts : {L : Type 0} → Link L → Type 0
Accepts {L = L} link = (p : List ℕ) × (l : L) × ((link.send p l).1 ≡ no_error)

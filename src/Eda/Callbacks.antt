-- ===== src/Eda/Callbacks.antt =====
-- The callback table of a port: registering, and what an event then calls.
use base_platform_zephyr_ble.Prelude.{
  ℕ, zero, suc, [], ◌∷◌, ◌<◌, ◌≡◌, refl, ◌&&◌, Option, some, List, arith, length, get_elem?, modify,
  get_elem?-modify_self, get_elem?-modify_ne, ltb, ◌==◌, if◌then◌else◌,
}
use native.Mathlib.Decide.{ℕ_discrete}
use base_platform_zephyr_ble.Eda.{set_event_callback, execute_callback, max_port_callbacks}

get_elem?-below :
    (xs : List (Option ℕ)) (i : ℕ) → i < length xs → (x : Option ℕ) × (get_elem? xs i ≡ some x)
get_elem?-below [] i h = elim h [ ]
get_elem?-below (x ∷ xs) zero h = (x, refl)
get_elem?-below (x ∷ xs) (suc i) h = get_elem?-below xs i (omega arith)

modify_self :
    (table : List (Option ℕ)) (id callback : ℕ)
    → id < length table
    → get_elem? (modify table id (λ _. some callback)) id ≡ some (some callback)
modify_self table id callback h =
    let (x, at) = get_elem?-below table id h in
    get_elem?-modify_self table id (λ _. some callback) x at

-- An event calls the callback last registered for it; registering for an id outside the table
-- changes nothing, and such an event calls nothing.
pub execute-set_event_callback :
    (table : List (Option ℕ)) (id other callback : ℕ)
    → length table ≡ max_port_callbacks
    → execute_callback (set_event_callback table id callback) other ≡ (
        if id == other && ltb id max_port_callbacks
        then some callback
        else execute_callback table other)
unfolding execute_callback set_event_callback
execute-set_event_callback table id other callback h = elim (ℕ_discrete id other) [
  | yes same ↦ ground (arith, modify_self table id callback)
  | no ne ↦ ground (arith, get_elem?-modify_ne table id other (λ _. some callback) ne)
]

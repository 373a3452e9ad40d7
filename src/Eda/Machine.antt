-- ===== src/Eda/Machine.antt =====
-- src/eda/state_machine: the generic machine over its states. A pointer to a state is an option,
-- and a call through a null one does not return. `entry` and `exit` act on the context `C`, which
-- is everything that a state's actions can touch.
use base_platform_zephyr_ble.Prelude.{Bool, true, false, Option, none, some}
use base_platform_zephyr_ble.Eda.{Run, running, halted, ◌>>=◌}

pub record Machine (S : Type 0) : Type 0 where
  pub current : Option S
  pub previous : Option S
  pub next : Option S

abbrev pub with_context : {S C : Type 0} → Machine S → Run C → Run (Machine S × C)
with_context m (running c) = running (m, c)
with_context m (halted c) = halted (m, c)

module _ {S : Type 0} where
  -- The constructor.
  abbrev pub machine : Option S → Machine S
  machine initial_state = record { current = initial_state; previous = none; next = none }

  abbrev pub set_next_state : Option S → Machine S → Machine S
  set_next_state s m = record m { next = s }

  abbrev pub next_state_is_set : Machine S → Bool
  next_state_is_set m = elim m.next [ none ↦ false | some s ↦ true ]

  abbrev pub get_last_state : Machine S → Option S
  get_last_state m = m.previous

module _ {S C : Type 0} (entry exit : S → C → Run C) where
  abbrev pub enter : Machine S × C → Run (Machine S × C)
  enter (m, c) = elim m.current [ none ↦ halted (m, c) | some s ↦ with_context m (entry s c) ]

  abbrev pub leave : Machine S × C → Run (Machine S × C)
  leave (m, c) = elim m.current [ none ↦ halted (m, c) | some s ↦ with_context m (exit s c) ]

  -- `init`, after `init_action` has left the machine `m`.
  abbrev pub init : Machine S × C → Run (Machine S × C)
  init (m, c) = elim m.next [
    | none ↦ enter (m, c)
    | some s ↦ enter (record { current = some s; previous = some s; next = none }, c)
  ]

  abbrev pub change_state : S → Machine S × C → Run (Machine S × C)
  change_state new mc =
      leave mc >>= λ (m, c). enter (record m { previous = m.current; current = some new }, c)

  abbrev pub return_to_last_state : Machine S × C → Run (Machine S × C)
  return_to_last_state mc =
      leave mc >>= λ (m, c). enter (record m { previous = m.current; current = m.previous }, c)

  abbrev pub change_to_next_state : Machine S × C → Run (Machine S × C)
  change_to_next_state mc = leave mc >>= λ (m, c).
      enter (record { previous = m.current; current = m.next; next = none }, c)

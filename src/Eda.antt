-- ===== src/Eda.antt =====
-- src/eda/port and src/eda/active_object: the ports, and the event queue behind each of them.
-- The queue itself is Zephyr's message queue, a parameter here: `hal::os::Queue` only calls it.
-- Each port has one active object, so a registry slot holds that object's queue.
pub mod Delivery
pub mod Callbacks
pub mod Machine
pub mod Timer
use base_platform_zephyr_ble.Prelude.{
  ℕ, zero, suc, ◌+◌, ◌%◌, ◌^◌, ◌<◌, ◌≤◌, ◌≡◌, Bool, true, false, not, ◌&&◌, ◌⊎◌, Option, none, some,
  List, [], ◌∷◌, ◌++◌, length, get_elem?, modify, replicate, ltb, leb, ◌==◌, if◌then◌else◌,
}
use base_platform_zephyr_ble.Fault.{Fault, Reason, report, event_lost, port_not_ready}

-- `eda_config::PortList`, the sentinel included.
pub data PortList : Type 0 where
  invalid_port app_port acquisition_port comms_port system_diagnostics_port port_count : PortList

-- The values of the enumeration.
abbrev pub port_index : PortList → ℕ
port_index invalid_port = 0
port_index app_port = 1
port_index acquisition_port = 2
port_index comms_port = 3
port_index system_diagnostics_port = 4
port_index port_count = 5

-- `ActiveObject::Event`. The port pointer is the registry slot that the event was sent through.
pub record Event : Type 0 where
  pub port : PortList
  pub event_id : ℕ
  pub opt_data_address : ℕ

-- A message queue of `k_msgq_init`, `k_msgq_put` and `k_msgq_get` without waiting: first in first
-- out, with a limit fixed at initialisation, `none` where the call reports failure.
pub record MsgQueue (A Q : Type 0) : Type 0 where
  pub init : ℕ → Q
  pub put : Q → A → Option Q
  pub try_get : Q → Option (A × Q)
  pub contents : Q → List A
  pub max_items : Q → ℕ
  pub contents-init : (n : ℕ) → contents (init n) ≡ []
  pub max_items-init : (n : ℕ) → max_items (init n) ≡ n
  pub put_lem :
      (q : Q) (a : A)
      → ((length (contents q) < max_items q)
          × ((q' : Q) × (put q a ≡ some q')
              × (contents q' ≡ contents q ++ (a ∷ []))
              × (max_items q' ≡ max_items q)))
        ⊎ ((max_items q ≤ length (contents q)) × (put q a ≡ none))
  pub try_get_lem :
      (q : Q)
      → ((contents q ≡ []) × (try_get q ≡ none))
        ⊎ ((a : A) × (q' : Q) × (try_get q ≡ some (a, q'))
            × (contents q ≡ a ∷ contents q')
            × (max_items q' ≡ max_items q))

-- `m_active_ports_list`, `s_dropped_event_count` and the fault latch.
pub record Bus (Q : Type 0) : Type 0 where
  pub ports : List (Option Q)
  pub dropped_event_count : ℕ
  pub fault : Fault

-- What a call leaves behind. On a debug build a failed assertion spins for ever.
pub data Run (S : Type 0) : Type 0 where
  running : S → Run S
  halted : S → Run S

infixl 5 ◌>>=◌
abbrev pub ◌>>=◌ : {S : Type 0} → Run S → (S → Run S) → Run S
running s >>= f = f s
halted s >>= f = halted s

-- The state of a run, halted or not.
abbrev pub state : {S : Type 0} → Run S → S
state (running s) = s
state (halted s) = s

pub data PostResult : Type 0 where
  ok queue_full not_ready : PostResult

abbrev pub queue_length : ℕ
queue_length = 20

module _ {Q : Type 0} where
  abbrev pub start_up : ℕ → Fault → Bus Q
  start_up dropped f = record {
    ports = replicate (port_index port_count) none;
    dropped_event_count = dropped;
    fault = f;
  }

  abbrev pub slot : Bus Q → ℕ → Option Q
  slot b i = elim (get_elem? b.ports i) [ none ↦ none | some o ↦ o ]

  -- The checks of `is_registered`, and the queue behind the port where they pass.
  unfoldable pub queue_of : Bus Q → PortList → Option Q
  queue_of b p =
      if not (port_index p == port_index invalid_port) && ltb (port_index p) (port_index port_count)
      then slot b (port_index p)
      else none

  abbrev pub put_slot : Bus Q → PortList → Q → Bus Q
  put_slot b p q = record b { ports = modify b.ports (port_index p) (λ _. some q) }

  -- `Port::init`, with the queue of the active object that the port is given.
  unfoldable pub init_port : Bus Q → PortList → Q → Bus Q
  init_port b p q =
      if not (port_index p == port_index invalid_port) && ltb (port_index p) (port_index port_count)
      then put_slot b p q
      else b

abbrev pub event : PortList → ℕ → ℕ → Event
event p id address = record { port = p; event_id = id; opt_data_address = address }

module _ {Q : Type 0} (os : MsgQueue Event Q) where
  -- `ActiveObject::post_event`, on the queue of a registered port. `post_event_from_isr` differs
  -- only in what it logs.
  unfoldable pub post_event : Bus Q → PortList → Q → ℕ → ℕ → Bus Q × PostResult
  post_event b p q id address = elim (os.put q (event p id address)) [
    | some q' ↦ (put_slot b p q', ok)
    | none ↦ (record b { dropped_event_count = (b.dropped_event_count + 1) % 2 ^ 32 }, queue_full)
  ]

  -- The look-up and the post of `send_event`.
  unfoldable pub try_send : Bus Q → PortList → ℕ → ℕ → Bus Q × PostResult
  unfolding post_event
  try_send b p id address = elim (queue_of b p) [
    | some q ↦ post_event b p q id address
    | none ↦ (b, not_ready)
  ]

  -- The failure branch of `send_event`: the latch, and then `ASSERT_CRITICAL(false)`.
  unfoldable pub lost : Bool → Bus Q → PostResult → Run (Bus Q)
  lost debug b ok = running b
  lost debug b queue_full =
      let b' = record b { fault = report event_lost b.fault } in
      if debug then halted b' else running b'
  lost debug b not_ready =
      let b' = record b { fault = report port_not_ready b.fault } in
      if debug then halted b' else running b'

  unfoldable pub send_event : Bool → Bus Q → PortList → ℕ → ℕ → Run (Bus Q)
  unfolding try_send lost
  send_event debug b p id address =
      let (b', result) = try_send b p id address in lost debug b' result

  -- Nothing is reported: an unregistered port is ignored, a full queue only counted.
  unfoldable pub send_event_from_isr : Bus Q → PortList → ℕ → ℕ → Bus Q
  unfolding try_send
  send_event_from_isr b p id address = (try_send b p id address).0

  -- One turn of `process_events`: the oldest event of the port's queue, and the queue without it.
  unfoldable pub next_event : Bus Q → PortList → Option (Event × Bus Q)
  next_event b p = elim (queue_of b p) [
    | none ↦ none
    | some q ↦ (elim (os.try_get q) [ none ↦ none | some (e, q') ↦ some (e, put_slot b p q') ])
  ]

abbrev pub max_port_callbacks : ℕ
max_port_callbacks = 32

-- The callback table of a port; a callback is a name. `none` is the null pointer.
abbrev pub no_callbacks : List (Option ℕ)
no_callbacks = replicate max_port_callbacks none

unfoldable pub set_event_callback : List (Option ℕ) → ℕ → ℕ → List (Option ℕ)
set_event_callback table id callback =
    if ltb id max_port_callbacks then modify table id (λ _. some callback) else table

-- The callback that is called, if one is.
unfoldable pub execute_callback : List (Option ℕ) → ℕ → Option ℕ
execute_callback table id =
    if leb max_port_callbacks id
    then none
    else (elim (get_elem? table id) [ none ↦ none | some o ↦ o ])

-- ===== src/Hal/Kernel.antt =====
-- src/hal/os/zephyr/os_zephyr.cpp: the wrappers of Zephyr's message queue and timer. The
-- kernel's calls are parameters, with what Zephyr documents of them; a call's int result is its
-- absolute value, so that zero is success. A callback, a context and an entry function are names.
use base_platform_zephyr_ble.Prelude.{
  ℕ, suc, ◌≤◌, ◌<◌, ◌≡◌, refl, ap, ◌∙◌, Bool, false, ◌⊎◌, inl, inr, Option, none, some, List, [],
  ◌∷◌, ◌++◌, length, ◌==◌, if◌then◌else◌, arith,
}
use base_platform_zephyr_ble.Eda.{MsgQueue}

pub data Timeout : Type 0 where
  no_wait forever : Timeout
  msec : ℕ → Timeout

-- `k_msgq_init`, `k_msgq_put` and `k_msgq_get`, the two without waiting. A put that fails and a get
-- on an empty queue leave the queue alone.
pub record Msgq (A Q : Type 0) : Type 0 where
  pub k_msgq_init : ℕ → Q
  pub k_msgq_put : Q → A → Timeout → Q × ℕ
  pub k_msgq_get : Q → Timeout → (Q × Option A) × ℕ
  pub contents : Q → List A
  pub max_items : Q → ℕ
  pub contents-init : (n : ℕ) → contents (k_msgq_init n) ≡ []
  pub max_items-init : (n : ℕ) → max_items (k_msgq_init n) ≡ n
  pub put_lem :
      (q : Q) (a : A)
      → ((length (contents q) < max_items q)
          × ((q' : Q) × (k_msgq_put q a no_wait ≡ (q', 0))
              × (contents q' ≡ contents q ++ (a ∷ []))
              × (max_items q' ≡ max_items q)))
        ⊎ ((max_items q ≤ length (contents q)) × ((e : ℕ) × (k_msgq_put q a no_wait ≡ (q, suc e))))
  pub get_lem :
      (q : Q)
      → ((contents q ≡ []) × ((e : ℕ) × (k_msgq_get q no_wait ≡ ((q, none), suc e))))
        ⊎ ((a : A) × (q' : Q) × (k_msgq_get q no_wait ≡ ((q', some a), 0))
            × (contents q ≡ a ∷ contents q')
            × (max_items q' ≡ max_items q))

-- A result that is not zero.
pub failure : (e : ℕ) → (suc e == 0) ≡ false
failure e = ground arith

module _ {A Q : Type 0} (k : Msgq A Q) where
  -- `Queue::put`, from a thread or from an interrupt.
  unfoldable pub put : Q → A → Bool → Q × Bool
  put q a from_isr = let (q', result) = k.k_msgq_put q a no_wait in (q', result == 0)

  -- `Queue::try_get`, with what it writes through its pointer.
  unfoldable pub try_get : Q → (Q × Option A) × Bool
  try_get q = let (out, result) = k.k_msgq_get q no_wait in (out, result == 0)

  -- The queue as its callers see it: the outcome of a call that succeeded.
  unfoldable pub put_outcome : Q → A → Option Q
  unfolding put
  put_outcome q a = let (q', done) = put q a false in if done then some q' else none

  received : (Q × Option A) × Bool → Option (A × Q)
  received ((q', item), done) =
      if done then (elim item [ none ↦ none | some a ↦ some (a, q') ]) else none

  unfoldable pub try_get_outcome : Q → Option (A × Q)
  unfolding received try_get
  try_get_outcome q = received (try_get q)

  pub put_outcome_lem :
      (q : Q) (a : A)
      → ((length (k.contents q) < k.max_items q)
          × ((q' : Q) × (put_outcome q a ≡ some q')
              × (k.contents q' ≡ k.contents q ++ (a ∷ []))
              × (k.max_items q' ≡ k.max_items q)))
        ⊎ ((k.max_items q ≤ length (k.contents q)) × (put_outcome q a ≡ none))
  unfolding put_outcome
  put_outcome_lem q a = elim (k.put_lem q a) [
    | inl (room, (q', done, contents, limit)) ↦
        inl (room, (q', rw (done, put_outcome) refl, contents, limit))
    | inr (full, (e, failed)) ↦ inr (full, rw (failed, put_outcome, failure e) refl)
  ]

  pub try_get_outcome_lem :
      (q : Q)
      → ((k.contents q ≡ []) × (try_get_outcome q ≡ none))
        ⊎ ((a : A) × (q' : Q) × (try_get_outcome q ≡ some (a, q'))
            × (k.contents q ≡ a ∷ k.contents q')
            × (k.max_items q' ≡ k.max_items q))
  unfolding try_get_outcome received try_get
  try_get_outcome_lem q = elim (k.get_lem q) [
    | inl (empty, (e, failed)) ↦ inl (
      empty,
      ap (λ (x : (Q × Option A) × ℕ). received (x.0, x.1 == 0)) failed
          ∙ rw (failure e, received) refl,
    )
    | inr (a, q', done, contents, limit) ↦
        inr (a, q', ap (λ (x : (Q × Option A) × ℕ). received (x.0, x.1 == 0)) done, contents, limit)
  ]

  -- `hal::os::Queue` over such a kernel is the message queue that the ports and the report pool
  -- use.
  abbrev pub message_queue : MsgQueue A Q
  message_queue = record {
    init = k.k_msgq_init;
    put = put_outcome;
    try_get = try_get_outcome;
    contents = k.contents;
    max_items = k.max_items;
    contents-init = k.contents-init;
    max_items-init = k.max_items-init;
    put_lem = put_outcome_lem;
    try_get_lem = try_get_outcome_lem;
  }

-- `TimerUserData`, and what a Timer asked of the kernel last.
pub record TimerUserData : Type 0 where
  pub callback : Option ℕ
  pub context : ℕ

pub data TimerCall : Type 0 where
  k_timer_init k_timer_stop : TimerCall
  k_timer_start : (duration period : Timeout) → TimerCall

pub record Timer : Type 0 where
  pub user_data : Option TimerUserData
  pub call : TimerCall

abbrev pub init_timer : Option ℕ → ℕ → Timer
init_timer callback context = record {
  user_data = some (record { callback = callback; context = context });
  call = k_timer_init;
}

abbrev pub start_once : ℕ → Timer → Timer
start_once duration_ms t = record t { call = k_timer_start (msec duration_ms) no_wait }

abbrev pub start_periodic : ℕ → Timer → Timer
start_periodic period_ms t = record t { call = k_timer_start (msec period_ms) (msec period_ms) }

abbrev pub stop : Timer → Timer
stop t = record t { call = k_timer_stop }

-- `timer_expiry_handler`: the callback that is called, with its context.
abbrev pub timer_expiry_handler : Option TimerUserData → Option (ℕ × ℕ)
timer_expiry_handler none = none
timer_expiry_handler (some data') = elim data'.callback [
  | none ↦ none
  | some f ↦ some (f, data'.context)
]

-- ===== src/App/Invariant.antt =====
-- What always holds between two events of the application's thread.
use base_platform_zephyr_ble.Prelude.{
  ℕ, ◌≤◌, ◌≡◌, refl, Bool, true, false, none, some, List, [], ◌∷◌, arith,
}
use base_platform_zephyr_ble.Eda.{Event, MsgQueue, Bus, Run, running, halted, ◌>>=◌}
use base_platform_zephyr_ble.Eda.Timer.{KernelCall, never, stopped, started_once, started_periodic}
use base_platform_zephyr_ble.Hal.Led.{Led}
use base_platform_zephyr_ble.App.{
  StateId, in_startup, in_listening, in_dispatching, in_soft_error, in_hard_error,
  soft_error_retry_ms, soft_error_retry_max_ms, App, constructed, start, transition_to,
  dispatch_event, run,
}

-- What the error light shows. It shows nothing for certain where another thread drives it as well:
-- `alone` is whether none does.
abbrev pub Shows : Bool → Bool → Bool → Type 0
Shows true lit wanted = lit ≡ wanted
Shows false lit wanted = Unit {0}

Shows-self : (alone lit : Bool) → Shows alone lit lit
Shows-self true lit = refl
Shows-self false lit = tt

-- The retry timer is armed in SOFT_ERROR, for a delay within the limits, and nowhere else; the
-- error light shows that state.
abbrev pub Retrying : Bool → StateId → KernelCall → Bool → Type 0
Retrying alone in_soft_error (started_once d) lit =
    (soft_error_retry_ms ≤ d) × (d ≤ soft_error_retry_max_ms) × Shows alone lit true
Retrying alone in_soft_error never lit = ⊥
Retrying alone in_soft_error stopped lit = ⊥
Retrying alone in_soft_error (started_periodic d) lit = ⊥
Retrying alone _ (started_once d) lit = ⊥
Retrying alone _ (started_periodic d) lit = ⊥
Retrying alone _ never lit = Shows alone lit false
Retrying alone _ stopped lit = Shows alone lit false

pub record Inv {Q : Type 0} (alone : Bool) (a : App Q) : Type 0 where
  pub badge : a.machine.current ≡ some a.current_state_id
  pub no_next : a.machine.next ≡ none
  pub delay_low : soft_error_retry_ms ≤ a.context.retry_delay_ms
  pub delay_high : a.context.retry_delay_ms ≤ soft_error_retry_max_ms
  pub one_shot : a.context.retry_timer.is_periodic ≡ false
  pub retrying :
      Retrying alone a.current_state_id a.context.retry_timer.last_call a.context.error_led.state

-- A successful join puts the backoff back before the state is left.
abbrev rejoined : {Q : Type 0} → App Q → App Q
rejoined a = record a { context = record (a.context) { retry_delay_ms = soft_error_retry_ms } }

rejoined-Inv : {Q : Type 0} (alone : Bool) (a : App Q) → Inv alone a → Inv alone (rejoined a)
rejoined-Inv alone a v = ground arith

module _ {Q : Type 0} (os : MsgQueue Event Q) (debug alone : Bool) where
  pub transition_to-Inv :
      (id : StateId) (a a' : App Q)
      → Inv alone a
      → transition_to os debug id a ≡ running a'
      → Inv alone a'
  unfolding transition_to
  transition_to-Inv in_startup a a' v h =
      ground (arith, Shows-self alone true, Shows-self alone false)
  transition_to-Inv in_listening a a' v h =
      ground (arith, Shows-self alone true, Shows-self alone false)
  transition_to-Inv in_dispatching a a' v h =
      ground (arith, Shows-self alone true, Shows-self alone false)
  transition_to-Inv in_soft_error a a' v h =
      ground (arith, Shows-self alone true, Shows-self alone false)
  transition_to-Inv in_hard_error a a' v h =
      ground (arith, Shows-self alone true, Shows-self alone false)

  -- Events of a state: `s` is the state that the machine is in.
  state_event-Inv :
      (s : StateId) (id : ℕ) (a a' : App Q)
      → a.machine.current ≡ some s
      → Inv alone a
      → dispatch_event os debug id a ≡ running a'
      → Inv alone a'
  unfolding dispatch_event
  state_event-Inv in_startup id a a' c v h = ground (
    arith,
    transition_to-Inv in_listening a a' v,
    transition_to-Inv in_soft_error a a' v,
    transition_to-Inv in_hard_error a a' v,
  )
  state_event-Inv in_listening id a a' c v h = ground (
    arith,
    transition_to-Inv in_dispatching a a' v,
    transition_to-Inv in_soft_error a a' v,
    transition_to-Inv in_hard_error a a' v,
  )
  state_event-Inv in_dispatching id a a' c v h = ground (
    arith,
    transition_to-Inv in_listening a a' v,
    transition_to-Inv in_soft_error a a' v,
    transition_to-Inv in_hard_error a a' v,
  )
  state_event-Inv in_soft_error id a a' c v h = ground (
    arith,
    transition_to-Inv in_listening (rejoined a) a' (rejoined-Inv alone a v),
    transition_to-Inv in_hard_error a a' v,
  )
  state_event-Inv in_hard_error id a a' c v h =
      ground (arith, Shows-self alone true, Shows-self alone false)

  -- Every event that the application handles keeps the invariant: the badge names the state, the
  -- backoff stays within its limits, and the retry timer is armed exactly in SOFT_ERROR.
  pub dispatch_event-Inv :
      (id : ℕ) (a a' : App Q)
      → Inv alone a
      → dispatch_event os debug id a ≡ running a'
      → Inv alone a'
  dispatch_event-Inv id a a' v h = state_event-Inv a.current_state_id id a a' v.badge v h

  pub run-Inv :
      (ids : List ℕ) (a a' : App Q) → Inv alone a → run os debug ids a ≡ running a' → Inv alone a'
  unfolding run
  run-Inv [] a a' v h = ground (arith, Shows-self alone true, Shows-self alone false)
  run-Inv (id ∷ ids) a a' v h =
      step (dispatch_event os debug id a) refl h (λ b w k. run-Inv ids b a' w k)
    where
      step :
          (r : Run (App Q))
          → dispatch_event os debug id a ≡ r
          → (r >>= run os debug ids) ≡ running a'
          → ((b : App Q) → Inv alone b → run os debug ids b ≡ running a' → Inv alone a')
          → Inv alone a'
      step (running b) e k rest = rest b (dispatch_event-Inv id a b v e) k
      step (halted b) e k rest = cc

  -- From power-on with the error light out, where start and run come back: once the machine has
  -- been started, whatever events its thread handles, in any order and number, it is in a state
  -- that satisfies the invariant.
  pub start-run-Inv :
      (ids : List ℕ) (bus : Bus Q) (error_led : Led) (a a' : App Q)
      → error_led.state ≡ false
      → start os debug (constructed bus error_led) ≡ running a
      → run os debug ids a ≡ running a'
      → Inv alone a'
  unfolding start
  start-run-Inv ids bus error_led a a' dark s h = run-Inv ids a a' (ground arith) h

-- Where another thread drives the error light as well, the invariant does not depend on it.
Retrying-light :
    (s : StateId) (k : KernelCall) (x y : Bool) → Retrying false s k x → Retrying false s k y
Retrying-light s k x y h = ground arith

pub light-Inv :
    {Q : Type 0} (a : App Q) (l : Led)
    → Inv false a
    → Inv false (record a { context = record (a.context) { error_led = l } })
light-Inv a l v = record {
  badge = v.badge;
  no_next = v.no_next;
  delay_low = v.delay_low;
  delay_high = v.delay_high;
  one_shot = v.one_shot;
  retrying =
      Retrying-light a.current_state_id a.context.retry_timer.last_call a.context.error_led.state
        l.state v.retrying;
}

-- ===== src/App/Returns.antt =====
-- On a release build the application always comes back from an event.
use base_platform_zephyr_ble.Prelude.{
  ℕ, ◌≡◌, refl, Bool, true, false, some, none, List, [], ◌∷◌, arith, if◌then◌else◌,
}
use base_platform_zephyr_ble.Eda.{
  Event, MsgQueue, Bus, PortList, PostResult, ok, queue_full, not_ready, try_send, lost, Run,
  running, ◌>>=◌, send_event,
}
use base_platform_zephyr_ble.Hal.Led.{Led}
use base_platform_zephyr_ble.App.{
  StateId, in_startup, in_listening, in_dispatching, in_soft_error, in_hard_error, App, Context,
  constructed, start, transition_to, entry, exit, on_bus, with_context, startup_event,
  listening_event, dispatching_event, soft_error_event, state_event, post_comms, post_acquisition,
  dispatch_event, run,
}
use base_platform_zephyr_ble.App.Invariant.{Inv, dispatch_event-Inv, run-Inv, start-run-Inv}

abbrev pub Returns : {S : Type 0} → Run S → Type 0
Returns {S = S} r = (s : S) × (r ≡ running s)

bind-Returns :
    {S : Type 0} (r : Run S) (f : S → Run S)
    → Returns r
    → ((s : S) → Returns (f s))
    → Returns (r >>= f)
bind-Returns r f (s, e) k = let (t, e') = k s in (t, rw e e')

pub if-Returns :
    {S : Type 0} (b : Bool) {x y : Run S} → Returns x → Returns y → Returns (if b then x else y)
if-Returns true r q = r
if-Returns false r q = q

module _ {Q : Type 0} (os : MsgQueue Event Q) where
  lost-Returns : (b : Bus Q) (r : PostResult) → Returns (lost os false b r)
  unfolding lost
  lost-Returns b ok = (b, refl)
  lost-Returns b queue_full = (_, refl)
  lost-Returns b not_ready = (_, refl)

  pub send_event-Returns :
      (b : Bus Q) (p : PortList) (id address : ℕ) → Returns (send_event os false b p id address)
  unfolding send_event
  send_event-Returns b p id address =
      lost-Returns (try_send os b p id address).0 (try_send os b p id address).1

  on_bus-Returns : (c : Context Q) (r : Run (Bus Q)) → Returns r → Returns (on_bus c r)
  on_bus-Returns c r (b, e) = (record c { bus = b }, rw e refl)

  post_acquisition-Returns : (id : ℕ) (c : Context Q) → Returns (post_acquisition os false id c)
  unfolding post_acquisition
  post_acquisition-Returns id c = on_bus-Returns c _ (send_event-Returns c.bus _ id 0)

  post_comms-Returns : (id : ℕ) (c : Context Q) → Returns (post_comms os false id c)
  unfolding post_comms
  post_comms-Returns id c = on_bus-Returns c _ (send_event-Returns c.bus _ id 0)

  entry-Returns : (s : StateId) (c : Context Q) → Returns (entry os false s c)
  unfolding entry
  entry-Returns in_startup c =
      bind-Returns (post_acquisition os false _ c) _ (post_acquisition-Returns _ c)
        (λ d. post_comms-Returns _ d)
  entry-Returns in_listening c = post_comms-Returns _ c
  entry-Returns in_dispatching c = (c, refl)
  entry-Returns in_soft_error c = (_, refl)
  entry-Returns in_hard_error c =
      bind-Returns (post_acquisition os false _ _) _ (post_acquisition-Returns _ _)
        (λ d. post_comms-Returns _ d)

  exit-Returns : (s : StateId) (c : Context Q) → Returns (exit os false s c)
  unfolding exit
  exit-Returns in_soft_error c = (_, refl)
  exit-Returns _ c = (c, refl)

  transition_to-Returns :
      (id s : StateId) (a : App Q)
      → a.machine.current ≡ some s
      → Returns (transition_to os false id a)
  unfolding transition_to
  transition_to-Returns id s a h =
      let (c, e) = exit-Returns s a.context in
      let (d, e') = entry-Returns id c in
      (
        record {
          machine = record {
            current = some id;
            previous = a.machine.current;
            next = a.machine.next;
          };
          current_state_id = id;
          context = d;
        },
        ground arith,
      )

  rejoin-Returns :
      (a : App Q) (delay : ℕ)
      → a.machine.current ≡ some in_soft_error
      → Returns (
          transition_to os false in_listening
            (record a { context = record (a.context) { retry_delay_ms = delay } }))
  rejoin-Returns a delay h =
      transition_to-Returns in_listening in_soft_error
        (record a { context = record (a.context) { retry_delay_ms = delay } }) h

  with_context-Returns :
      (a : App Q) (r : Run (Context Q)) → Returns r → Returns (with_context os false a r)
  unfolding with_context
  with_context-Returns a r (c, e) = (record a { context = c }, rw (e, with_context) refl)

  state_event-Returns :
      (s : StateId) (id : ℕ) (a : App Q)
      → a.machine.current ≡ some s
      → Returns (state_event os false s id a)
  unfolding state_event startup_event listening_event dispatching_event soft_error_event
  state_event-Returns in_startup id a h =
      if-Returns _ (transition_to-Returns in_listening in_startup a h) (
        if-Returns _ (transition_to-Returns in_soft_error in_startup a h)
          (if-Returns _ (transition_to-Returns in_hard_error in_startup a h) (a, refl)))
  state_event-Returns in_listening id a h =
      if-Returns _ (transition_to-Returns in_dispatching in_listening a h) (
        if-Returns _ (transition_to-Returns in_soft_error in_listening a h)
          (if-Returns _ (transition_to-Returns in_hard_error in_listening a h) (a, refl)))
  state_event-Returns in_dispatching id a h =
      if-Returns _ (transition_to-Returns in_listening in_dispatching a h) (
        if-Returns _ (transition_to-Returns in_soft_error in_dispatching a h)
          (if-Returns _ (transition_to-Returns in_hard_error in_dispatching a h) (a, refl)))
  state_event-Returns in_soft_error id a h =
      if-Returns _ (with_context-Returns a _ (post_comms-Returns _ a.context)) (
        if-Returns _ (_, refl)
          (if-Returns _ (rejoin-Returns a _ h)
            (if-Returns _ (transition_to-Returns in_hard_error in_soft_error a h) (a, refl))))
  state_event-Returns in_hard_error id a h = (a, refl)

  pub dispatch_event-Returns :
      (alone : Bool) (id : ℕ) (a : App Q) → Inv alone a → Returns (dispatch_event os false id a)
  unfolding dispatch_event
  dispatch_event-Returns alone id a v =
      rw (v.badge, dispatch_event) (state_event-Returns a.current_state_id id a v.badge)

  run-Returns : (ids : List ℕ) (a : App Q) → Inv true a → Returns (run os false ids a)
  unfolding run
  run-Returns [] a v = (a, refl)
  run-Returns (id ∷ ids) a v =
      let (b, e) = dispatch_event-Returns true id a v in
      rw e (run-Returns ids b (dispatch_event-Inv os false true id a b v e))

  start-Returns : (a : App Q) → Returns (start os false a)
  unfolding start
  start-Returns a =
      let (c, e) = entry-Returns in_startup a.context in
      (
        record {
          machine = record { current = some in_startup; previous = some in_startup; next = none };
          current_state_id = in_startup;
          context = c;
        },
        ground arith,
      )

  -- On a release build the application, once started from power-on with its error light out, comes
  -- back from every sequence of events, in a state that satisfies the invariant.
  pub start-run-returns :
      (ids : List ℕ) (bus : Bus Q) (error_led : Led)
      → error_led.state ≡ false
      → (a a' : App Q) × (start os false (constructed bus error_led) ≡ running a)
        × (run os false ids a ≡ running a')
        × Inv true a'
  unfolding run
  start-run-returns ids bus error_led dark =
      let (a, s) = start-Returns (constructed bus error_led) in
      let v = start-run-Inv os false true [] bus error_led a a dark s refl in
      let (a', r) = run-Returns ids a v in (a, a', s, r, run-Inv os false true ids a a' v r)

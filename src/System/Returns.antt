-- ===== src/System/Returns.antt =====
-- No order of turns stops a release build, or breaks the invariant of the application.
use base_platform_zephyr_ble.Prelude.{
  ℕ, ◌≡◌, refl, ap, ◌∙◌, Bool, true, false, Option, none, some, List, [], ◌∷◌, ◌==◌, ◌||◌,
}
use base_platform_zephyr_ble.Config.{Config}
use base_platform_zephyr_ble.Eda.{
  Event, MsgQueue, Bus, Run, running, ◌>>=◌, app_port, comms_port, next_event,
}
use base_platform_zephyr_ble.Events.{
  comms_event_id, join_network, start_dispatch, stop_dispatch, dispatch_due, dispatch_now,
  app_event_id, network_joined, network_join_failed,
}
use base_platform_zephyr_ble.Link.{Link, no_error}
use base_platform_zephyr_ble.Comms.{
  Env, Node, join, enable, disable, dispatch_if_enabled, execute_event, set_bus,
}
use base_platform_zephyr_ble.App.{App}
use base_platform_zephyr_ble.App.Invariant.{Inv, dispatch_event-Inv}
use base_platform_zephyr_ble.App.Returns.{
  Returns, if-Returns, send_event-Returns, dispatch_event-Returns,
}
use base_platform_zephyr_ble.System.{
  System, Turn, retry_expires, dispatch_expires, app_turn, comms_turn, bus_of, with_bus, set_app,
  set_node, app_turns, comms_turns, on_retry_timer_expired, on_dispatch_timer_expired, step, run,
}

-- The invariant says nothing of the ports.
pub on_bus-Inv :
    {Q : Type 0} (alone : Bool) (a : App Q) (b : Bus Q)
    → Inv alone a
    → Inv alone (record a { context = record (a.context) { bus = b } })
on_bus-Inv alone a b v = record {
  badge = v.badge;
  no_next = v.no_next;
  delay_low = v.delay_low;
  delay_high = v.delay_high;
  one_shot = v.one_shot;
  retrying = v.retrying;
}

module _ {Q L : Type 0} (c : Config) (link : Link L) (os : MsgQueue Event Q) where
  join-Returns : (env : Env) (n : Node L Q) → Returns (join c link env os false n)
  unfolding join set_bus
  join-Returns env n =
      let (l, result) = link.connect n.world.link in
      let outcome : ℕ = elim result [
        | no_error ↦ app_event_id network_joined
        | _ ↦ app_event_id network_join_failed
      ] in
      let (b, sent) = send_event-Returns os n.bus app_port outcome 0 in
      (
        record { world = record (n.world) { link = l }; bus = b },
        ap (set_bus c link env os false (record (n.world) { link = l })) sent,
      )

  execute_event-Returns :
      (env : Env) (id : ℕ) (n : Node L Q) → Returns (execute_event c link env os false id n)
  unfolding execute_event
  execute_event-Returns env id n =
      if-Returns (id == comms_event_id join_network) (join-Returns env n) (
        if-Returns (id == comms_event_id start_dispatch)
          (record n { world = enable c link env os false n.world }, refl)
          (if-Returns (id == comms_event_id stop_dispatch)
            (record n { world = disable c link env os false n.world }, refl)
            (if-Returns ((id == comms_event_id dispatch_due) || (id == comms_event_id dispatch_now))
              (record n { world = dispatch_if_enabled c link env os false n.world }, refl)
              (n, refl))))

  -- The application of a system keeps its invariant through a turn.
  abbrev pub Keeps : Bool → System Q L → Run (System Q L) → Type 0
  Keeps alone s r = (s' : System Q L) × (r ≡ running s') × Inv alone s'.app

  app_turns-Keeps :
      (alone : Bool) (front : Option (Event × Bus Q)) (s : System Q L)
      → Inv alone s.app
      → Keeps alone s (app_turns c link os false front s)
  unfolding app_turns
  app_turns-Keeps alone none s v = (s, refl, v)
  app_turns-Keeps alone (some (e, b)) s v =
      let a : App Q = (with_bus s b).app in
      let v' : Inv alone a = on_bus-Inv alone s.app b v in
      let (a', done) = dispatch_event-Returns os alone e.event_id a v' in
      (
        record s { app = a' },
        ap (set_app s) done,
        dispatch_event-Inv os false alone e.event_id a a' v' done,
      )

  comms_turns-Keeps :
      (alone : Bool) (env : Env) (front : Option (Event × Bus Q)) (s : System Q L)
      → Inv alone s.app
      → Keeps alone s (comms_turns c link os false env front s)
  unfolding comms_turns
  comms_turns-Keeps alone env none s v = (s, refl, v)
  comms_turns-Keeps alone env (some (e, b)) s v =
      let (n, done) = execute_event-Returns env e.event_id (record { world = s.world; bus = b }) in
      (
        record (with_bus s n.bus) { world = n.world },
        ap (set_node s) done,
        on_bus-Inv alone s.app n.bus v,
      )

  pub step-Keeps :
      (alone : Bool) (t : Turn) (s : System Q L)
      → Inv alone s.app
      → Keeps alone s (step c link os false t s)
  unfolding step on_retry_timer_expired on_dispatch_timer_expired
  step-Keeps alone retry_expires s v =
      (on_retry_timer_expired c link os false s, refl, on_bus-Inv alone s.app _ v)
  step-Keeps alone dispatch_expires s v =
      (on_dispatch_timer_expired c link os false s, refl, on_bus-Inv alone s.app _ v)
  step-Keeps alone app_turn s v = app_turns-Keeps alone (next_event os (bus_of s) app_port) s v
  step-Keeps alone (comms_turn env) s v =
      comms_turns-Keeps alone env (next_event os (bus_of s) comms_port) s v

  -- On a release build, from an application that holds its invariant: whatever the order in which
  -- the timers expire and the two threads run, the run comes back, and the state that the machine
  -- is in is the one it says, the backoff is within its limits, and the retry timer and the error
  -- light agree with the state.
  pub run-Keeps :
      (turns : List Turn) (s : System Q L)
      → Inv true s.app
      → (s' : System Q L) × (run c link os false turns s ≡ running s') × Inv true s'.app
  unfolding run
  run-Keeps [] s v = (s, refl, v)
  run-Keeps (t ∷ turns) s v =
      let (s', done, v') = step-Keeps true t s v in
      let (s'', rest, v'') = run-Keeps turns s' v' in
      (s'', ap (λ r. r >>= run c link os false turns) done ∙ rest, v'')

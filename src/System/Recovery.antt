-- ===== src/System/Recovery.antt =====
-- The way back from an outage: what a retry that succeeds leads to, through both threads.
use mathlib.Core.Path.{subst}
use base_platform_zephyr_ble.Prelude.{
  ◌≡◌, refl, sym, ap, ◌∙◌, Bool, true, some, List, [], ◌∷◌, arith,
}
use base_platform_zephyr_ble.Config.{Config}
use base_platform_zephyr_ble.Eda.{
  Event, MsgQueue, Bus, running, app_port, comms_port, event, next_event, send_event,
  send_event_from_isr,
}
use base_platform_zephyr_ble.Eda.Timer.{start, stop, stopped}
use base_platform_zephyr_ble.Events.{
  app_event_id, retry_timeout, network_joined, comms_event_id, join_network, start_dispatch,
}
use base_platform_zephyr_ble.Hal.Led.{turn_off}
use base_platform_zephyr_ble.Link.{Link, no_error}
use base_platform_zephyr_ble.Comms.{World, Env, Node, join, enable}
use base_platform_zephyr_ble.Comms
use base_platform_zephyr_ble.App.{
  App, in_soft_error, in_listening, soft_error_retry_ms, dispatch_event, transition_to, entry, exit,
}
use base_platform_zephyr_ble.System.{
  System, Turn, retry_expires, app_turn, comms_turn, bus_of, with_bus, set_app, set_node, app_turns,
  comms_turns, on_retry_timer_expired, step, run,
}
use base_platform_zephyr_ble.System.Passing.{Idle, pass, keep-Idle}

module _ {Q : Type 0} (os : MsgQueue Event Q) where
  -- The application's answer to the retry timer in SOFT_ERROR.
  retried :
      (debug : Bool) (a : App Q) (b b' : Bus Q)
      → a.machine.current ≡ some in_soft_error
      → send_event os debug b comms_port (comms_event_id join_network) 0 ≡ running b'
      → dispatch_event os debug
          (app_event_id retry_timeout)
          (record a { context = record (a.context) { bus = b } })
        ≡ running (record a { context = record (a.context) { bus = b' } })
  unfolding dispatch_event
  retried debug a b b' c sent = simp (c, sent)

  -- The application in LISTENING again, on the bus `b`.
  listening : App Q → Bus Q → App Q
  listening a b = record {
    machine = record {
      current = some in_listening;
      previous = some in_soft_error;
      next = a.machine.next;
    };
    current_state_id = in_listening;
    context = record {
      bus = b;
      retry_delay_ms = soft_error_retry_ms;
      retry_timer = stop a.context.retry_timer;
      error_led = turn_off a.context.error_led;
    };
  }

  rejoined :
      (debug : Bool) (a : App Q) (b b' : Bus Q)
      → a.machine.current ≡ some in_soft_error
      → send_event os debug b comms_port (comms_event_id start_dispatch) 0 ≡ running b'
      → dispatch_event os debug
          (app_event_id network_joined)
          (record a { context = record (a.context) { bus = b } })
        ≡ running (listening a b')
  unfolding dispatch_event transition_to entry exit listening
  rejoined debug a b b' c sent =
      subst
        (λ current.
          dispatch_event os debug (app_event_id network_joined) (record a {
            machine = record (a.machine) { current = current };
            context = record (a.context) { bus = b };
          })
          ≡ running (listening a b'))
        (sym c) (rw sent refl)

module _ {Q L : Type 0} (c : Config) (link : Link L) (os : MsgQueue Event Q) (debug : Bool) where
  joined :
      (env : Env) (w : World L) (b b' : Bus Q)
      → (link.connect w.link).1 ≡ no_error
      → send_event os debug b app_port (app_event_id network_joined) 0 ≡ running b'
      → base_platform_zephyr_ble.Comms.execute_event c link env os debug
          (comms_event_id join_network)
          (record { world = w; bus = b })
        ≡ running (record { world = record w { link = (link.connect w.link).0 }; bus = b' })
  unfolding base_platform_zephyr_ble.Comms.execute_event join
  joined env w b b' e sent = simp (e, sent)

  enables :
      (env : Env) (w : World L) (b : Bus Q)
      → base_platform_zephyr_ble.Comms.execute_event c link env os debug
          (comms_event_id start_dispatch)
          (record { world = w; bus = b })
        ≡ running (record { world = enable c link env os debug w; bus = b })
  unfolding base_platform_zephyr_ble.Comms.execute_event
  enables env w b = refl

  retry_step :
      (s : System Q L) (b : Bus Q)
      → send_event_from_isr os (bus_of s) app_port (app_event_id retry_timeout) 0 ≡ b
      → step c link os debug retry_expires s ≡ running (with_bus s b)
  unfolding step on_retry_timer_expired
  retry_step s b sent = ap (λ b'. running (with_bus s b')) sent

  pub run-step :
      (t : Turn) (ts : List Turn) (s s' : System Q L)
      → step c link os debug t s ≡ running s'
      → run c link os debug (t ∷ ts) s ≡ run c link os debug ts s'
  unfolding run
  run-step t ts s s' e = rw e refl

  -- A turn of the application, on the event that its queue has in front.
  app_step :
      (s : System Q L) (e : Event) (b : Bus Q) (a : App Q)
      → next_event os (bus_of s) app_port ≡ some (e, b)
      → dispatch_event os debug e.event_id (with_bus s b).app ≡ running a
      → step c link os debug app_turn s ≡ running (record s { app = a })
  unfolding step app_turns
  app_step s e b a front done = ap (λ o. app_turns c link os debug o s) front ∙ ap (set_app s) done

  pub comms_step :
      (env : Env) (s : System Q L) (e : Event) (b b' : Bus Q) (w : World L)
      → next_event os (bus_of s) comms_port ≡ some (e, b)
      → base_platform_zephyr_ble.Comms.execute_event c link env os debug e.event_id
          (record { world = s.world; bus = b })
        ≡ running (record { world = w; bus = b' })
      → step c link os debug (comms_turn env) s ≡ running (record (with_bus s b') { world = w })
  unfolding step comms_turns
  comms_step env s e b b' w front done =
      ap (λ o. comms_turns c link os debug env o s) front ∙ ap (set_node s) done

  -- What a recovery reaches.
  pub record Recovered (s s' : System Q L) : Type 0 where
    pub state : s'.app.machine.current ≡ some in_listening
    pub delay : s'.app.context.retry_delay_ms ≡ soft_error_retry_ms
    pub timer : s'.app.context.retry_timer.last_call ≡ stopped
    pub led : s'.app.context.error_led ≡ turn_off s.app.context.error_led
    pub enabled : s'.world.comms.dispatch_enabled ≡ true
    pub dispatching : s'.world.comms.dispatch_timer ≡ start s.world.comms.dispatch_timer
    pub linked : s'.world.link ≡ (link.connect s.world.link).0
    pub fault : (bus_of s').fault ≡ (bus_of s).fault
    pub app_idle : Idle os (bus_of s') app_port
    pub comms_idle : Idle os (bus_of s') comms_port

  -- From SOFT_ERROR, with nothing waiting at the application and the uplink and a transport that
  -- connects: once the retry timer has expired, two turns of each thread bring the device back to
  -- LISTENING, with the backoff reset, its timer stopped, the error light off, dispatching enabled
  -- and its timer running, nothing left in the two queues and no fault added.
  pub run-Recovered :
      (s : System Q L) (env env' : Env)
      → s.app.machine.current ≡ some in_soft_error
      → Idle os (bus_of s) app_port
      → Idle os (bus_of s) comms_port
      → (link.connect s.world.link).1 ≡ no_error
      → (s' : System Q L) × (run c link os debug
            (retry_expires ∷ app_turn ∷ comms_turn env ∷ app_turn ∷ comms_turn env' ∷ [])
            s
          ≡ running s')
        × Recovered s s'
  unfolding run listening enable
  run-Recovered s env env' soft idle_app idle_comms connects =
      let p1 = pass os debug (bus_of s) app_port (app_event_id retry_timeout) idle_app in
      let p2 = pass os debug p1.after comms_port (comms_event_id join_network) (
        keep-Idle os (bus_of s) p1.after comms_port (p1.others comms_port (omega arith))
          idle_comms) in
      let p3 =
        pass os debug p2.after app_port (app_event_id network_joined)
          (keep-Idle os p1.after p2.after app_port (p2.others app_port (omega arith)) p1.idle) in
      let p4 =
        pass os debug p3.after comms_port (comms_event_id start_dispatch) (
          keep-Idle os p2.after p3.after comms_port (p3.others comms_port (omega arith)) p2.idle) in
      let w : World L = record (s.world) { link = (link.connect s.world.link).0 } in
      let s1 : System Q L = with_bus s p1.sent in
      let s2 : System Q L = with_bus s p2.sent in
      let s3 : System Q L = record (with_bus s p3.sent) { world = w } in
      let s4 : System Q L = record { app = listening os s.app p4.sent; world = w } in
      let s5 : System Q L = record {
        app = listening os s.app p4.after;
        world = enable c link env' os debug w;
      } in
      (
        s5,
        run-step retry_expires (app_turn ∷ comms_turn env ∷ app_turn ∷ comms_turn env' ∷ []) s s1
              (retry_step s p1.sent p1.from_isr)
            ∙ run-step app_turn (comms_turn env ∷ app_turn ∷ comms_turn env' ∷ []) s1 s2 (
                app_step s1 (event app_port (app_event_id retry_timeout) 0) p1.after s2.app p1.taken
                  (retried os debug s.app p1.after p2.sent soft p2.posted))
            ∙ run-step (comms_turn env) (app_turn ∷ comms_turn env' ∷ []) s2 s3 (
                comms_step env s2 (event comms_port (comms_event_id join_network) 0) p2.after
                  p3.sent w p2.taken (joined env s.world p2.after p3.sent connects p3.posted))
            ∙ run-step app_turn (comms_turn env' ∷ []) s3 s4 (
                app_step s3 (event app_port (app_event_id network_joined) 0) p3.after s4.app
                  p3.taken (rejoined os debug s.app p3.after p4.sent soft p4.posted))
            ∙ run-step (comms_turn env') [] s4 s5 (
                comms_step env' s4 (event comms_port (comms_event_id start_dispatch) 0) p4.after
                  p4.after s5.world p4.taken (enables env' w p4.after)),
        record {
          state = refl;
          delay = refl;
          timer = refl;
          led = refl;
          enabled = refl;
          dispatching = refl;
          linked = refl;
          fault = p4.fault ∙ p3.fault ∙ p2.fault ∙ p1.fault;
          app_idle =
              keep-Idle os p3.after p4.after app_port (p4.others app_port (omega arith)) p3.idle;
          comms_idle = p4.idle;
        },
      )

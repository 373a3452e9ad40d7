-- ===== src/Concentrator/Order/Latched.antt =====
-- A fault that is latched stays, with its reason, through a turn of the application, of the uplink
-- or of one of their timers.
use mathlib.Core.Path.{subst}
use base_platform_zephyr_ble.Prelude.{
  ℕ, ◌≡◌, refl, ◌∙◌, Bool, true, false, Option, none, some, ◌==◌, ◌||◌, if-keeps, arith,
}
use base_platform_zephyr_ble.Config.{Config}
use base_platform_zephyr_ble.Fault.{Fault}
use base_platform_zephyr_ble.Eda.{
  Event, MsgQueue, Bus, Run, running, halted, state, PortList, app_port, comms_port, next_event,
  send_event_from_isr,
}
use base_platform_zephyr_ble.Events.{
  comms_event_id, join_network, start_dispatch, stop_dispatch, dispatch_due, dispatch_now,
}
use base_platform_zephyr_ble.Link.{Link}
use base_platform_zephyr_ble.Comms.{World, Env, Node, join, execute_event, set_bus}
use base_platform_zephyr_ble.App.{App, dispatch_event}
use base_platform_zephyr_ble.App.Latch.{try_send-fault, send_event-latched, dispatch_event-held}
use base_platform_zephyr_ble.System.{
  System, Turn, retry_expires, dispatch_expires, app_turn, comms_turn, bus_of, with_bus, set_app,
  set_node, app_turns, comms_turns, on_retry_timer_expired, on_dispatch_timer_expired, step,
}

module _ {Q : Type 0} (os : MsgQueue Event Q) where
  pub send_event_from_isr-fault :
      (b : Bus Q) (p : PortList) (id address : ℕ)
      → (send_event_from_isr os b p id address).fault ≡ b.fault
  unfolding send_event_from_isr
  send_event_from_isr-fault b p id address =
      try_send-fault os false (record { active = true; reason = b.fault.reason }) refl b p id
        address

  -- Taking an event leaves the latch alone.
  abbrev pub FrontKeeps : Fault → Option (Event × Bus Q) → Type 0
  FrontKeeps f none = Unit {0}
  FrontKeeps f (some (e, b)) = b.fault ≡ f

  pub next_event-fault : (b : Bus Q) (p : PortList) → FrontKeeps b.fault (next_event os b p)
  unfolding next_event
  next_event-fault b p = ground arith

module _ {Q L : Type 0} (c : Config) (link : Link L) (os : MsgQueue Event Q) (debug : Bool)
    (f : Fault) (on : f.active ≡ true) where
  NodeHeld : Run (Node L Q) → Type 0
  NodeHeld r = (state r).bus.fault ≡ f

  set_bus-held :
      (env : Env) (w : World L) (r : Run (Bus Q))
      → (state r).fault ≡ f
      → NodeHeld (set_bus c link env os debug w r)
  unfolding set_bus NodeHeld
  set_bus-held env w (running b) h = h
  set_bus-held env w (halted b) h = h

  node_stays : (n : Node L Q) → n.bus.fault ≡ f → NodeHeld (running n)
  unfolding NodeHeld
  node_stays n h = h

  join-held : (env : Env) (n : Node L Q) → n.bus.fault ≡ f → NodeHeld (join c link env os debug n)
  unfolding join
  join-held env n h = set_bus-held env _ _ (send_event-latched os debug f on n.bus app_port _ 0 h)

  execute_event-held :
      (env : Env) (id : ℕ) (n : Node L Q)
      → n.bus.fault ≡ f
      → NodeHeld (execute_event c link env os debug id n)
  unfolding execute_event
  execute_event-held env id n h =
      if-keeps NodeHeld (id == comms_event_id join_network) (join-held env n h) (
        if-keeps NodeHeld (id == comms_event_id start_dispatch) (node_stays _ h) (
          if-keeps NodeHeld (id == comms_event_id stop_dispatch) (node_stays _ h) (
            if-keeps NodeHeld
              ((id == comms_event_id dispatch_due) || (id == comms_event_id dispatch_now))
              (node_stays _ h) (node_stays n h))))

  SystemHeld : Run (System Q L) → Type 0
  SystemHeld r = (bus_of (state r)).fault ≡ f

  set_app-held :
      (s : System Q L) (r : Run (App Q))
      → (state r).context.bus.fault ≡ f
      → SystemHeld (set_app s r)
  unfolding SystemHeld
  set_app-held s (running a) h = h
  set_app-held s (halted a) h = h

  set_node-held : (s : System Q L) (r : Run (Node L Q)) → NodeHeld r → SystemHeld (set_node s r)
  unfolding SystemHeld NodeHeld
  set_node-held s (running n) h = h
  set_node-held s (halted n) h = h

  app_turns-held :
      (front : Option (Event × Bus Q)) (s : System Q L)
      → (bus_of s).fault ≡ f
      → FrontKeeps os f front
      → SystemHeld (app_turns c link os debug front s)
  unfolding app_turns SystemHeld
  app_turns-held none s h k = h
  app_turns-held (some (e, b)) s h k =
      set_app-held s (dispatch_event os debug e.event_id (with_bus s b).app)
        (dispatch_event-held os debug f on e.event_id (with_bus s b).app k)

  comms_turns-held :
      (env : Env) (front : Option (Event × Bus Q)) (s : System Q L)
      → (bus_of s).fault ≡ f
      → FrontKeeps os f front
      → SystemHeld (comms_turns c link os debug env front s)
  unfolding comms_turns SystemHeld
  comms_turns-held env none s h k = h
  comms_turns-held env (some (e, b)) s h k =
      set_node-held s _ (execute_event-held env e.event_id (record { world = s.world; bus = b }) k)

  -- A fault that is latched before a turn is latched after it, with the same reason.
  pub step-held :
      (t : Turn) (s : System Q L)
      → (bus_of s).fault ≡ f
      → (bus_of (state (step c link os debug t s))).fault ≡ f
  unfolding step SystemHeld on_retry_timer_expired on_dispatch_timer_expired
  step-held retry_expires s h = send_event_from_isr-fault os (bus_of s) app_port _ 0 ∙ h
  step-held dispatch_expires s h = send_event_from_isr-fault os (bus_of s) comms_port _ 0 ∙ h
  step-held app_turn s h = app_turns-held (next_event os (bus_of s) app_port) s h (
      subst (λ g. FrontKeeps os g (next_event os (bus_of s) app_port)) h
        (next_event-fault os (bus_of s) app_port))
  step-held (comms_turn env) s h = comms_turns-held env (next_event os (bus_of s) comms_port) s h (
      subst (λ g. FrontKeeps os g (next_event os (bus_of s) comms_port)) h
        (next_event-fault os (bus_of s) comms_port))

-- ===== src/Concentrator/Order/World.antt =====
-- A turn of the application, of the uplink or of one of their timers keeps the world of the uplink:
-- the table well formed, and everything within its width.
use base_platform_zephyr_ble.Eda.Timer.{Timer, start, stop}
use base_platform_zephyr_ble.Prelude.{
  ℕ, ◌<◌, Bool, true, false, Option, none, some, ◌==◌, ◌||◌, if-keeps,
}
use base_platform_zephyr_ble.Config.{Config}
use base_platform_zephyr_ble.DeviceTable.Upsert
use base_platform_zephyr_ble.Eda.{
  Event, MsgQueue, Bus, Run, running, halted, state, app_port, comms_port, next_event,
}
use base_platform_zephyr_ble.Events.{
  comms_event_id, join_network, start_dispatch, stop_dispatch, dispatch_due, dispatch_now,
}
use base_platform_zephyr_ble.Link.{Link}
use base_platform_zephyr_ble.Comms.{
  World, Env, Node, join, enable, disable, dispatch, dispatch_if_enabled, execute_event, set_bus,
}
use base_platform_zephyr_ble.Comms.Delivered.{dispatch-Inv}
use base_platform_zephyr_ble.Comms.Widths.{WorldFits, AllAddressed-fits, dispatch-WorldFits}
use base_platform_zephyr_ble.App.{App}
use base_platform_zephyr_ble.System.{
  System, Turn, retry_expires, dispatch_expires, app_turn, comms_turn, bus_of, set_app, set_node,
  app_turns, comms_turns, on_retry_timer_expired, on_dispatch_timer_expired, step,
}
use base_platform_zephyr_ble.Concentrator.{core_turn}
use base_platform_zephyr_ble.Concentrator.Environment.{
  Bytewise, Surroundings, Surroundings-EnvFits, Surroundings-Inv, Allowed,
}

-- What holds of the uplink's world: a well-formed table, and everything within its width.
pub record WorldSound {L : Type 0} (c : Config) (w : World L) : Type 0 where
  pub table : Upsert.Inv c w.table
  pub widths : WorldFits w

module _ {Q L : Type 0} (c : Config) (link : Link L) (os : MsgQueue Event Q) (debug : Bool)
    (room : 0 < c.max_devices) (small : Bytewise link) where
  dispatch-WorldSound :
      (env : Env) (w : World L)
      → Surroundings c env
      → WorldSound c w
      → WorldSound c (dispatch c link env w)
  dispatch-WorldSound env w s v = record {
    table =
        dispatch-Inv c link env w
          (record {
            available = small.available w.link;
            uplinks = small.uplinks w.link;
            addressed = AllAddressed-fits w.table.entries v.widths.table.entries;
          })
          (Surroundings-Inv c env room s) v.table;
    widths = dispatch-WorldFits c link env w (Surroundings-EnvFits c env s) v.widths;
  }

  -- A change of the uplink's statics that the invariant says nothing of.
  beside-WorldSound :
      (w : World L) (enabled : Bool) (timer : Timer) (l : L)
      → WorldSound c w
      → WorldSound c (record w {
        link = l;
        comms = record (w.comms) { dispatch_enabled = enabled; dispatch_timer = timer };
      })
  beside-WorldSound w enabled timer l v = record {
    table = v.table;
    widths = record {
      table = v.widths.table;
      sequence = v.widths.sequence;
      last_uplink_uptime_s = v.widths.last_uplink_uptime_s;
      offered = v.widths.offered;
    };
  }

  NodeSound : Run (Node L Q) → Type 0
  NodeSound r = WorldSound c (state r).world

  set_bus-NodeSound :
      (env : Env) (w : World L) (r : Run (Bus Q))
      → WorldSound c w
      → NodeSound (set_bus c link env os debug w r)
  unfolding set_bus NodeSound
  set_bus-NodeSound env w (running b) v = v
  set_bus-NodeSound env w (halted b) v = v

  execute_event-NodeSound :
      (env : Env) (id : ℕ) (n : Node L Q)
      → Surroundings c env
      → WorldSound c n.world
      → NodeSound (execute_event c link env os debug id n)
  unfolding execute_event join enable disable dispatch_if_enabled NodeSound
  execute_event-NodeSound env id n s v =
      let w : World L = n.world in
      let d = w.comms.dispatch_enabled in
      if-keeps NodeSound (id == comms_event_id join_network)
        (set_bus-NodeSound env _ _
          (beside-WorldSound w d w.comms.dispatch_timer (link.connect w.link).0 v))
        (if-keeps NodeSound (id == comms_event_id start_dispatch)
          (beside-WorldSound w true (start w.comms.dispatch_timer) w.link v)
          (if-keeps NodeSound (id == comms_event_id stop_dispatch)
            (beside-WorldSound w false (stop w.comms.dispatch_timer) w.link v)
            (if-keeps NodeSound
              ((id == comms_event_id dispatch_due) || (id == comms_event_id dispatch_now))
              (if-keeps (WorldSound c) d (dispatch-WorldSound env w s v) v) v)))

  SystemSound : Run (System Q L) → Type 0
  SystemSound r = WorldSound c (state r).world

  set_app-SystemSound :
      (s : System Q L) (r : Run (App Q)) → WorldSound c s.world → SystemSound (set_app s r)
  unfolding SystemSound
  set_app-SystemSound s (running a) v = v
  set_app-SystemSound s (halted a) v = v

  set_node-SystemSound :
      (s : System Q L) (r : Run (Node L Q)) → NodeSound r → SystemSound (set_node s r)
  unfolding SystemSound NodeSound
  set_node-SystemSound s (running n) v = v
  set_node-SystemSound s (halted n) v = v

  app_turns-SystemSound :
      (front : Option (Event × Bus Q)) (s : System Q L)
      → WorldSound c s.world
      → SystemSound (app_turns c link os debug front s)
  unfolding app_turns SystemSound
  app_turns-SystemSound none s v = v
  app_turns-SystemSound (some (e, b)) s v = set_app-SystemSound s _ v

  comms_turns-SystemSound :
      (env : Env) (front : Option (Event × Bus Q)) (s : System Q L)
      → Surroundings c env
      → WorldSound c s.world
      → SystemSound (comms_turns c link os debug env front s)
  unfolding comms_turns SystemSound
  comms_turns-SystemSound env none s a v = v
  comms_turns-SystemSound env (some (e, b)) s a v =
      set_node-SystemSound s _
        (execute_event-NodeSound env e.event_id (record { world = s.world; bus = b }) a v)

  -- A turn keeps the world of the uplink sound.
  pub step-WorldSound :
      (t : Turn) (s : System Q L)
      → Allowed c (core_turn t)
      → WorldSound c s.world
      → WorldSound c (state (step c link os debug t s)).world
  unfolding step SystemSound on_retry_timer_expired on_dispatch_timer_expired
  step-WorldSound retry_expires s a v = v
  step-WorldSound dispatch_expires s a v = v
  step-WorldSound app_turn s a v = app_turns-SystemSound (next_event os (bus_of s) app_port) s v
  step-WorldSound (comms_turn env) s a v =
      comms_turns-SystemSound env (next_event os (bus_of s) comms_port) s a v

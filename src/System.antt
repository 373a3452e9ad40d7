-- ===== src/System.antt =====
-- The application's thread and the uplink's, over the ports that they share: who runs next is a
-- sequence of turns. A turn of a thread is one round of `ActiveObject::process_events` of
-- src/eda/active_object/active_object.cpp; the two timers post from their callbacks.
pub mod Passing
pub mod Recovery
pub mod Returns
use base_platform_zephyr_ble.Prelude.{ℕ, Bool, Option, none, some, List, [], ◌∷◌}
use base_platform_zephyr_ble.Config.{Config}
use base_platform_zephyr_ble.Eda.{
  Event, MsgQueue, Bus, Run, running, halted, ◌>>=◌, PortList, app_port, comms_port, next_event,
  send_event_from_isr,
}
use base_platform_zephyr_ble.Events.{app_event_id, retry_timeout, comms_event_id, dispatch_due}
use base_platform_zephyr_ble.Link.{Link}
use base_platform_zephyr_ble.Comms.{World, Env, Node}
use base_platform_zephyr_ble.Comms
use base_platform_zephyr_ble.App.{App, dispatch_event}

pub record System (Q L : Type 0) : Type 0 where
  pub app : App Q
  pub world : World L

-- Who runs: a timer's callback, or a thread; the uplink's with what its environment shows it.
pub data Turn : Type 0 where
  retry_expires dispatch_expires app_turn : Turn
  comms_turn : Env → Turn

module _ {Q L : Type 0} where
  abbrev pub bus_of : System Q L → Bus Q
  bus_of s = s.app.context.bus

  abbrev pub with_bus : System Q L → Bus Q → System Q L
  with_bus s b = record s { app = record (s.app) { context = record (s.app.context) { bus = b } } }

  abbrev pub set_app : System Q L → Run (App Q) → Run (System Q L)
  set_app s (running a) = running (record s { app = a })
  set_app s (halted a) = halted (record s { app = a })

  abbrev pub set_node : System Q L → Run (Node L Q) → Run (System Q L)
  set_node s (running n) = running (record (with_bus s n.bus) { world = n.world })
  set_node s (halted n) = halted (record (with_bus s n.bus) { world = n.world })

module _ {Q L : Type 0} (c : Config) (link : Link L) (os : MsgQueue Event Q) (debug : Bool) where
  -- `on_retry_timer_expired` of soft_error.cpp.
  unfoldable pub on_retry_timer_expired : System Q L → System Q L
  on_retry_timer_expired s =
      with_bus s (send_event_from_isr os (bus_of s) app_port (app_event_id retry_timeout) 0)

  -- `on_dispatch_timer_expired` of comms/subsystem.cpp.
  unfoldable pub on_dispatch_timer_expired : System Q L → System Q L
  on_dispatch_timer_expired s =
      with_bus s (send_event_from_isr os (bus_of s) comms_port (comms_event_id dispatch_due) 0)

  -- A thread with an empty queue waits.
  unfoldable pub app_turns : Option (Event × Bus Q) → System Q L → Run (System Q L)
  app_turns none s = running s
  app_turns (some (e, b)) s = set_app s (dispatch_event os debug e.event_id (with_bus s b).app)

  unfoldable pub comms_turns : Env → Option (Event × Bus Q) → System Q L → Run (System Q L)
  comms_turns env none s = running s
  comms_turns env (some (e, b)) s = set_node s (
      base_platform_zephyr_ble.Comms.execute_event c link env os debug e.event_id
        (record { world = s.world; bus = b }))

  unfoldable pub step : Turn → System Q L → Run (System Q L)
  unfolding on_retry_timer_expired on_dispatch_timer_expired app_turns comms_turns
  step retry_expires s = running (on_retry_timer_expired s)
  step dispatch_expires s = running (on_dispatch_timer_expired s)
  step app_turn s = app_turns (next_event os (bus_of s) app_port) s
  step (comms_turn env) s = comms_turns env (next_event os (bus_of s) comms_port) s

  unfoldable pub run : List Turn → System Q L → Run (System Q L)
  unfolding step
  run [] s = running s
  run (t ∷ ts) s = step t s >>= run ts

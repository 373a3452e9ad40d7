-- ===== src/App.antt =====
-- src/app/state_machine and src/app/port.cpp: the lifecycle of the device. The machine is the
-- generic one of `Eda.Machine`, its states are the five of `StateId`, and the actions of a state
-- act on the context: the ports it posts to, the retry timer and the error light.
pub mod Backoff
pub mod Transitions
pub mod Invariant
pub mod Returns
pub mod Latch
pub mod BringUp
use base_platform_zephyr_ble.Prelude.{
  ℕ, ◌*◌, ◌/◌, ◌%◌, ◌^◌, ◌≡◌, refl, Bool, true, false, Option, none, some, List, [], ◌∷◌, ltb, ◌==◌,
  if◌then◌else◌,
}
use base_platform_zephyr_ble.Fault.{report, unrecoverable}
use base_platform_zephyr_ble.Eda.{
  Event, MsgQueue, Bus, Run, running, halted, ◌>>=◌, send_event, acquisition_port, comms_port,
}
use base_platform_zephyr_ble.Eda.Machine.{Machine, machine, set_next_state, init, change_state}
use base_platform_zephyr_ble.Eda.Timer.{Timer, timer, start_with, stop}
use base_platform_zephyr_ble.Hal.Led.{Led, turn_on, turn_off}
use base_platform_zephyr_ble.Events.{
  AppEvent, app_event_id, services_failed, network_joined, network_join_failed, dispatch_started,
  dispatch_finished, soft_error, hard_error, retry_timeout, acquisition_event_id, start_scan,
  stop_scan, comms_event_id, join_network, start_dispatch, stop_dispatch,
}

pub data StateId : Type 0 where
  in_startup in_listening in_dispatching in_soft_error in_hard_error : StateId

abbrev pub soft_error_retry_ms : ℕ
soft_error_retry_ms = 30 * 1000

abbrev pub soft_error_retry_max_ms : ℕ
soft_error_retry_max_ms = 15 * 60 * 1000

-- The delay that follows a wait of `delay`; the product is a uint32_t.
abbrev pub next_delay : ℕ → ℕ
next_delay delay =
    if ltb (soft_error_retry_max_ms / 2) delay then soft_error_retry_max_ms else delay * 2 % 2 ^ 32

pub record Context (Q : Type 0) : Type 0 where
  pub bus : Bus Q
  pub retry_delay_ms : ℕ
  pub retry_timer : Timer
  pub error_led : Led

pub record App (Q : Type 0) : Type 0 where
  pub machine : Machine StateId
  pub current_state_id : StateId
  pub context : Context Q

module _ {Q : Type 0} where
  -- The statics of soft_error.cpp and state_machine.cpp before anything has run.
  abbrev pub constructed : Bus Q → Led → App Q
  constructed bus error_led = record {
    machine = machine none;
    current_state_id = in_startup;
    context = record {
      bus = bus;
      retry_delay_ms = soft_error_retry_ms;
      retry_timer = timer soft_error_retry_ms false;
      error_led = error_led;
    };
  }

  unfoldable pub schedule_retry : Context Q → Context Q
  schedule_retry c = record c {
    retry_timer = start_with c.retry_delay_ms c.retry_timer;
    retry_delay_ms = next_delay c.retry_delay_ms;
  }

  abbrev pub on_bus : Context Q → Run (Bus Q) → Run (Context Q)
  on_bus c (running b) = running (record c { bus = b })
  on_bus c (halted b) = halted (record c { bus = b })

  abbrev pub with_parts : App Q → StateId → Run (Machine StateId × Context Q) → Run (App Q)
  with_parts a id (running (m, c)) =
      running (record { machine = m; current_state_id = id; context = c })
  with_parts a id (halted (m, c)) =
      halted (record { machine = m; current_state_id = a.current_state_id; context = c })

module _ {Q : Type 0} (os : MsgQueue Event Q) (debug : Bool) where
  post_acquisition : ℕ → Context Q → Run (Context Q)
  post_acquisition id c = on_bus c (send_event os debug c.bus acquisition_port id 0)

  post_comms : ℕ → Context Q → Run (Context Q)
  post_comms id c = on_bus c (send_event os debug c.bus comms_port id 0)

  -- The entry actions of the five states.
  unfoldable pub entry : StateId → Context Q → Run (Context Q)
  unfolding post_acquisition post_comms schedule_retry
  entry in_startup c =
      post_acquisition (acquisition_event_id start_scan) c
      >>= post_comms (comms_event_id join_network)
  entry in_listening c = post_comms (comms_event_id start_dispatch) c
  entry in_dispatching c = running c
  entry in_soft_error c = running (schedule_retry (record c { error_led = turn_on c.error_led }))
  entry in_hard_error c =
      post_acquisition (acquisition_event_id stop_scan)
        (record c { bus = record (c.bus) { fault = report unrecoverable c.bus.fault } })
      >>= post_comms (comms_event_id stop_dispatch)

  -- The exit actions; only SOFT_ERROR has one that does something.
  unfoldable pub exit : StateId → Context Q → Run (Context Q)
  exit in_startup c = running c
  exit in_listening c = running c
  exit in_dispatching c = running c
  exit in_soft_error c =
      running (record c { retry_timer = stop c.retry_timer; error_led = turn_off c.error_led })
  exit in_hard_error c = running c

  -- `init_action` and then the initial transition of `eda::StateMachine::init`.
  unfoldable pub start : App Q → Run (App Q)
  unfolding entry exit
  start a =
      with_parts (record a { current_state_id = in_startup }) in_startup
        (init entry exit (set_next_state (some in_startup) a.machine, a.context))

  unfoldable pub transition_to : StateId → App Q → Run (App Q)
  unfolding entry exit
  transition_to id a = with_parts a id (change_state entry exit id (a.machine, a.context))

  with_context : App Q → Run (Context Q) → Run (App Q)
  with_context a (running c) = running (record a { context = c })
  with_context a (halted c) = halted (record a { context = c })

  startup_event : ℕ → App Q → Run (App Q)
  startup_event id a =
      if id == app_event_id network_joined
      then transition_to in_listening a
      else if id == app_event_id network_join_failed
      then transition_to in_soft_error a
      else if id == app_event_id services_failed
      then transition_to in_hard_error a
      else running a

  listening_event : ℕ → App Q → Run (App Q)
  listening_event id a =
      if id == app_event_id dispatch_started
      then transition_to in_dispatching a
      else if id == app_event_id soft_error
      then transition_to in_soft_error a
      else if id == app_event_id hard_error
      then transition_to in_hard_error a
      else running a

  dispatching_event : ℕ → App Q → Run (App Q)
  dispatching_event id a =
      if id == app_event_id dispatch_finished
      then transition_to in_listening a
      else if id == app_event_id soft_error
      then transition_to in_soft_error a
      else if id == app_event_id hard_error
      then transition_to in_hard_error a
      else running a

  soft_error_event : ℕ → App Q → Run (App Q)
  unfolding schedule_retry with_context post_comms
  soft_error_event id a =
      if id == app_event_id retry_timeout
      then with_context a (post_comms (comms_event_id join_network) a.context)
      else if id == app_event_id network_join_failed
      then running (record a { context = schedule_retry a.context })
      else if id == app_event_id network_joined
      then transition_to in_listening
          (record a { context = record (a.context) { retry_delay_ms = soft_error_retry_ms } })
      else if id == app_event_id hard_error
      then transition_to in_hard_error a
      else running a

  state_event : StateId → ℕ → App Q → Run (App Q)
  unfolding startup_event listening_event dispatching_event soft_error_event
  state_event in_startup id a = startup_event id a
  state_event in_listening id a = listening_event id a
  state_event in_dispatching id a = dispatching_event id a
  state_event in_soft_error id a = soft_error_event id a
  state_event in_hard_error id a = running a

  -- `Port::execute_event`: an event before the first state is entered is ignored.
  unfoldable pub dispatch_event : ℕ → App Q → Run (App Q)
  unfolding state_event
  dispatch_event id a = elim a.machine.current [ none ↦ running a | some s ↦ state_event s id a ]

  -- The events of the application's thread, in order, for as long as it runs.
  unfoldable pub run : List ℕ → App Q → Run (App Q)
  run [] a = running a
  run (id ∷ ids) a = dispatch_event id a >>= run ids

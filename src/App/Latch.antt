-- ===== src/App/Latch.antt =====
-- A fault that is latched stays, with its first reason, whatever the application does.
use base_platform_zephyr_ble.Prelude.{
  ℕ, ◌≡◌, refl, Bool, true, some, arith, ◌==◌, if-keeps, Option-cases, inl, inr,
}
use base_platform_zephyr_ble.Fault.{Fault}
use base_platform_zephyr_ble.Eda.{
  Event, MsgQueue, Bus, Run, running, halted, ◌>>=◌, state, PortList, PostResult, ok, queue_full,
  not_ready, queue_of, post_event, try_send, lost, send_event,
}
use base_platform_zephyr_ble.Eda.Machine.{Machine}
use base_platform_zephyr_ble.Eda.Machine
use base_platform_zephyr_ble.App.{
  StateId, in_startup, in_listening, in_dispatching, in_soft_error, in_hard_error, App, Context,
  transition_to, entry, exit, on_bus, with_parts, with_context, startup_event, listening_event,
  dispatching_event, soft_error_event, state_event, post_comms, post_acquisition, dispatch_event,
  soft_error_retry_ms,
}
use base_platform_zephyr_ble.Events.{
  app_event_id, network_joined, network_join_failed, services_failed, dispatch_started,
  dispatch_finished, soft_error, hard_error, retry_timeout, comms_event_id, join_network,
  start_dispatch, stop_dispatch, acquisition_event_id, start_scan, stop_scan,
}

module _ {Q : Type 0} (os : MsgQueue Event Q) (debug : Bool) (f : Fault)
    (on : f.active ≡ true) where
  lost-latched : (b : Bus Q) (r : PostResult) → b.fault ≡ f → (state (lost os debug b r)).fault ≡ f
  unfolding lost
  lost-latched b r h = ground arith

  pub try_send-fault :
      (b : Bus Q) (p : PortList) (id address : ℕ) → (try_send os b p id address).0.fault ≡ b.fault
  unfolding try_send post_event
  try_send-fault b p id address = ground arith

  pub send_event-latched :
      (b : Bus Q) (p : PortList) (id address : ℕ)
      → b.fault ≡ f
      → (state (send_event os debug b p id address)).fault ≡ f
  unfolding send_event
  send_event-latched b p id address h =
      lost-latched (try_send os b p id address).0 (try_send os b p id address).1
        (rw (try_send-fault b p id address) h)

  -- What holds of the context that an action leaves, whether the action came back or not.
  Latched : Run (Context Q) → Type 0
  Latched r = (state r).bus.fault ≡ f

  on_bus-Latched : (c : Context Q) (r : Run (Bus Q)) → (state r).fault ≡ f → Latched (on_bus c r)
  unfolding Latched
  on_bus-Latched c (running b) h = h
  on_bus-Latched c (halted b) h = h

  post_comms-Latched :
      (id : ℕ) (c : Context Q) → c.bus.fault ≡ f → Latched (post_comms os debug id c)
  unfolding post_comms
  post_comms-Latched id c h = on_bus-Latched c _ (send_event-latched c.bus _ id 0 h)

  post_acquisition-Latched :
      (id : ℕ) (c : Context Q) → c.bus.fault ≡ f → Latched (post_acquisition os debug id c)
  unfolding post_acquisition
  post_acquisition-Latched id c h = on_bus-Latched c _ (send_event-latched c.bus _ id 0 h)

  bind-Latched :
      (r : Run (Context Q)) (g : Context Q → Run (Context Q))
      → Latched r
      → ((c : Context Q) → c.bus.fault ≡ f → Latched (g c))
      → Latched (r >>= g)
  unfolding Latched
  bind-Latched (running c) g h k = k c h
  bind-Latched (halted c) g h k = h

  entry-Latched : (s : StateId) (c : Context Q) → c.bus.fault ≡ f → Latched (entry os debug s c)
  unfolding entry Latched
  entry-Latched in_startup c h =
      bind-Latched (post_acquisition os debug (acquisition_event_id start_scan) c) _
        (post_acquisition-Latched (acquisition_event_id start_scan) c h)
        (λ d k. post_comms-Latched (comms_event_id join_network) d k)
  entry-Latched in_listening c h = post_comms-Latched (comms_event_id start_dispatch) c h
  entry-Latched in_dispatching c h = h
  entry-Latched in_soft_error c h = h
  entry-Latched in_hard_error c h =
      bind-Latched (post_acquisition os debug (acquisition_event_id stop_scan) _) _
        (post_acquisition-Latched (acquisition_event_id stop_scan) _ (ground arith))
        (λ d k. post_comms-Latched (comms_event_id stop_dispatch) d k)

  exit_returns :
      (s : StateId) (c : Context Q)
      → (d : Context Q) × (exit os debug s c ≡ running d) × (d.bus ≡ c.bus)
  unfolding exit
  exit_returns in_soft_error c = (_, refl, refl)
  exit_returns _ c = (c, refl, refl)

  -- The same of the application.
  Held : Run (App Q) → Type 0
  Held r = (state r).context.bus.fault ≡ f

  stays : (a : App Q) → a.context.bus.fault ≡ f → Held (running a)
  unfolding Held
  stays a h = h

  entered-Held :
      (a : App Q) (id : StateId) (m : Machine StateId) (r : Run (Context Q))
      → Latched r
      → Held (with_parts a id (base_platform_zephyr_ble.Eda.Machine.with_context m r))
  unfolding Latched Held
  entered-Held a id m (running c) h = h
  entered-Held a id m (halted c) h = h

  transition_to-Held :
      (id s : StateId) (a : App Q)
      → a.machine.current ≡ some s
      → a.context.bus.fault ≡ f
      → Held (transition_to os debug id a)
  unfolding transition_to
  transition_to-Held id s a e h =
      let (d, left, same) = exit_returns s a.context in
      rw (transition_to, e, left)
        (entered-Held a id _ (entry os debug id d) (entry-Latched id d (rw same h)))

  with_context-Held :
      (a : App Q) (r : Run (Context Q)) → Latched r → Held (with_context os debug a r)
  unfolding with_context Latched Held
  with_context-Held a (running c) h = h
  with_context-Held a (halted c) h = h

  state_event-Held :
      (s : StateId) (id : ℕ) (a : App Q)
      → a.machine.current ≡ some s
      → a.context.bus.fault ≡ f
      → Held (state_event os debug s id a)
  unfolding state_event startup_event listening_event dispatching_event soft_error_event
  state_event-Held in_startup id a e h =
      if-keeps Held (id == app_event_id network_joined)
        (transition_to-Held in_listening in_startup a e h)
        (if-keeps Held (id == app_event_id network_join_failed)
          (transition_to-Held in_soft_error in_startup a e h)
          (if-keeps Held (id == app_event_id services_failed)
            (transition_to-Held in_hard_error in_startup a e h) (stays a h)))
  state_event-Held in_listening id a e h =
      if-keeps Held (id == app_event_id dispatch_started)
        (transition_to-Held in_dispatching in_listening a e h)
        (if-keeps Held (id == app_event_id soft_error)
          (transition_to-Held in_soft_error in_listening a e h)
          (if-keeps Held (id == app_event_id hard_error)
            (transition_to-Held in_hard_error in_listening a e h) (stays a h)))
  state_event-Held in_dispatching id a e h =
      if-keeps Held (id == app_event_id dispatch_finished)
        (transition_to-Held in_listening in_dispatching a e h)
        (if-keeps Held (id == app_event_id soft_error)
          (transition_to-Held in_soft_error in_dispatching a e h)
          (if-keeps Held (id == app_event_id hard_error)
            (transition_to-Held in_hard_error in_dispatching a e h) (stays a h)))
  state_event-Held in_soft_error id a e h =
      if-keeps Held (id == app_event_id retry_timeout)
        (with_context-Held a _ (post_comms-Latched (comms_event_id join_network) a.context h))
        (if-keeps Held (id == app_event_id network_join_failed) (stays _ h) (
          if-keeps Held (id == app_event_id network_joined)
            (transition_to-Held in_listening in_soft_error
              (record a { context = record (a.context) { retry_delay_ms = soft_error_retry_ms } }) e
              h)
            (if-keeps Held (id == app_event_id hard_error)
              (transition_to-Held in_hard_error in_soft_error a e h) (stays a h))))
  state_event-Held in_hard_error id a e h = stays a h

  pub dispatch_event-held :
      (id : ℕ) (a : App Q)
      → a.context.bus.fault ≡ f
      → (state (dispatch_event os debug id a)).context.bus.fault ≡ f
  unfolding dispatch_event Held
  dispatch_event-held id a h = elim (Option-cases a.machine.current) [
    | inl e ↦ rw (dispatch_event, e) h
    | inr (s, e) ↦ rw (dispatch_event, e) (state_event-Held s id a e h)
  ]

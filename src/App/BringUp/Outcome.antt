-- ===== src/App/BringUp/Outcome.antt =====
-- How bring-up ends: what is queued where, and what is latched.
use mathlib.Core.Path.{subst}
use base_platform_zephyr_ble.Prelude.{
  ℕ, ◌≡◌, refl, sym, ◌∙◌, Bool, true, false, none, some, [], ◌∷◌, if◌then◌else◌, arith,
}
use base_platform_zephyr_ble.Config.{Config}
use base_platform_zephyr_ble.Eda.{
  Event, MsgQueue, Bus, Run, running, halted, state, event, queue_of, put_slot, queue_length,
  start_up, app_port, acquisition_port, comms_port, system_diagnostics_port, init_port,
}
use base_platform_zephyr_ble.Eda.Delivery.{post_put, queue_of-put_slot_self, queue_of-put_slot_ne}
use base_platform_zephyr_ble.Events.{
  app_event_id, services_ready, services_failed, acquisition_event_id, start_scan, comms_event_id,
  join_network,
}
use base_platform_zephyr_ble.Fault.{Fault, report, port_not_ready}
use base_platform_zephyr_ble.Hal.Ble.{AdvReport}
use base_platform_zephyr_ble.Hal.Led.{Led}
use base_platform_zephyr_ble.Hal.Watchdog.{Driver, set_timeout}
use base_platform_zephyr_ble.Link.{Link}
use base_platform_zephyr_ble.Comms
use base_platform_zephyr_ble.Acquisition.Service
use base_platform_zephyr_ble.App.{constructed}
use base_platform_zephyr_ble.App.BringUp.{
  Device, register, initialize_acquisition, initialize_comms, initialize_diagnostics,
  watchdog_timeout_ms, initialize_table, begin, initialize,
}
use base_platform_zephyr_ble.App.BringUp.Start.{
  Holding, put-init, Started, Diagnosed, Diagnosed-same, in_startup_on, start_lem, start_unheard,
}

module _ {Q P L : Type 0} (os : MsgQueue Event Q) (pool : MsgQueue AdvReport P) (link : Link L)
    (driver : Driver) (c : Config) (debug : Bool) where
  -- Whether a service comes up, asked as bring-up asks it.
  abbrev pub acquires : ℕ → Device Q P L → Bool
  acquires answer d =
      (base_platform_zephyr_ble.Acquisition.Service.initialize pool c answer
        (initialize_table os pool link driver c debug d).node).1

  abbrev pub links : Device Q P L → Bool
  links d =
      (base_platform_zephyr_ble.Comms.initialize link
        (initialize_table os pool link driver c debug d).world).1

  abbrev pub outcome_id : Bool → ℕ
  outcome_id ready = if ready then app_event_id services_ready else app_event_id services_failed

  -- The ways in which bring-up ends, by whether the acquisition and the uplink come up.
  unfoldable pub BroughtUp : Fault → Bool → Bool → Run (Device Q P L) → Type 0
  BroughtUp f true linked r =
      (r ≡ running (state r))
      × Started os f (state r).app
      × Holding os (state r).app.context.bus app_port (outcome_id linked ∷ [])
      × Diagnosed os linked (state r).app.context.bus
  BroughtUp f false linked r =
      (r ≡ (if debug then halted (state r) else running (state r)))
      × (queue_of (state r).app.context.bus comms_port ≡ none)
      × Holding os (state r).app.context.bus acquisition_port (acquisition_event_id start_scan ∷ [])
      × Holding os (state r).app.context.bus app_port
          (if debug then [] else app_event_id services_failed ∷ [])
      × ((state r).app.context.bus.fault ≡ report port_not_ready f)

  -- `begin` where all the ports that it posts to have room.
  begin_lem :
      (d : Device Q P L) (b : Bus Q) (led : Led) (ready : Bool) (qa qc qp qa' qc' qp' : Q)
      → queue_of b acquisition_port ≡ some qa
      → os.put qa (event acquisition_port (acquisition_event_id start_scan) 0) ≡ some qa'
      → queue_of (put_slot b acquisition_port qa') comms_port ≡ some qc
      → os.put qc (event comms_port (comms_event_id join_network) 0) ≡ some qc'
      → queue_of (put_slot (put_slot b acquisition_port qa') comms_port qc') app_port ≡ some qp
      → os.put qp (event app_port (outcome_id ready) 0) ≡ some qp'
      → begin os pool link driver c debug (record d { app = constructed b led }) ready
        ≡ running (record d {
          app =
              in_startup_on os
                (put_slot (put_slot (put_slot b acquisition_port qa') comms_port qc') app_port qp')
                led;
        })
  unfolding begin in_startup_on
  begin_lem d b led ready qa qc qp qa' qc' qp' a put_a c' put_c p put_p =
      rw
        (
          start_lem os debug b led qa qa' qc qc' a put_a c' put_c,
          post_put os debug (put_slot (put_slot b acquisition_port qa') comms_port qc') app_port
              (outcome_id ready) 0 qp qp' p put_p,
        )
        refl

  -- `begin` where the services up to the uplink are registered, each with an empty queue.
  begin-BroughtUp :
      (d : Device Q P L) (b : Bus Q) (led : Led) (ready : Bool)
      → queue_of b app_port ≡ some (os.init queue_length)
      → queue_of b acquisition_port ≡ some (os.init queue_length)
      → queue_of b comms_port ≡ some (os.init queue_length)
      → Diagnosed os ready b
      → BroughtUp b.fault true ready
          (begin os pool link driver c debug (record d { app = constructed b led }) ready)
  unfolding BroughtUp Holding in_startup_on
  begin-BroughtUp d b led ready p a u g =
      let (qa, put_a, holds_a) =
        put-init os (event acquisition_port (acquisition_event_id start_scan) 0) in
      let (qc, put_c, holds_c) = put-init os (event comms_port (comms_event_id join_network) 0) in
      let (qp, put_p, holds_p) = put-init os (event app_port (outcome_id ready) 0) in
      let b1 : Bus Q = put_slot b acquisition_port qa in
      let b2 : Bus Q = put_slot b1 comms_port qc in
      let b3 : Bus Q = put_slot b2 app_port qp in
      let u1 : queue_of b1 comms_port ≡ some (os.init queue_length) =
        queue_of-put_slot_ne b acquisition_port comms_port qa (omega arith) ∙ u in
      let p2 : queue_of b2 app_port ≡ some (os.init queue_length) =
        queue_of-put_slot_ne b1 comms_port app_port qc (omega arith)
        ∙ queue_of-put_slot_ne b acquisition_port app_port qa (omega arith)
        ∙ p in
      let a3 : queue_of b3 acquisition_port ≡ some qa =
        queue_of-put_slot_ne b2 app_port acquisition_port qp (omega arith)
        ∙ queue_of-put_slot_ne b1 comms_port acquisition_port qc (omega arith)
        ∙ queue_of-put_slot_self b acquisition_port (os.init queue_length) qa a in
      let u3 : queue_of b3 comms_port ≡ some qc =
        queue_of-put_slot_ne b2 app_port comms_port qp (omega arith)
        ∙ queue_of-put_slot_self b1 comms_port (os.init queue_length) qc u1 in
      let p3 : queue_of b3 app_port ≡ some qp =
        queue_of-put_slot_self b2 app_port (os.init queue_length) qp p2 in
      let g3 : queue_of b3 system_diagnostics_port ≡ queue_of b system_diagnostics_port =
        queue_of-put_slot_ne b2 app_port system_diagnostics_port qp (omega arith)
        ∙ queue_of-put_slot_ne b1 comms_port system_diagnostics_port qc (omega arith)
        ∙ queue_of-put_slot_ne b acquisition_port system_diagnostics_port qa (omega arith) in
      subst (BroughtUp b.fault true ready)
        (sym (
          begin_lem d b led ready (os.init queue_length) (os.init queue_length)
            (os.init queue_length) qa qc qp a put_a u1 put_c p2 put_p))
        (
          refl,
          record {
            acquisition = (qa, a3, holds_a);
            comms = (qc, u3, holds_c);
            fault = refl;
            in_startup = refl;
          },
          (qp, p3, holds_p),
          Diagnosed-same os ready b b3 g3 g,
        )

module _ {Q P L : Type 0} (os : MsgQueue Event Q) (pool : MsgQueue AdvReport P) (link : Link L)
    (driver : Driver) (c : Config) where
  -- `begin` where the acquisition service failed, so that none behind it is registered.
  begin_unheard :
      (debug : Bool) (d : Device Q P L) (b : Bus Q) (led : Led) (linked : Bool)
      → queue_of b app_port ≡ some (os.init queue_length)
      → queue_of b acquisition_port ≡ some (os.init queue_length)
      → queue_of b comms_port ≡ none
      → BroughtUp os pool link driver c debug b.fault false linked
          (begin os pool link driver c debug (record d { app = constructed b led }) false)
  unfolding BroughtUp Holding begin in_startup_on queue_of
  begin_unheard true d b led linked p a u =
      let (qa, put_a, holds_a) =
        put-init os (event acquisition_port (acquisition_event_id start_scan) 0) in
      let u1 : queue_of (put_slot b acquisition_port qa) comms_port ≡ none =
        queue_of-put_slot_ne b acquisition_port comms_port qa (omega arith) ∙ u in
      let p1 : queue_of (put_slot b acquisition_port qa) app_port ≡ some (os.init queue_length) =
        queue_of-put_slot_ne b acquisition_port app_port qa (omega arith) ∙ p in
      let a1 : queue_of (put_slot b acquisition_port qa) acquisition_port ≡ some qa =
        queue_of-put_slot_self b acquisition_port (os.init queue_length) qa a in
      rw (start_unheard os true b led (os.init queue_length) qa a put_a u1) (
        refl,
        u1,
        (qa, a1, holds_a),
        (os.init queue_length, p1, os.contents-init queue_length),
        refl,
      )
  begin_unheard false d b led linked p a u =
      let (qa, put_a, holds_a) =
        put-init os (event acquisition_port (acquisition_event_id start_scan) 0) in
      let (qp, put_p, holds_p) = put-init os (event app_port (app_event_id services_failed) 0) in
      let u1 : queue_of (put_slot b acquisition_port qa) comms_port ≡ none =
        queue_of-put_slot_ne b acquisition_port comms_port qa (omega arith) ∙ u in
      let b1 : Bus Q = record (put_slot b acquisition_port qa) {
        fault = report port_not_ready b.fault;
      } in
      let p1 : queue_of b1 app_port ≡ some (os.init queue_length) =
        queue_of-put_slot_ne b acquisition_port app_port qa (omega arith) ∙ p in
      let a1 : queue_of b1 acquisition_port ≡ some qa =
        queue_of-put_slot_self b acquisition_port (os.init queue_length) qa a in
      rw
        (
          start_unheard os false b led (os.init queue_length) qa a put_a u1,
          post_put os false b1 app_port (app_event_id services_failed) 0 (os.init queue_length) qp
              p1 put_p,
        )
        (
          refl,
          queue_of-put_slot_ne b1 app_port comms_port qp (omega arith) ∙ u1,
          (qa, queue_of-put_slot_ne b1 app_port acquisition_port qp (omega arith) ∙ a1, holds_a),
          (qp, queue_of-put_slot_self b1 app_port (os.init queue_length) qp p1, holds_p),
          refl,
        )

module _ {Q P L : Type 0} (os : MsgQueue Event Q) (pool : MsgQueue AdvReport P) (link : Link L)
    (driver : Driver) (c : Config) (debug : Bool) where
  -- From the device as it is constructed, on ports of which none is registered. Where acquisition
  -- and uplink come up, or the acquisition alone: the machine is in STARTUP, START_SCAN and
  -- JOIN_NETWORK wait at their services, SERVICES_READY or SERVICES_FAILED at the application, and
  -- no fault is added. Where the acquisition fails: JOIN_NETWORK finds no port, which is latched as
  -- PORT_NOT_READY, and a debug build halts before SERVICES_FAILED is posted.
  pub initialize-BroughtUp :
      (answer : ℕ) (d : Device Q P L) (dropped : ℕ) (f : Fault) (led : Led)
      → let d' = record d { app = constructed (start_up dropped f) led } in
        BroughtUp os pool link driver c debug f
          (acquires os pool link driver c debug answer d')
          (links os pool link driver c debug d')
          (initialize os pool link driver c debug answer d')
  unfolding initialize init_port queue_of Diagnosed Holding
  initialize-BroughtUp answer d dropped f led =
      by_services (acquires os pool link driver c debug answer d)
        (links os pool link driver c debug d) refl refl
    where
      d0 : Device Q P L
      d0 = register os pool link driver c debug app_port (record d {
        app = constructed (start_up dropped f) led;
        watchdog = (set_timeout driver watchdog_timeout_ms d.watchdog).0;
      })

      d1 : Device Q P L
      d1 =
          (initialize_acquisition os pool link driver c debug answer
            (initialize_table os pool link driver c debug d0)).0

      d2 : Device Q P L
      d2 = (initialize_comms os pool link driver c debug d1).0

      d3 : Device Q P L
      d3 = (initialize_diagnostics os pool link driver c debug d2).0

      by_services :
          (acquiring linked : Bool)
          → acquires os pool link driver c debug answer d ≡ acquiring
          → links os pool link driver c debug d ≡ linked
          → BroughtUp os pool link driver c debug f acquiring linked (
              initialize os pool link driver c debug answer
                (record d { app = constructed (start_up dropped f) led }))
      by_services true true a l =
          rw (a, l)
            (begin-BroughtUp os pool link driver c debug d3 d3.app.context.bus led true refl refl
              refl (os.init queue_length, refl, os.contents-init queue_length))
      by_services true false a l =
          rw (a, l)
            (begin-BroughtUp os pool link driver c debug d2 d2.app.context.bus led false refl refl
              refl refl)
      by_services false linked a l = rw a (
          begin_unheard os pool link driver c debug d1 d1.app.context.bus led linked refl refl refl)

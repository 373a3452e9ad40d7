-- ===== src/App/BringUp/Start.antt =====
-- The start of the state machine during bring-up, by the ports that take its two requests.
use base_platform_zephyr_ble.Prelude.{
  ℕ, ◌≡◌, refl, ◌∙◌, ap, Bool, true, false, none, some, List, [], ◌∷◌, map, length, if◌then◌else◌,
  arith, inl, inr,
}
use base_platform_zephyr_ble.Eda.{
  Event, MsgQueue, Bus, running, halted, PortList, event, queue_of, put_slot, queue_length,
  acquisition_port, comms_port, system_diagnostics_port,
}
use base_platform_zephyr_ble.Eda.Delivery.{post_put, post_none}
use base_platform_zephyr_ble.Events.{acquisition_event_id, start_scan, comms_event_id, join_network}
use base_platform_zephyr_ble.Fault.{Fault, report, port_not_ready}
use base_platform_zephyr_ble.Hal.Led.{Led}
use base_platform_zephyr_ble.App.{in_startup, constructed, start, entry, App}

module _ {Q : Type 0} (os : MsgQueue Event Q) where
  -- The port is registered, and exactly these events wait in its queue.
  unfoldable pub Holding : Bus Q → PortList → List ℕ → Type 0
  Holding b p ids =
      (q : Q) × (queue_of b p ≡ some q) × (os.contents q ≡ map (λ id. event p id 0) ids)

  -- A queue that was just initialised takes an event.
  pub put-init :
      (e : Event) → (q : Q) × (os.put (os.init queue_length) e ≡ some q) × (os.contents q ≡ e ∷ [])
  put-init e = elim (os.put_lem (os.init queue_length) e) [
    | inl (room, (q, put, holds, _)) ↦ (q, put, rw (holds, os.contents-init queue_length) refl)
    | inr (full, _) ↦
        let nothing : length (os.contents (os.init queue_length)) ≡ 0 =
          ap length (os.contents-init queue_length) in
        absurd (omega (arith, os.max_items-init queue_length))
  ]

  -- The state machine is in STARTUP, and its requests wait at the services.
  pub record Started (f : Fault) (a : App Q) : Type 0 where
    pub acquisition : Holding a.context.bus acquisition_port (acquisition_event_id start_scan ∷ [])
    pub comms : Holding a.context.bus comms_port (comms_event_id join_network ∷ [])
    pub fault : a.context.bus.fault ≡ f
    pub in_startup : a.machine.current ≡ some in_startup

  unfoldable pub Diagnosed : Bool → Bus Q → Type 0
  Diagnosed true b = Holding b system_diagnostics_port []
  Diagnosed false b = queue_of b system_diagnostics_port ≡ none

  pub Diagnosed-same :
      (ready : Bool) (b b' : Bus Q)
      → queue_of b' system_diagnostics_port ≡ queue_of b system_diagnostics_port
      → Diagnosed ready b
      → Diagnosed ready b'
  unfolding Diagnosed Holding
  Diagnosed-same true b b' e (q, at, holds) = (q, e ∙ at, holds)
  Diagnosed-same false b b' e d = e ∙ d

  unfoldable pub in_startup_on : Bus Q → Led → App Q
  in_startup_on b led = record (constructed b led) {
    machine = record { current = some in_startup; previous = some in_startup; next = none };
  }

  -- `start` on ports that take the two requests.
  pub start_lem :
      (debug : Bool) (b : Bus Q) (led : Led) (qa qa' qc qc' : Q)
      → queue_of b acquisition_port ≡ some qa
      → os.put qa (event acquisition_port (acquisition_event_id start_scan) 0) ≡ some qa'
      → queue_of (put_slot b acquisition_port qa') comms_port ≡ some qc
      → os.put qc (event comms_port (comms_event_id join_network) 0) ≡ some qc'
      → start os debug (constructed b led)
        ≡ running (in_startup_on (put_slot (put_slot b acquisition_port qa') comms_port qc') led)
  unfolding start entry in_startup_on
  start_lem debug b led qa qa' qc qc' a put_a c put_c =
      rw
        (
          post_put os debug b acquisition_port (acquisition_event_id start_scan) 0 qa qa' a put_a,
          post_put os debug (put_slot b acquisition_port qa') comms_port
              (comms_event_id join_network) 0 qc qc' c put_c,
        )
        refl

  -- `start` where only the acquisition port takes its request.
  pub start_unheard :
      (debug : Bool) (b : Bus Q) (led : Led) (qa qa' : Q)
      → queue_of b acquisition_port ≡ some qa
      → os.put qa (event acquisition_port (acquisition_event_id start_scan) 0) ≡ some qa'
      → queue_of (put_slot b acquisition_port qa') comms_port ≡ none
      → let a' =
          in_startup_on
            (record (put_slot b acquisition_port qa') { fault = report port_not_ready b.fault })
            led in
        start os debug (constructed b led) ≡ (if debug then halted a' else running a')
  unfolding start entry in_startup_on
  start_unheard true b led qa qa' a put_a u =
      rw
        (
          post_put os true b acquisition_port (acquisition_event_id start_scan) 0 qa qa' a put_a,
          post_none os true (put_slot b acquisition_port qa') comms_port
              (comms_event_id join_network) 0 u,
        )
        refl
  start_unheard false b led qa qa' a put_a u =
      rw
        (
          post_put os false b acquisition_port (acquisition_event_id start_scan) 0 qa qa' a put_a,
          post_none os false (put_slot b acquisition_port qa') comms_port
              (comms_event_id join_network) 0 u,
        )
        refl

-- ===== src/Concentrator/Delivery/Steps.antt =====
-- The steps by which an advertisement travels: the callback, the drain, the timer and the dispatch.
use base_platform_zephyr_ble.Prelude.{
  ℕ, ◌<◌, ◌≡◌, refl, ap, ◌∙◌, true, false, inl, inr, some, List, [], ◌∷◌, ◌++◌, length,
  eq_of_bytes_eq, arith,
}
use base_platform_zephyr_ble.Config.{Config}
use base_platform_zephyr_ble.DeviceTable.{Entry, Table, upsert}
use base_platform_zephyr_ble.Eda.{
  send_event_from_isr, Event, MsgQueue, Bus, running, acquisition_port, comms_port, event,
  next_event,
}
use base_platform_zephyr_ble.Events.{
  acquisition_event_id, adv_report_available, comms_event_id, dispatch_due,
}
use base_platform_zephyr_ble.Hal.Ble.{AdvReport, adv_report}
use base_platform_zephyr_ble.Link.{Link}
use base_platform_zephyr_ble.Acquisition.{ManufacturerFrame, reading_of, consume}
use base_platform_zephyr_ble.Acquisition.Drain.{consume_all, on_adv_report_lem}
use base_platform_zephyr_ble.Acquisition.Service.{drained, untouched, execute_event-Handled}
use base_platform_zephyr_ble.Comms.{World, Env, to_record, dispatch}
use base_platform_zephyr_ble.Comms
use base_platform_zephyr_ble.DeviceTable.Lookup.{lookup}
use base_platform_zephyr_ble.DeviceTable.Reported.{lookup-holds}
use base_platform_zephyr_ble.System.{System, bus_of, with_bus, comms_turn, dispatch_expires}
use base_platform_zephyr_ble.System
use base_platform_zephyr_ble.System.Passing.{Passed}
use base_platform_zephyr_ble.Concentrator.{
  Device, Activity, core_turn, advertisement, acquisition_turn, set_core, set_acquisition,
  acquisition_node, on_bus, hear, acquisition_turns, step, run,
}
use base_platform_zephyr_ble.Concentrator.Delivery.Frame.{
  Advertised, consume_all-append, consume-Advertised,
}

module _ {P Q L : Type 0} (c : Config) (link : Link L) (pool : MsgQueue AdvReport P)
    (os : MsgQueue Event Q) (d : Device P Q L) where
  -- The table when the acquisition thread comes to the new report.
  abbrev pub table_before : (ℕ → ℕ) → Table
  table_before clock =
      consume_all c clock 0 (pool.contents d.acquisition.report_pool) d.core.world.table

  -- The time that it records it at: the clock of the round after those of the older reports.
  abbrev pub heard_s : (ℕ → ℕ) → ℕ
  heard_s clock = clock (length (pool.contents d.acquisition.report_pool))

  -- The uplink's world after it.
  abbrev pub world_after : (ℕ → ℕ) → List ℕ → ℕ → ManufacturerFrame → World L
  world_after clock address rssi f = record (d.core.world) {
    table = upsert (table_before clock) address rssi (reading_of f) (heard_s clock);
  }

  -- The Bluetooth callback, with room in the pool.
  pub hear_step :
      (r : AdvReport)
      (p : Passed os false
        (bus_of d.core)
        acquisition_port
        (acquisition_event_id adv_report_available))
      → length (pool.contents d.acquisition.report_pool) < pool.max_items d.acquisition.report_pool
      → (d1 : Device P Q L) × (hear c link pool os false r d ≡ d1)
        × (d1.core ≡ with_bus d.core p.sent)
        × (pool.contents d1.acquisition.report_pool
            ≡ pool.contents d.acquisition.report_pool ++ (r ∷ []))
  unfolding hear
  hear_step r p space = elim (on_adv_report_lem pool os r d.acquisition (bus_of d.core)) [
    | inl (_, contents, _, posted) ↦ (_, refl, ap (with_bus d.core) (posted ∙ p.from_isr), contents)
    | inr (full, _, _, _) ↦ absurd (omega (arith, space, full))
  ]

  -- The turn of the acquisition thread on the event of the callback.
  pub drain_step :
      (clock : ℕ → ℕ) (answer : ℕ) (d1 : Device P Q L) (b : Bus Q) (t : Table)
      → next_event os (bus_of d1.core) acquisition_port
        ≡ some (event acquisition_port (acquisition_event_id adv_report_available) 0, b)
      → consume_all c clock 0 (pool.contents d1.acquisition.report_pool) d1.core.world.table ≡ t
      → (d2 : Device P Q L) × (step c link pool os false (acquisition_turn clock answer) d1
          ≡ running d2)
        × (d2.core ≡ record (with_bus d1.core b) { world = record (d1.core.world) { table = t } })
  unfolding step acquisition_turns
  drain_step clock answer d1 b t front drains =
      let (n, done, h) =
        execute_event-Handled pool c clock answer (acquisition_event_id adv_report_available)
          (acquisition_node d1) in
      (
        _,
        ap (λ o. acquisition_turns c link pool os false clock answer o d1) front
            ∙ ap (set_acquisition (on_bus d1 b)) done,
        elim h [
          | drained _ table _ _ _ ↦
              ap (λ u. record (with_bus d1.core b) { world = record (d1.core.world) { table = u } })
                (table ∙ drains)
          | untouched other _ _ ↦ absurd (other refl)
        ],
      )

  pub run_four :
      (t1 t2 t3 t4 : Activity) (d1 d2 d3 d4 : Device P Q L)
      → step c link pool os false t1 d ≡ running d1
      → step c link pool os false t2 d1 ≡ running d2
      → step c link pool os false t3 d2 ≡ running d3
      → step c link pool os false t4 d3 ≡ running d4
      → run c link pool os false (t1 ∷ t2 ∷ t3 ∷ t4 ∷ []) d ≡ running d4
  unfolding run
  run_four t1 t2 t3 t4 d1 d2 d3 d4 e1 e2 e3 e4 = rw e1 (rw e2 (rw e3 (rw e4 refl)))

  -- The pool with the new report at its end, drained.
  pub drains_to :
      (clock : ℕ → ℕ) (address : List ℕ) (address_type rssi : ℕ) (buffer : List ℕ)
      (f : ManufacturerFrame) (d1 : Device P Q L) (b : Bus Q)
      → Advertised c f buffer
      → d1.core ≡ with_bus d.core b
      → pool.contents d1.acquisition.report_pool
        ≡ pool.contents d.acquisition.report_pool
          ++ (adv_report address address_type rssi buffer ∷ [])
      → consume_all c clock 0 (pool.contents d1.acquisition.report_pool) d1.core.world.table
        ≡ (world_after clock address rssi f).table
  drains_to clock address address_type rssi buffer f d1 b adv core reports =
      let r = adv_report address address_type rssi buffer in
      ap (λ xs. consume_all c clock 0 xs d1.core.world.table) reports
      ∙ ap
          (λ (s : System Q L).
            consume_all c clock 0 (pool.contents d.acquisition.report_pool ++ (r ∷ []))
              s.world.table)
          core
      ∙ consume_all-append c clock 0 (pool.contents d.acquisition.report_pool) r d.core.world.table
      ∙ ap (λ i. consume c (clock i) r (table_before clock)) (omega arith)
      ∙ consume-Advertised c (heard_s clock) address address_type rssi buffer f (table_before clock)
          adv

  pub hear_turn :
      (address : List ℕ) (address_type rssi : ℕ) (buffer : List ℕ) (d1 : Device P Q L)
      → hear c link pool os false (adv_report address address_type rssi buffer) d ≡ d1
      → step c link pool os false (advertisement address address_type rssi buffer) d ≡ running d1
  unfolding step
  hear_turn address address_type rssi buffer d1 e = ap running e

  pub core_step :
      (t : System.Turn) (d1 : Device P Q L) (s s' : System Q L)
      → d1.core ≡ s
      → System.step c link os false t s ≡ running s'
      → step c link pool os false (core_turn t) d1 ≡ running (record d1 { core = s' })
  unfolding step
  core_step t d1 s s' same done =
      ap (λ u. set_core d1 (System.step c link os false t u)) same ∙ ap (set_core d1) done

  -- The dispatch timer and the turn of the uplink that follows it, with dispatching enabled.
  pub expire_step :
      (s : System Q L) (b : Bus Q)
      → send_event_from_isr os (bus_of s) comms_port (comms_event_id dispatch_due) 0 ≡ b
      → System.step c link os false dispatch_expires s ≡ running (with_bus s b)
  unfolding System.step System.on_dispatch_timer_expired
  expire_step s b sent = ap (λ b'. running (with_bus s b')) sent

  pub dispatches :
      (env : Env) (w : World L) (b : Bus Q)
      → w.comms.dispatch_enabled ≡ true
      → Comms.execute_event c link env os false
          (comms_event_id dispatch_due)
          (record { world = w; bus = b })
        ≡ running (record { world = dispatch c link env w; bus = b })
  unfolding Comms.execute_event Comms.dispatch_if_enabled
  dispatches env w b enabled = rw enabled refl

  pub holder : (es : List Entry) (a : List ℕ) (e : Entry) → lookup es a ≡ some e → e.address ≡ a
  holder es a e h = ground (arith, lookup-holds es a e h, eq_of_bytes_eq e.address a)

-- ===== src/Concentrator/Delivery.antt =====
-- From the air to the uplink: what becomes of one advertisement.
pub mod Frame
pub mod Steps
use mathlib.Core.Path.{subst}
use base_platform_zephyr_ble.Prelude.{
  ℕ, ◌+◌, ◌^◌, ◌<◌, ◌≤◌, ◌≡◌, refl, sym, ap, ◌∙◌, Bool, true, false, inl, inr, some, List, [], ◌∷◌,
  ◌++◌, take, zero, suc, length, eq_of_bytes_eq, All, All-append, Any, arith, ◌==◌, if◌then◌else◌,
}
use base_platform_zephyr_ble.Config.{Config}
use base_platform_zephyr_ble.DeviceTable.{Entry, Table, age, upsert}
use base_platform_zephyr_ble.DeviceTable.Upsert
use base_platform_zephyr_ble.DeviceTable.Heard.{Unwrapped, Pending, upsert-Pending}
use base_platform_zephyr_ble.DeviceTable.Widths.{Address, Bytes}
use base_platform_zephyr_ble.Eda.{
  send_event_from_isr, Event, MsgQueue, Bus, Run, running, ◌>>=◌, acquisition_port, comms_port,
  event, next_event,
}
use base_platform_zephyr_ble.Events.{
  acquisition_event_id, adv_report_available, comms_event_id, dispatch_due,
}
use base_platform_zephyr_ble.Hal.Ble.{AdvReport, adv_report, max_adv_data_size}
use base_platform_zephyr_ble.Link.{Link}
use base_platform_zephyr_ble.Acquisition.{
  ManufacturerFrame, parse_custom_frame, accepted, reading_of, consume, on_adv_report,
}
use base_platform_zephyr_ble.Acquisition.Parse.{Element, AllOther, Fits}
use base_platform_zephyr_ble.Acquisition.RoundTrip.{payload, parse-payload}
use base_platform_zephyr_ble.Acquisition.Drain.{consume_all, consume_all-Inv, on_adv_report_lem}
use base_platform_zephyr_ble.Acquisition.Service.{
  Handled, drained, untouched, execute_event-Handled,
}
use base_platform_zephyr_ble.Comms.{World, Env, to_record, dispatch}
use base_platform_zephyr_ble.Comms
use base_platform_zephyr_ble.Comms.Carried.{Carries, dispatch-Carried}
use base_platform_zephyr_ble.Comms.Dispatch.{Ready}
use base_platform_zephyr_ble.Comms.Complete.{Smooth}
use base_platform_zephyr_ble.DeviceTable.Lookup.{lookup}
use base_platform_zephyr_ble.DeviceTable.Reported.{lookup-holds}
use base_platform_zephyr_ble.System.{System, bus_of, with_bus, comms_turn, dispatch_expires}
use base_platform_zephyr_ble.System
use base_platform_zephyr_ble.System.Passing.{Idle, Passed, pass, keep-Idle}
use base_platform_zephyr_ble.System.Recovery.{comms_step}
use base_platform_zephyr_ble.Concentrator.{
  Device, Activity, core_turn, advertisement, acquisition_turn, set_core, set_acquisition,
  acquisition_node, on_bus, hear, acquisition_turns, step, run,
}
use base_platform_zephyr_ble.Concentrator.Delivery.Frame.{Advertised}
use base_platform_zephyr_ble.Concentrator.Delivery.Steps.{
  table_before, heard_s, world_after, hear_step, drain_step, run_four, drains_to, hear_turn,
  core_step, expire_step, dispatches, holder,
}

-- The reading of the advertisement, in the record of some payload that was handed over.
pub record Delivered {P Q L : Type 0} (env : Env) (address : List ℕ) (rssi : ℕ)
    (f : ManufacturerFrame) (d' : Device P Q L) : Type 0 where
  pub entry : Entry
  pub whose : entry.address ≡ address
  pub level : entry.rssi ≡ rssi
  pub reading : entry.reading ≡ reading_of f
  pub carried : Any (Carries (to_record entry env.now_s)) d'.core.world.offered

module _ {P Q L : Type 0} (c : Config) (link : Link L) (pool : MsgQueue AdvReport P)
    (os : MsgQueue Event Q) (d : Device P Q L) where
  -- An advertisement reaches the uplink. From a device with a well-formed table and room for a
  -- device in it, room in the report pool, nothing waiting at the acquisition thread and the
  -- uplink, and dispatching enabled; for the frame of an endpoint of the expected company in a
  -- payload of at most 31 bytes; with a transport that is joined, has room for a record, allows the
  -- uplinks needed and accepts every payload of the announced size in each state that its accepted
  -- sends lead to; nothing arriving during the dispatch; if the reading is not stale by the time of
  -- the snapshot and the device's 16-bit counter does not come round: after the Bluetooth callback,
  -- a turn of the acquisition thread, the dispatch timer and a turn of the uplink, a payload that
  -- was handed to the transport carries a record of that address with that level and reading.
  pub advertisement-Delivered :
      (clock : ℕ → ℕ) (answer : ℕ) (address : List ℕ) (address_type rssi : ℕ) (buffer : List ℕ)
      (f : ManufacturerFrame) (env : Env)
      → 0 < c.max_devices
      → Upsert.Inv c d.core.world.table
      → length (pool.contents d.acquisition.report_pool) < pool.max_items d.acquisition.report_pool
      → Idle os (bus_of d.core) acquisition_port
      → Idle os (bus_of d.core) comms_port
      → d.core.world.comms.dispatch_enabled ≡ true
      → Advertised c f buffer
      → age env.snapshot_s (heard_s c link pool os d clock) ≤ c.device_stale_after_s
      → Unwrapped c
          (table_before c link pool os d clock)
          address
          rssi
          (reading_of f)
          (heard_s c link pool os d clock)
          env.snapshot_s
      → Ready c link env (world_after c link pool os d clock address rssi f)
      → Smooth c link env (world_after c link pool os d clock address rssi f)
      → (d' : Device P Q L) × (run c link pool os false
            (advertisement address address_type rssi buffer
              ∷ acquisition_turn clock answer
              ∷ core_turn dispatch_expires
              ∷ core_turn (comms_turn env)
              ∷ [])
            d
          ≡ running d')
        × Delivered env address rssi f d'
  advertisement-Delivered clock answer address address_type rssi buffer f env room v space idle_acq
        idle_comms enabled adv recent fresh ready smooth =
      let w : World L = world_after c link pool os d clock address rssi f in
      let older = table_before c link pool os d clock in
      let p1 =
        pass os false (bus_of d.core) acquisition_port (acquisition_event_id adv_report_available)
          idle_acq in
      let p2 = pass os false p1.after comms_port (comms_event_id dispatch_due) (
        keep-Idle os (bus_of d.core) p1.after comms_port (p1.others comms_port (omega arith))
          idle_comms) in
      let (d1, hears, core1, reports) =
        hear_step c link pool os d (adv_report address address_type rssi buffer) p1 space in
      let drains =
        drains_to c link pool os d clock address address_type rssi buffer f d1 p1.sent adv core1
          reports in
      let front = ap (λ s. next_event os (bus_of s) acquisition_port) core1 ∙ p1.taken in
      let (d2, drain_done, core2) =
        drain_step c link pool os d clock answer d1 p1.after w.table front drains in
      let s2 : System Q L = record (with_bus d.core p1.after) { world = w } in
      let same : d2.core ≡ s2 =
        core2
        ∙ ap
            (λ (s : System Q L). record (with_bus s p1.after) {
              world = record (s.world) { table = w.table };
            })
            core1 in
      let s3 : System Q L = with_bus s2 p2.sent in
      let s4 : System Q L = record (with_bus s3 p2.after) { world = dispatch c link env w } in
      let d3 : Device P Q L = record d2 { core = s3 } in
      let d4 : Device P Q L = record d3 { core = s4 } in
      let sound : Upsert.Inv c older =
        consume_all-Inv c clock 0 (pool.contents d.acquisition.report_pool) d.core.world.table room
          v in
      let pending =
        upsert-Pending c older address rssi (reading_of f) (heard_s c link pool os d clock)
          env.snapshot_s sound room recent fresh in
      (
        d4,
        run_four c link pool os d (advertisement address address_type rssi buffer)
            (acquisition_turn clock answer) (core_turn dispatch_expires)
            (core_turn (comms_turn env)) d1 d2 d3 d4
            (hear_turn c link pool os d address address_type rssi buffer d1 hears) drain_done
            (core_step c link pool os d dispatch_expires d2 s2 s3 same
              (expire_step c link pool os d s2 p2.sent p2.from_isr))
            (core_step c link pool os d (comms_turn env) d3 s3 s4 refl (
              comms_step c link os false env s3 (event comms_port (comms_event_id dispatch_due) 0)
                p2.after p2.after (dispatch c link env w) p2.taken
                (dispatches c link pool os d env w p2.after enabled))),
        record {
          entry = pending.entry;
          whose = holder c link pool os d w.table.entries address pending.entry pending.found;
          level = pending.level;
          reading = pending.reading;
          carried =
              dispatch-Carried c link env w address pending.entry ready smooth
                (Upsert.upsert-Inv c older address rssi (reading_of f)
                  (heard_s c link pool os d clock) sound room)
                pending.found pending.due;
        },
      )

-- ===== src/Comms/Dispatch.antt =====
-- `dispatch`, branch by branch, and what follows for the payloads on the air and for the table.
pub mod Parts
use base_platform_zephyr_ble.Prelude.{
  ℕ, zero, suc, ◌+◌, ◌-◌, ◌*◌, ◌/◌, ◌%◌, ◌^◌, ◌<◌, ◌≤◌, ◌≡◌, refl, ◌∙◌, Bool, true, false, ◌⊎◌, inl,
  inr, List, [], ◌∷◌, ◌++◌, length, ltb, leb, ◌==◌, if◌then◌else◌, arith, min, Bool-cases, select,
}
use mathlib.Core.Path.{subst}
use base_platform_zephyr_ble.Config.{Config}
use base_platform_zephyr_ble.DeviceTable.{Entry, snapshot, age, is_reportable}
use base_platform_zephyr_ble.DeviceTable.Snapshot.{snapshot-eq-take, reportable}
use base_platform_zephyr_ble.DeviceTable.Delivery.{acknowledge}
use base_platform_zephyr_ble.Link.{Link}
use base_platform_zephyr_ble.Comms.{
  World, Env, header_size, record_size, send_fragment, offer, next_sequence, boot_sent, send_header,
  send_heartbeat_if_due, send_adr_probe, send_fragments, fragments_needed, send_records,
  send_snapshot, dispatch,
}
use base_platform_zephyr_ble.Comms.Wire.{AllAddressed}
use base_platform_zephyr_ble.Comms.Fragments.{
  packet, length-packet, Same, Fragment, taken, refused, send_fragment-Fragment, replay, AllWithin,
  AllAddressed-take,
}
use base_platform_zephyr_ble.Comms.Fragments.Loop.{Progress, send_fragments-Progress}
use base_platform_zephyr_ble.Comms.Dispatch.Parts.{
  AllAddressed-select, HeaderOnly, Sent, send_header-HeaderOnly, send_records-Sent,
}

module _ {L : Type 0} (c : Config) (link : Link L) (env : Env) where
  -- The number of records for which a packet has room behind its header.
  abbrev pub room_for : World L → ℕ
  room_for w = (link.get_available_payload_size w.link - header_size) / record_size

  abbrev pub pending : World L → List Entry
  pending w = snapshot c w.table env.snapshot_s c.max_devices

  -- What one dispatch can come to, with the condition of each case.
  pub data Outcome (w w' : World L) : Type 0 where
    not_joined : link.is_connected w.link ≡ false → w' ≡ w → Outcome w w'
    probed :
        link.is_connected w.link ≡ true
        → link.get_max_payload_size w.link ≤ header_size
        → w' ≡ (offer c link env 0 [] w).0
        → Outcome w w'
    deferred :
        link.is_connected w.link ≡ true
        → header_size < link.get_max_payload_size w.link
        → link.get_available_payload_size w.link ≤ header_size
        → w' ≡ w
        → Outcome w w'
    no_room :
        link.is_connected w.link ≡ true
        → header_size < link.get_max_payload_size w.link
        → header_size < link.get_available_payload_size w.link
        → link.get_available_payload_size w.link < header_size + record_size
        → HeaderOnly c link env w w'
        → Outcome w w'
    quiet :
        link.is_connected w.link ≡ true
        → header_size < link.get_max_payload_size w.link
        → header_size + record_size ≤ link.get_available_payload_size w.link
        → pending w ≡ []
        → (c.heartbeat_max_silence_s ≡ 0)
          ⊎ (age env.heartbeat_s w.comms.last_uplink_uptime_s < c.heartbeat_max_silence_s)
        → w' ≡ w
        → Outcome w w'
    heartbeat :
        link.is_connected w.link ≡ true
        → header_size < link.get_max_payload_size w.link
        → header_size + record_size ≤ link.get_available_payload_size w.link
        → pending w ≡ []
        → 0 < c.heartbeat_max_silence_s
        → c.heartbeat_max_silence_s ≤ age env.heartbeat_s w.comms.last_uplink_uptime_s
        → HeaderOnly c link env w w'
        → Outcome w w'
    records :
        link.is_connected w.link ≡ true
        → header_size < link.get_max_payload_size w.link
        → header_size + record_size ≤ link.get_available_payload_size w.link
        → Sent c link env
            (room_for w)
            (min
              (link.get_max_uplinks_per_dispatch w.link)
              (fragments_needed (length (pending w)) (room_for w)))
            (pending w)
            w
            w'
        → Outcome w w'

  -- What the transport's uint8_t results cannot exceed, and a table whose addresses are whole.
  pub record Ready (w : World L) : Type 0 where
    pub available : link.get_available_payload_size w.link < 2 ^ 8
    pub uplinks : link.get_max_uplinks_per_dispatch w.link < 2 ^ 8
    pub addressed : AllAddressed w.table.entries

  pub AllAddressed-snapshot :
      (w : World L) → AllAddressed w.table.entries → AllAddressed (pending w)
  AllAddressed-snapshot w a = rw (snapshot-eq-take c w.table env.snapshot_s c.max_devices) (
      AllAddressed-take c.max_devices (reportable c env.snapshot_s w.table)
        (AllAddressed-select (is_reportable c env.snapshot_s) w.table.entries a))

  snapshot_cases :
      (w : World L) (es : List Entry)
      → pending w ≡ es
      → AllAddressed es
      → Ready w
      → link.is_connected w.link ≡ true
      → header_size < link.get_max_payload_size w.link
      → header_size + record_size ≤ link.get_available_payload_size w.link
      → Outcome w (send_snapshot c link env (room_for w) es w)
  unfolding send_snapshot send_heartbeat_if_due
  snapshot_cases w [] e a r on rate size = elim (Bool-cases (c.heartbeat_max_silence_s == 0)) [
    | inl off ↦ rw (off, send_heartbeat_if_due) (quiet on rate size e (inl (ground arith)) refl)
    | inr due ↦
        elim (Bool-cases
          (ltb (age env.heartbeat_s w.comms.last_uplink_uptime_s) c.heartbeat_max_silence_s)) [
            | inl soon ↦
                simp (due, soon, send_heartbeat_if_due)
                  (quiet on rate size e (inr (ground arith)) refl)
            | inr late ↦
                simp (due, late, send_heartbeat_if_due)
                  (heartbeat on rate size e (ground arith) (ground arith)
                    (send_header-HeaderOnly c link env env.heartbeat_s w))
          ]
  ]
  snapshot_cases w (x ∷ es) e a r on rate size = records on rate size (
      rw e (
        send_records-Sent c link env (room_for w) (x ∷ es) w a (omega arith) (omega arith)
          r.uplinks))

  with_room :
      (w : World L)
      → Ready w
      → link.is_connected w.link ≡ true
      → header_size < link.get_max_payload_size w.link
      → header_size < link.get_available_payload_size w.link
      → Outcome w (
          if room_for w % 2 ^ 8 == 0
          then send_header c link env env.heartbeat_s w
          else send_snapshot c link env (room_for w % 2 ^ 8) (pending w) w)
  with_room w r on rate free =
      let small : room_for w % 2 ^ 8 ≡ room_for w = let h = r.available in omega arith in
      simp small (elim (Bool-cases (room_for w == 0)) [
        | inl none ↦ simp none (
            no_room on rate free (ground arith)
              (send_header-HeaderOnly c link env env.heartbeat_s w))
        | inr some ↦ simp some (
            snapshot_cases w (pending w) refl (AllAddressed-snapshot w r.addressed) r on rate
              (ground arith))
      ])

  pub dispatch-Outcome : (w : World L) → Ready w → Outcome w (dispatch c link env w)
  unfolding dispatch send_adr_probe
  dispatch-Outcome w r = elim (Bool-cases (link.is_connected w.link)) [
    | inr off ↦ rw (off, dispatch) (not_joined off refl)
    | inl on ↦
        simp (on, dispatch)
          (elim (Bool-cases (leb (link.get_max_payload_size w.link) header_size)) [
            | inl useless ↦ simp useless (probed on (ground arith) refl)
            | inr useful ↦
                simp useful
                  (elim (Bool-cases (leb (link.get_available_payload_size w.link) header_size)) [
                    | inl full ↦ simp full (deferred on (ground arith) (ground arith) refl)
                    | inr free ↦ simp free (with_room w r on (ground arith) (ground arith))
                  ])
          ])
  ]

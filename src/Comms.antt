-- ===== src/Comms.antt =====
-- src/svc/comms: the uplink. The transport is the interface `Link`; the readings of the uptime, the
-- dropped-report counter and what the acquisition thread does to the table while a fragment is on
-- its way come from the environment `Env`. Log lines are left out; no callback is registered on
-- this port, so `execute_callback` at the end of the handler does nothing.
pub mod Wire
pub mod Fragments
pub mod Dispatch
pub mod Delivered
pub mod Complete
pub mod Silence
pub mod Widths
pub mod Carried
pub mod Transport
use base_platform_zephyr_ble.Prelude.{
  ℕ, zero, suc, ◌+◌, ◌-◌, ◌*◌, ◌/◌, ◌%◌, ◌^◌, ◌≡◌, refl, Bool, true, false, not, ◌&&◌, ◌||◌, Option,
  none, some, List, [], ◌∷◌, ◌++◌, length, take, drop, ltb, leb, ◌==◌, if◌then◌else◌,
}
use base_platform_zephyr_ble.Config.{Config}
use base_platform_zephyr_ble.Wire.{u16_bytes, u32_bytes}
use base_platform_zephyr_ble.DeviceTable.{Entry, Table, age, snapshot, get_evicted_count}
use base_platform_zephyr_ble.DeviceTable.Delivery.{acknowledge}
use base_platform_zephyr_ble.Link.{Link, LinkError, no_error}
use base_platform_zephyr_ble.Eda.{Event, MsgQueue, Bus, Run, running, halted, send_event, app_port}
use base_platform_zephyr_ble.Eda.Timer.{Timer, start, stop}
use base_platform_zephyr_ble.Events.{
  app_event_id, network_joined, network_join_failed, comms_event_id, join_network, dispatch_due,
  dispatch_now, start_dispatch, stop_dispatch,
}

-- The statics of comms/subsystem.cpp.
pub record Comms : Type 0 where
  pub dispatch_enabled : Bool
  pub sequence : ℕ
  pub boot_uplink_sent : Bool
  pub last_uplink_uptime_s : ℕ
  pub dispatch_timer : Timer

-- The service with all that it reaches. `offered` is the history of the payloads handed to the
-- transport, latest first.
pub record World (L : Type 0) : Type 0 where
  pub comms : Comms
  pub table : Table
  pub link : L
  pub offered : List (List ℕ)

-- What a dispatch reads from elsewhere, by the index of the fragment where it varies.
pub record Env : Type 0 where
  pub snapshot_s : ℕ
  pub now_s : ℕ
  pub heartbeat_s : ℕ
  pub sent_s : ℕ → ℕ
  pub dropped : ℕ → ℕ
  pub meanwhile : ℕ → Table → Table

pub record UplinkHeader : Type 0 where
  pub concentrator_id : ℕ
  pub sequence : ℕ
  pub fragment_index : ℕ
  pub fragment_count : ℕ
  pub record_count : ℕ
  pub dropped_adv_reports : ℕ
  pub evicted_devices : ℕ
  pub flags : ℕ

pub record EndpointRecord : Type 0 where
  pub address : List ℕ
  pub rssi : ℕ
  pub seconds_since_seen : ℕ
  pub temperature : ℕ
  pub humidity : ℕ
  pub pressure : ℕ
  pub acc_x : ℕ
  pub acc_y : ℕ
  pub acc_z : ℕ
  pub battery_mv : ℕ
  pub endpoint_timestamp : ℕ
  pub status_flags : ℕ

abbrev pub header_size : ℕ
header_size = 12

abbrev pub record_size : ℕ
record_size = 26

-- UplinkFlags; a byte with both is their sum, since the bits are different.
abbrev pub flag_boot : ℕ
flag_boot = 1

abbrev pub flag_heartbeat : ℕ
flag_heartbeat = 2

abbrev pub saturate_to_u8 : ℕ → ℕ
saturate_to_u8 value = if ltb 255 value then 255 else value

abbrev pub saturated_age : ℕ → ℕ
saturated_age age_s = if ltb 65535 age_s then 65535 else age_s

abbrev pub to_record : Entry → ℕ → EndpointRecord
to_record entry now_s = record {
  address = entry.address;
  rssi = entry.rssi;
  seconds_since_seen = saturated_age (age now_s entry.last_seen_uptime_s);
  temperature = entry.reading.temperature;
  humidity = entry.reading.humidity;
  pressure = entry.reading.pressure;
  acc_x = entry.reading.acc_x;
  acc_y = entry.reading.acc_y;
  acc_z = entry.reading.acc_z;
  battery_mv = entry.reading.battery_mv;
  endpoint_timestamp = entry.reading.endpoint_timestamp;
  status_flags = entry.reading.status_flags;
}

-- The packed structs in memory.
unfoldable pub header_bytes : UplinkHeader → List ℕ
header_bytes h =
    u32_bytes h.concentrator_id
    ++ (u16_bytes h.sequence
        ++ (h.fragment_index ∷ h.fragment_count ∷ h.record_count ∷ h.dropped_adv_reports
            ∷ h.evicted_devices ∷ h.flags ∷ []))

unfoldable pub record_bytes : EndpointRecord → List ℕ
record_bytes r =
    r.address
    ++ (r.rssi
        ∷ (u16_bytes r.seconds_since_seen
            ++ (r.temperature
                ∷ r.humidity
                ∷ (u16_bytes r.pressure
                    ++ (u16_bytes r.acc_x
                        ++ (u16_bytes r.acc_y
                            ++ (u16_bytes r.acc_z
                                ++ (u16_bytes r.battery_mv
                                    ++ (u32_bytes r.endpoint_timestamp
                                        ++ (r.status_flags ∷ []))))))))))

-- The loop that copies the records behind the header.
unfoldable pub records_bytes : List Entry → ℕ → List ℕ
unfolding record_bytes
records_bytes [] now_s = []
records_bytes (e ∷ es) now_s = record_bytes (to_record e now_s) ++ records_bytes es now_s

-- `++s_sequence` on a uint16_t.
abbrev pub next_sequence : {L : Type 0} → World L → World L
next_sequence w = record w {
  comms = record (w.comms) { sequence = (w.comms.sequence + 1) % 2 ^ 16 };
}

abbrev pub boot_sent : {L : Type 0} → World L → World L
boot_sent w = record w { comms = record (w.comms) { boot_uplink_sent = true } }

abbrev pub fragments_needed : ℕ → ℕ → ℕ
fragments_needed total per_fragment = (total + per_fragment - 1) / per_fragment

module _ {L : Type 0} (c : Config) (link : Link L) (env : Env) where
  -- The header of `send_fragment`.
  unfoldable pub header_of : ℕ → ℕ → ℕ → Bool → World L → UplinkHeader
  header_of count fragment_index fragment_count is_heartbeat w = record {
    concentrator_id = c.concentrator_id;
    sequence = w.comms.sequence;
    fragment_index = fragment_index;
    fragment_count = fragment_count;
    record_count = count;
    dropped_adv_reports = saturate_to_u8 (env.dropped fragment_index);
    evicted_devices = saturate_to_u8 (get_evicted_count w.table);
    flags =
        (if c.report_boot_in_first_uplink && not w.comms.boot_uplink_sent then flag_boot else 0)
        + (if is_heartbeat then flag_heartbeat else 0);
  }

  -- A payload handed to the transport. The call blocks, whatever comes of it, and the acquisition
  -- thread goes on meanwhile.
  unfoldable pub offer : ℕ → List ℕ → World L → World L × LinkError
  offer fragment_index payload w =
      let (l, result) = link.send payload w.link in
      (
        record w {
          table = env.meanwhile fragment_index w.table;
          link = l;
          offered = payload ∷ w.offered;
        },
        result,
      )

  -- The rest of `send_fragment`, after a transport that accepted the fragment.
  unfoldable pub accepted : List Entry → ℕ → World L → World L
  accepted entries fragment_index w = record w {
    table = acknowledge w.table entries;
    comms = record (w.comms) { last_uplink_uptime_s = env.sent_s fragment_index };
  }

  -- `entries` are the `count` entries from `p_entries` on.
  unfoldable pub send_fragment : List Entry → ℕ → ℕ → ℕ → Bool → World L → World L × Bool
  unfolding header_of offer accepted records_bytes header_bytes
  send_fragment entries fragment_index fragment_count now_s is_heartbeat w =
      let payload =
        header_bytes (header_of (length entries) fragment_index fragment_count is_heartbeat w)
        ++ records_bytes entries now_s in
      let (w', result) = offer fragment_index payload w in
      elim result [ no_error ↦ (accepted entries fragment_index w', true) | _ ↦ (w', false) ]

  -- A header alone, under a sequence number of its own.
  unfoldable pub send_header : ℕ → World L → World L
  unfolding send_fragment
  send_header now_s w =
      let (w', sent) = send_fragment [] 0 1 now_s true (next_sequence w) in
      if sent then boot_sent w' else w'

  unfoldable pub send_heartbeat_if_due : World L → World L
  unfolding send_header
  send_heartbeat_if_due w =
      if c.heartbeat_max_silence_s == 0
      then w
      else if ltb (age env.heartbeat_s w.comms.last_uplink_uptime_s) c.heartbeat_max_silence_s
      then w
      else send_header env.heartbeat_s w

  unfoldable pub send_adr_probe : World L → World L
  unfolding offer
  send_adr_probe w = (offer 0 [] w).0

  -- The loop of `dispatch`: `rounds` fragments still to go from `fragment_index` on, with the
  -- entries not yet sent. The number counts the entries of the fragments that were accepted.
  unfoldable pub send_fragments : ℕ → ℕ → ℕ → ℕ → List Entry → World L → World L × ℕ
  unfolding send_fragment
  send_fragments per_fragment fragment_count zero fragment_index left w = (w, 0)
  send_fragments per_fragment fragment_count (suc rounds) fragment_index left w =
      let count = if ltb per_fragment (length left) then per_fragment else length left in
      let (w', sent) =
        send_fragment (take count left) fragment_index fragment_count env.now_s false w in
      let (w'', more) =
        send_fragments per_fragment fragment_count rounds (fragment_index + 1) (drop count left)
          w' in
      if sent then (w'', count + more) else (w', 0)

  -- `dispatch` from the snapshot on, with a snapshot that is not empty.
  unfoldable pub send_records : ℕ → List Entry → World L → World L
  unfolding send_fragments
  send_records per_fragment entries w =
      let needed = fragments_needed (length entries) per_fragment in
      let max_uplinks = link.get_max_uplinks_per_dispatch w.link in
      let allowed = if ltb max_uplinks needed then max_uplinks else needed in
      let count = allowed % 2 ^ 8 in
      let (w', sent) = send_fragments per_fragment count count 0 entries (next_sequence w) in
      if ltb 0 sent then boot_sent w' else w'

  -- The size of a snapshot decides between a heartbeat and a dispatch.
  unfoldable pub send_snapshot : ℕ → List Entry → World L → World L
  unfolding send_records send_heartbeat_if_due
  send_snapshot per_fragment [] w = send_heartbeat_if_due w
  send_snapshot per_fragment (e ∷ es) w = send_records per_fragment (e ∷ es) w

  unfoldable pub dispatch : World L → World L
  unfolding send_snapshot send_header send_adr_probe
  dispatch w =
      let available = link.get_available_payload_size w.link in
      let per_fragment = (available - header_size) / record_size % 2 ^ 8 in
      if not (link.is_connected w.link)
      then w
      else if leb (link.get_max_payload_size w.link) header_size
      then send_adr_probe w
      else if leb available header_size
      then w
      else if per_fragment == 0
      then send_header env.heartbeat_s w
      else send_snapshot per_fragment (snapshot c w.table env.snapshot_s c.max_devices) w

-- The service and the ports that it posts to.
pub record Node (L Q : Type 0) : Type 0 where
  pub world : World L
  pub bus : Bus Q

module _ {L : Type 0} (link : Link L) where
  -- `initialize`, after its thread and port have been set up; false is a transport that failed.
  unfoldable pub initialize : World L → World L × Bool
  initialize w =
      let (l, result) = link.initialize w.link in
      elim result [
        | no_error ↦
            (record w { link = l; comms = record (w.comms) { dispatch_enabled = false } }, true)
        | _ ↦ (record w { link = l }, false)
      ]

module _ {L Q : Type 0} (c : Config) (link : Link L) (env : Env) (os : MsgQueue Event Q)
    (debug : Bool) where
  unfoldable pub set_bus : World L → Run (Bus Q) → Run (Node L Q)
  set_bus w (running b) = running (record { world = w; bus = b })
  set_bus w (halted b) = halted (record { world = w; bus = b })

  -- The outcome of a join travels back to the application as an event.
  unfoldable pub join : Node L Q → Run (Node L Q)
  unfolding set_bus
  join n =
      let (l, result) = link.connect n.world.link in
      let outcome : ℕ = elim result [
        | no_error ↦ app_event_id network_joined
        | _ ↦ app_event_id network_join_failed
      ] in
      set_bus (record (n.world) { link = l }) (send_event os debug n.bus app_port outcome 0)

  unfoldable pub enable : World L → World L
  enable w = record w {
    comms = record (w.comms) {
      dispatch_enabled = true;
      dispatch_timer = start w.comms.dispatch_timer;
    };
  }

  unfoldable pub disable : World L → World L
  disable w = record w {
    comms = record (w.comms) {
      dispatch_enabled = false;
      dispatch_timer = stop w.comms.dispatch_timer;
    };
  }

  unfoldable pub dispatch_if_enabled : World L → World L
  unfolding dispatch
  dispatch_if_enabled w = if w.comms.dispatch_enabled then dispatch c link env w else w

  -- `Port::execute_event`.
  unfoldable pub execute_event : ℕ → Node L Q → Run (Node L Q)
  unfolding join enable disable dispatch_if_enabled
  execute_event id n =
      if id == comms_event_id join_network
      then join n
      else if id == comms_event_id start_dispatch
      then running (record n { world = enable n.world })
      else if id == comms_event_id stop_dispatch
      then running (record n { world = disable n.world })
      else if (id == comms_event_id dispatch_due) || (id == comms_event_id dispatch_now)
      then running (record n { world = dispatch_if_enabled n.world })
      else running n

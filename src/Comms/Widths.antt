-- ===== src/Comms/Widths.antt =====
-- What the uplink hands over is bytes, of the length that its own header announces; the statics and
-- the table stay within their widths.
use base_platform_zephyr_ble.Prelude.{
  ℕ, zero, suc, ◌+◌, ◌-◌, ◌*◌, ◌/◌, ◌%◌, ◌^◌, ◌<◌, ◌≡◌, refl, Bool, true, false, not, ◌⊎◌, inl, inr,
  List, [], ◌∷◌, length, length-take, take, drop, ltb, leb, ◌==◌, if◌then◌else◌, arith, All,
  All-append, All-take, All-drop, All-select, if-keeps,
}
use base_platform_zephyr_ble.Config.{Config}
use base_platform_zephyr_ble.Wire.{u8_at}
use base_platform_zephyr_ble.DeviceTable.{Entry, Table, snapshot, is_reportable, age}
use base_platform_zephyr_ble.DeviceTable.Snapshot.{snapshot-eq-take, reportable}
use base_platform_zephyr_ble.DeviceTable.Widths.{Bytes, EntryFits, TableFits, acknowledge-TableFits}
use base_platform_zephyr_ble.Link.{Link}
use base_platform_zephyr_ble.Comms.{
  World, Env, UplinkHeader, header_size, record_size, saturate_to_u8, to_record, header_bytes,
  record_bytes, records_bytes, header_of, next_sequence, boot_sent, send_fragment, send_header,
  send_heartbeat_if_due, send_adr_probe, send_fragments, send_records, send_snapshot, dispatch,
  fragments_needed, offer,
}
use base_platform_zephyr_ble.Comms.Wire.{AllAddressed}
use base_platform_zephyr_ble.Comms.Fragments.{
  packet, length-packet, Same, Fragment, taken, refused, send_fragment-Fragment,
}

-- A payload that a receiver can cut up: nothing at all, or a header and as many records as its
-- ninth byte says.
pub record Packet (p : List ℕ) : Type 0 where
  pub bytes : Bytes p
  pub shape : (p ≡ []) ⊎ (length p ≡ header_size + u8_at p 8 * record_size)

pub record WorldFits {L : Type 0} (w : World L) : Type 0 where
  pub table : TableFits w.table
  pub sequence : w.comms.sequence < 2 ^ 16
  pub last_uplink_uptime_s : w.comms.last_uplink_uptime_s < 2 ^ 32
  pub offered : All Packet w.offered

-- The uptime is a uint32_t, and what the acquisition thread does keeps the table's widths.
pub record EnvFits (env : Env) : Type 0 where
  pub sent_s : (i : ℕ) → env.sent_s i < 2 ^ 32
  pub meanwhile : (i : ℕ) (t : Table) → TableFits t → TableFits (env.meanwhile i t)

pub AllAddressed-fits : (es : List Entry) → All EntryFits es → AllAddressed es
AllAddressed-fits [] a = tt
AllAddressed-fits (e ∷ es) a = (a.0.address.size, AllAddressed-fits es a.1)

record_bytes-Bytes :
    (e : Entry) (now_s : ℕ) → EntryFits e → Bytes (record_bytes (to_record e now_s))
unfolding record_bytes
record_bytes-Bytes e now_s v =
    All-append (λ b. b < 2 ^ 8) e.address _ v.address.bytes
      (
        v.rssi,
        (
          omega arith,
          (
            omega arith,
            (
              v.reading.temperature,
              (
                v.reading.humidity,
                (
                  omega arith,
                  (
                    omega arith,
                    (
                      omega arith,
                      (
                        omega arith,
                        (
                          omega arith,
                          (
                            omega arith,
                            (
                              omega arith,
                              (
                                omega arith,
                                (
                                  omega arith,
                                  (
                                    omega arith,
                                    (
                                      omega arith,
                                      (
                                        omega arith,
                                        (omega arith, (omega arith, (v.reading.status_flags, tt))),
                                      ),
                                    ),
                                  ),
                                ),
                              ),
                            ),
                          ),
                        ),
                      ),
                    ),
                  ),
                ),
              ),
            ),
          ),
        ),
      )

records_bytes-Bytes :
    (es : List Entry) (now_s : ℕ) → All EntryFits es → Bytes (records_bytes es now_s)
unfolding records_bytes
records_bytes-Bytes [] now_s a = tt
records_bytes-Bytes (e ∷ es) now_s a =
    All-append (λ b. b < 2 ^ 8) (record_bytes (to_record e now_s)) (records_bytes es now_s)
      (record_bytes-Bytes e now_s a.0) (records_bytes-Bytes es now_s a.1)

-- The one-byte fields of a header.
record ByteFields (h : UplinkHeader) : Type 0 where
  fragment_index : h.fragment_index < 2 ^ 8
  fragment_count : h.fragment_count < 2 ^ 8
  record_count : h.record_count < 2 ^ 8
  dropped_adv_reports : h.dropped_adv_reports < 2 ^ 8
  evicted_devices : h.evicted_devices < 2 ^ 8
  flags : h.flags < 2 ^ 8

header_bytes-Bytes : (h : UplinkHeader) → ByteFields h → Bytes (header_bytes h)
unfolding header_bytes
header_bytes-Bytes h v = (
  omega arith,
  (
    omega arith,
    (
      omega arith,
      (
        omega arith,
        (
          omega arith,
          (
            omega arith,
            (
              v.fragment_index,
              (
                v.fragment_count,
                (v.record_count, (v.dropped_adv_reports, (v.evicted_devices, (v.flags, tt)))),
              ),
            ),
          ),
        ),
      ),
    ),
  ),
)

saturate_to_u8-lt : (n : ℕ) → saturate_to_u8 n < 2 ^ 8
saturate_to_u8-lt n = ground arith

module _ {L : Type 0} (c : Config) (link : Link L) (env : Env) where
  header_of-ByteFields :
      (count i n : ℕ) (beat : Bool) (w : World L)
      → count < 2 ^ 8
      → i < 2 ^ 8
      → n < 2 ^ 8
      → ByteFields (header_of c link env count i n beat w)
  unfolding header_of
  header_of-ByteFields count i n beat w h k m = record {
    fragment_index = k;
    fragment_count = m;
    record_count = h;
    dropped_adv_reports = saturate_to_u8-lt (env.dropped i);
    evicted_devices = saturate_to_u8-lt w.table.evicted_count;
    flags = ground arith;
  }

  packet-Packet :
      (es : List Entry) (i n now_s : ℕ) (beat : Bool) (w : World L)
      → All EntryFits es
      → length es < 2 ^ 8
      → i < 2 ^ 8
      → n < 2 ^ 8
      → Packet (packet c link env es i n now_s beat w)
  unfolding header_bytes header_of
  packet-Packet es i n now_s beat w a h k m = record {
    bytes =
        All-append (λ b. b < 2 ^ 8) (header_bytes (header_of c link env (length es) i n beat w))
          (records_bytes es now_s)
          (header_bytes-Bytes (header_of c link env (length es) i n beat w)
            (header_of-ByteFields (length es) i n beat w h k m))
          (records_bytes-Bytes es now_s a);
    shape = inr (length-packet c link env es i n now_s beat w (AllAddressed-fits es a));
  }

  Fragment-WorldFits :
      (es : List Entry) (i n now_s : ℕ) (beat sent : Bool) (w w' : World L)
      → EnvFits env
      → All EntryFits es
      → Packet (packet c link env es i n now_s beat w)
      → WorldFits w
      → Fragment c link env es i n now_s beat w w' sent
      → Same w w'
      → w'.offered ≡ packet c link env es i n now_s beat w ∷ w.offered
      → WorldFits w'
  Fragment-WorldFits es i n now_s beat sent w w' f a p v (taken good moved table last) same
        offered =
      record {
        table =
            rw table (
              acknowledge-TableFits (env.meanwhile i w.table) es a (f.meanwhile i w.table v.table));
        sequence = rw same.sequence v.sequence;
        last_uplink_uptime_s = rw last (f.sent_s i);
        offered = rw offered (p, v.offered);
      }
  Fragment-WorldFits es i n now_s beat sent w w' f a p v (refused bad table last) same offered =
      record {
        table = rw table (f.meanwhile i w.table v.table);
        sequence = rw same.sequence v.sequence;
        last_uplink_uptime_s = rw last v.last_uplink_uptime_s;
        offered = rw offered (p, v.offered);
      }

  send_fragment-WorldFits :
      (es : List Entry) (i n now_s : ℕ) (beat : Bool) (w : World L)
      → EnvFits env
      → All EntryFits es
      → length es < 2 ^ 8
      → i < 2 ^ 8
      → n < 2 ^ 8
      → WorldFits w
      → WorldFits (send_fragment c link env es i n now_s beat w).0
  send_fragment-WorldFits es i n now_s beat w f a h k m v =
      let (fragment, same, offered) = send_fragment-Fragment c link env es i n now_s beat w in
      Fragment-WorldFits es i n now_s beat (send_fragment c link env es i n now_s beat w).1 w
        (send_fragment c link env es i n now_s beat w).0 f a
        (packet-Packet es i n now_s beat w a h k m) v fragment same offered

  next_sequence-WorldFits : (w : World L) → WorldFits w → WorldFits (next_sequence w)
  next_sequence-WorldFits w v = record {
    table = v.table;
    sequence = omega arith;
    last_uplink_uptime_s = v.last_uplink_uptime_s;
    offered = v.offered;
  }

  boot_sent-WorldFits : (w : World L) → WorldFits w → WorldFits (boot_sent w)
  boot_sent-WorldFits w v = record {
    table = v.table;
    sequence = v.sequence;
    last_uplink_uptime_s = v.last_uplink_uptime_s;
    offered = v.offered;
  }

  -- `room` is the number of records of a fragment and `rounds` that of the fragments to go.
  send_fragments-WorldFits :
      (room n rounds i : ℕ) (left : List Entry) (w : World L)
      → EnvFits env
      → room < 2 ^ 8
      → n < 2 ^ 8
      → i + rounds < 2 ^ 8
      → All EntryFits left
      → WorldFits w
      → WorldFits (send_fragments c link env room n rounds i left w).0
  unfolding send_fragments
  send_fragments-WorldFits room n zero i left w f small m h a v = v
  send_fragments-WorldFits room n (suc rounds) i left w f small m h a v =
      let count : ℕ = if ltb room (length left) then room else length left in
      let fits : length (take count left) < 2 ^ 8 = ground (arith, length-take count left) in
      let (w', sent) = send_fragment c link env (take count left) i n env.now_s false w in
      let v' : WorldFits w' =
        send_fragment-WorldFits (take count left) i n env.now_s false w f
          (All-take EntryFits count left a) fits (omega arith) m v in
      if-keeps (λ (x : World L × ℕ). WorldFits x.0) sent
        (send_fragments-WorldFits room n rounds (i + 1) (drop count left) w' f small m (omega arith)
          (All-drop EntryFits count left a) v')
        v'

  send_records-WorldFits :
      (room : ℕ) (es : List Entry) (w : World L)
      → EnvFits env
      → room < 2 ^ 8
      → All EntryFits es
      → WorldFits w
      → WorldFits (send_records c link env room es w)
  unfolding send_records
  send_records-WorldFits room es w f small a v =
      let needed = fragments_needed (length es) room in
      let max_uplinks = link.get_max_uplinks_per_dispatch w.link in
      let count : ℕ = (if ltb max_uplinks needed then max_uplinks else needed) % 2 ^ 8 in
      let (w', sent) = send_fragments c link env room count count 0 es (next_sequence w) in
      let v' : WorldFits w' =
        send_fragments-WorldFits room count count 0 es (next_sequence w) f small (omega arith)
          (omega arith) a (next_sequence-WorldFits w v) in
      if-keeps WorldFits (ltb 0 sent) (boot_sent-WorldFits w' v') v'

  send_header-WorldFits :
      (now_s : ℕ) (w : World L)
      → EnvFits env
      → WorldFits w
      → WorldFits (send_header c link env now_s w)
  unfolding send_header
  send_header-WorldFits now_s w f v =
      let (w', sent) = send_fragment c link env [] 0 1 now_s true (next_sequence w) in
      let v' : WorldFits w' =
        send_fragment-WorldFits [] 0 1 now_s true (next_sequence w) f tt (omega arith) (omega arith)
          (omega arith) (next_sequence-WorldFits w v) in
      if-keeps WorldFits sent (boot_sent-WorldFits w' v') v'

  send_snapshot-WorldFits :
      (room : ℕ) (es : List Entry) (w : World L)
      → EnvFits env
      → room < 2 ^ 8
      → All EntryFits es
      → WorldFits w
      → WorldFits (send_snapshot c link env room es w)
  unfolding send_snapshot send_heartbeat_if_due
  send_snapshot-WorldFits room [] w f small a v =
      if-keeps WorldFits (c.heartbeat_max_silence_s == 0) v (
        if-keeps WorldFits
          (ltb (age env.heartbeat_s w.comms.last_uplink_uptime_s) c.heartbeat_max_silence_s) v
          (send_header-WorldFits env.heartbeat_s w f v))
  send_snapshot-WorldFits room (e ∷ es) w f small a v =
      send_records-WorldFits room (e ∷ es) w f small a v

  snapshot-EntryFits :
      (t : Table) (now_s room : ℕ) → TableFits t → All EntryFits (snapshot c t now_s room)
  snapshot-EntryFits t now_s room v = rw (snapshot-eq-take c t now_s room) (
      All-take EntryFits room (reportable c now_s t)
        (All-select EntryFits (is_reportable c now_s) t.entries v.entries))

  -- Whatever sizes and answers the transport gives: a dispatch on a world within its widths leaves
  -- it so, if the uptime is of 32 bits and what the acquisition thread does meanwhile keeps the
  -- table's widths. Every payload that was handed over is bytes, and is empty or as long as the
  -- record count in its own header says; every field of the table fits its type.
  pub dispatch-WorldFits :
      (w : World L) → EnvFits env → WorldFits w → WorldFits (dispatch c link env w)
  unfolding dispatch send_adr_probe offer
  dispatch-WorldFits w f v =
      let available = link.get_available_payload_size w.link in
      let room = (available - header_size) / record_size % 2 ^ 8 in
      if-keeps WorldFits (not (link.is_connected w.link)) v (
        if-keeps WorldFits (leb (link.get_max_payload_size w.link) header_size)
          (record {
            table = f.meanwhile 0 w.table v.table;
            sequence = v.sequence;
            last_uplink_uptime_s = v.last_uplink_uptime_s;
            offered = (record { bytes = tt; shape = inl refl }, v.offered);
          })
          (if-keeps WorldFits (leb available header_size) v (
            if-keeps WorldFits (room == 0) (send_header-WorldFits env.heartbeat_s w f v) (
              send_snapshot-WorldFits room (snapshot c w.table env.snapshot_s c.max_devices) w f
                (omega arith) (snapshot-EntryFits w.table env.snapshot_s c.max_devices v.table)
                v))))

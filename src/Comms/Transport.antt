-- ===== src/Comms/Transport.antt =====
-- What a dispatch keeps of the transport: a relation between the transport and the payloads handed
-- to it, if every send keeps it.
use base_platform_zephyr_ble.Prelude.{
  ℕ, zero, suc, ◌+◌, ◌-◌, ◌/◌, ◌%◌, ◌^◌, Bool, true, false, not, List, [], ◌∷◌, ◌++◌, length, take,
  drop, ltb, leb, ◌==◌, if◌then◌else◌,
}
use base_platform_zephyr_ble.Config.{Config}
use base_platform_zephyr_ble.DeviceTable.{Entry, snapshot, age}
use base_platform_zephyr_ble.Link.{
  Link, LinkError, no_error, not_ready, config_error, connect_error, payload_too_large, send_error,
}
use base_platform_zephyr_ble.Comms.{
  World, Env, header_size, record_size, header_of, header_bytes, records_bytes, offer, accepted,
  send_fragment, send_header, send_heartbeat_if_due, send_adr_probe, send_fragments, send_records,
  send_snapshot, dispatch, fragments_needed, next_sequence, boot_sent,
}

module _ {L : Type 0} (c : Config) (link : Link L) (env : Env) (R : L → List (List ℕ) → Type 0)
    (keeps : (payload : List ℕ) (l : L) (offered : List (List ℕ))
      → R l offered
      → R (link.send payload l).0 (payload ∷ offered)) where
  abbrev Holds : World L → Type 0
  Holds w = R w.link w.offered

  choice : (b : Bool) (w w' : World L) → Holds w → Holds w' → Holds (if b then w else w')
  choice true w w' h h' = h
  choice false w w' h h' = h'

  answered :
      (entries : List Entry) (i : ℕ) (w : World L) (e : LinkError)
      → Holds w
      → Holds
          (elim e as (λ e'. World L × Bool) [
            | no_error ↦ (accepted c link env entries i w, true)
            | _ ↦ (w, false)
          ]).0
  unfolding accepted
  answered entries i w no_error h = h
  answered entries i w not_ready h = h
  answered entries i w config_error h = h
  answered entries i w connect_error h = h
  answered entries i w payload_too_large h = h
  answered entries i w send_error h = h

  send_fragment-Holds :
      (entries : List Entry) (i n now_s : ℕ) (hb : Bool) (w : World L)
      → Holds w
      → Holds (send_fragment c link env entries i n now_s hb w).0
  unfolding send_fragment offer
  send_fragment-Holds entries i n now_s hb w h =
      let payload =
        header_bytes (header_of c link env (length entries) i n hb w)
        ++ records_bytes entries now_s in
      let (w', result) = offer c link env i payload w in
      answered entries i w' result (keeps payload w.link w.offered h)

  send_header-Holds : (now_s : ℕ) (w : World L) → Holds w → Holds (send_header c link env now_s w)
  unfolding send_header
  send_header-Holds now_s w h =
      let (w', sent) = send_fragment c link env [] 0 1 now_s true (next_sequence w) in
      let h' : Holds w' = send_fragment-Holds [] 0 1 now_s true (next_sequence w) h in
      choice sent (boot_sent w') w' h' h'

  send_heartbeat-Holds : (w : World L) → Holds w → Holds (send_heartbeat_if_due c link env w)
  unfolding send_heartbeat_if_due
  send_heartbeat-Holds w h = choice (c.heartbeat_max_silence_s == 0) w _ h (
      choice (ltb (age env.heartbeat_s w.comms.last_uplink_uptime_s) c.heartbeat_max_silence_s) w _
        h (send_header-Holds env.heartbeat_s w h))

  send_fragments-Holds :
      (per n rounds i : ℕ) (left : List Entry) (w : World L)
      → Holds w
      → Holds (send_fragments c link env per n rounds i left w).0
  unfolding send_fragments
  send_fragments-Holds per n zero i left w h = h
  send_fragments-Holds per n (suc rounds) i left w h =
      let count = if ltb per (length left) then per else length left in
      let (w', sent) = send_fragment c link env (take count left) i n env.now_s false w in
      let h' : Holds w' = send_fragment-Holds (take count left) i n env.now_s false w h in
      first_choice sent (send_fragments c link env per n rounds (i + 1) (drop count left) w') w'
        count (send_fragments-Holds per n rounds (i + 1) (drop count left) w' h') h'
    where
      first_choice :
          (b : Bool) (r : World L × ℕ) (w' : World L) (count : ℕ)
          → Holds r.0
          → Holds w'
          → (let chosen : World L × ℕ = if b then (r.0, count + r.1) else (w', 0) in Holds chosen.0)
      first_choice true r w' count h h' = h
      first_choice false r w' count h h' = h'

  send_snapshot-Holds :
      (per : ℕ) (es : List Entry) (w : World L)
      → Holds w
      → Holds (send_snapshot c link env per es w)
  unfolding send_snapshot send_records
  send_snapshot-Holds per [] w h = send_heartbeat-Holds w h
  send_snapshot-Holds per (e ∷ es) w h =
      let needed = fragments_needed (length (e ∷ es)) per in
      let max_uplinks = link.get_max_uplinks_per_dispatch w.link in
      let allowed = if ltb max_uplinks needed then max_uplinks else needed in
      let count = allowed % 2 ^ 8 in
      let (w', sent) = send_fragments c link env per count count 0 (e ∷ es) (next_sequence w) in
      let h' : Holds w' = send_fragments-Holds per count count 0 (e ∷ es) (next_sequence w) h in
      choice (ltb 0 sent) (boot_sent w') w' h' h'

  -- A relation between the transport and the payloads handed to it that every send keeps is kept by
  -- a dispatch.
  pub dispatch-keeps :
      (w : World L)
      → R w.link w.offered
      → R (dispatch c link env w).link (dispatch c link env w).offered
  unfolding dispatch send_adr_probe offer
  dispatch-keeps w h =
      let available = link.get_available_payload_size w.link in
      let per = (available - header_size) / record_size % 2 ^ 8 in
      choice (not (link.is_connected w.link)) w _ h (
        choice (leb (link.get_max_payload_size w.link) header_size) _ _
          (keeps [] w.link w.offered h)
          (choice (leb available header_size) w _ h (
            choice (per == 0) _ _ (send_header-Holds env.heartbeat_s w h)
              (send_snapshot-Holds per (snapshot c w.table env.snapshot_s c.max_devices) w h))))

-- ===== src/Link/Wifi.antt =====
-- src/hal/link/wifi/link_wifi.cpp: the association with an access point, over which the socket
-- transport runs. Zephyr's events come from another thread: those that are handled while the comms
-- thread waits are a list, and a wait is over in time exactly when one of them gave its semaphore.
-- What is logged is left out, but for the verdict of the diagnostic scan.
pub mod Associate
pub mod Scan
use base_platform_zephyr_ble.Prelude.{
  ℕ, zero, suc, ◌+◌, ◌-◌, ◌%◌, ◌^◌, Bool, true, false, not, ◌&&◌, ◌||◌, Option, none, some, List,
  [], ◌∷◌, length, ltb, ◌==◌, if◌then◌else◌, bytes_eq,
}
use base_platform_zephyr_ble.Link.Socket.Ipv4.{Addressing, Ipv4, Iface, take_address}
use base_platform_zephyr_ble.Link.{LinkError, no_error, not_ready, config_error, connect_error}

-- `struct wifi_scan_result`, as far as the handler keeps it. The rssi is a bit pattern.
pub record ScanResult : Type 0 where
  pub ssid : List ℕ
  pub band : ℕ
  pub channel : ℕ
  pub rssi : ℕ

-- The four events that the handler is registered for, with the payload behind the info pointer:
-- none is a null pointer. A status is whether it is zero.
pub data WifiEvent : Type 0 where
  scan_result : Option ScanResult → WifiEvent
  scan_done : WifiEvent
  connect_result disconnect_result : Option Bool → WifiEvent

-- The statics. A semaphore that saturates at one is a Boolean; the last status is left out, since
-- it is only logged.
pub record Wifi : Type 0 where
  pub scan_done : Bool
  pub scan_results : ℕ
  pub scan_found_target : Bool
  pub target : ScanResult
  pub associate_done : Bool
  pub associated : Bool
  pub associating : Bool
  pub events_registered : Bool

-- The part of config.hpp for this transport.
pub record WifiConfig : Type 0 where
  pub ssid : List ℕ
  pub psk : List ℕ
  pub ssid_max_len : ℕ

-- `p_status` is not null and its status is zero.
abbrev pub succeeded : Option Bool → Bool
succeeded none = false
succeeded (some zero_status) = zero_status

-- `s_associate_done.give`, while an attempt waits for it.
abbrev pub answer : Wifi → Wifi
answer w = if w.associating then record w { associate_done = true } else w

module _ (c : WifiConfig) where
  unfoldable pub note_result : ScanResult → Wifi → Wifi
  note_result r w =
      let w' =
        if (length r.ssid == length c.ssid) && bytes_eq r.ssid c.ssid
        then record w { scan_found_target = true; target = r }
        else w in
      if ltb w'.scan_results (2 ^ 16 - 1)
      then record w' { scan_results = (w'.scan_results + 1) % 2 ^ 16 }
      else w'

  unfoldable pub on_wifi_event : WifiEvent → Wifi → Wifi
  unfolding note_result
  on_wifi_event (scan_result none) w = w
  on_wifi_event (scan_result (some r)) w = note_result r w
  on_wifi_event scan_done w = record w { scan_done = true }
  on_wifi_event (connect_result status) w = answer (record w { associated = succeeded status })
  on_wifi_event (disconnect_result status) w = answer (record w { associated = false })

  -- The events that are handled one after the other.
  unfoldable pub handle : List WifiEvent → Wifi → Wifi
  unfolding on_wifi_event
  handle [] w = w
  handle (e ∷ es) w = handle es (on_wifi_event e w)

-- What `report_visible_networks` ends with in the log.
pub data Verdict : Type 0 where
  no_scan unfinished nothing_found on_air not_on_air : Verdict

-- What the stack and the air do during an association: whether the two requests are taken, and the
-- events that are handled during the two waits.
pub record Air : Type 0 where
  pub connect_taken : Bool
  pub events : List WifiEvent
  pub scan_taken : Bool
  pub scan_events : List WifiEvent

module _ (c : WifiConfig) (air : Air) where
  unfoldable pub report_visible_networks : Wifi → Wifi × Verdict
  report_visible_networks w =
      let w' = record w { scan_results = 0; scan_found_target = false; scan_done = false } in
      let heard = handle c air.scan_events w' in
      let taken = record heard { scan_done = false } in
      if not air.scan_taken
      then (w', no_scan)
      else if not heard.scan_done
      then (heard, unfinished)
      else if heard.scan_results == 0
      then (taken, nothing_found)
      else if heard.scan_found_target
      then (taken, on_air)
      else (taken, not_on_air)

  -- `associate` from its wait on, with what the events have left.
  unfoldable pub conclude : Wifi → Wifi × LinkError
  conclude heard =
      let waited = record heard { associating = false; associate_done = false } in
      if not heard.associate_done
      then (record heard { associating = false }, connect_error)
      else if not heard.associated
      then ((report_visible_networks waited).0, connect_error)
      else (waited, no_error)

  unfoldable pub associate : Wifi → Wifi × LinkError
  associate w =
      let w' = record w { associated = false; associate_done = false; associating = true } in
      if (length c.ssid == 0) || ltb c.ssid_max_len (length c.ssid)
      then (w, config_error)
      else if not air.connect_taken
      then (w', config_error)
      else conclude (handle c air.events w')

  -- `bring_up_network`: whether there is a Wi-Fi interface, and how it gets its address.
  unfoldable pub bring_up_network :
      Ipv4 → Addressing → Bool → Wifi × Iface → (Wifi × Iface) × LinkError
  bring_up_network net a has_interface (w, i) =
      let ready =
        if w.events_registered
        then w
        else record w { associate_done = false; scan_done = false; events_registered = true } in
      let (w', associated) = associate ready in
      let (i', addressed) = take_address net a i in
      if not has_interface
      then ((w, i), not_ready)
      else (elim associated [ no_error ↦ ((w', i'), addressed) | e ↦ ((w', i), e) ])

-- ===== src/Tests/Wifi.antt =====
-- The Wi-Fi association, its scan and the address of an interface at concrete inputs.
use base_platform_zephyr_ble.Prelude.{
  ◌&&◌, ◌≡◌, refl, true, false, none, some, [], ◌∷◌, leb, arith, length,
}
use base_platform_zephyr_ble.Link.{no_error}
use base_platform_zephyr_ble.Link.Wifi.{
  ScanResult, scan_result, scan_done, disconnect_result, Wifi, WifiConfig, Air, associate,
  report_visible_networks,
}
use base_platform_zephyr_ble.Link.Wifi.Associate.{last_word, outcome, associate_lem}
use base_platform_zephyr_ble.Link.Wifi.Scan.{verdict, report_visible_networks-verdict}
use base_platform_zephyr_ble.Link.Socket.Ipv4.{
  Addressing, Ipv4, Iface, take_address, Took, take_address-Took,
}

abbrev wifi : WifiConfig
wifi = record { ssid = 104 ∷ 105 ∷ []; psk = []; ssid_max_len = 32 }

abbrev home : ScanResult
home = record { ssid = 104 ∷ 105 ∷ []; band = 0; channel = 6; rssi = 200 }

-- A refusal that comes as a disconnection, and a scan that sees the network.
abbrev air : Air
air = record {
  connect_taken = true;
  events = disconnect_result (some false) ∷ [];
  scan_taken = true;
  scan_events = scan_result (some home) ∷ scan_done ∷ [];
}

-- An earlier attempt has left an answer behind.
abbrev stale : Wifi
stale = record {
  scan_done = true;
  scan_results = 3;
  scan_found_target = false;
  target = home;
  associate_done = true;
  associated = true;
  associating = true;
  events_registered = true;
}

associate_lem_example :
    ((associate wifi air stale).1 ≡ outcome (last_word air.events))
    × ((associate wifi air stale).0.associating ≡ false)
    × (((associate wifi air stale).1 ≡ no_error) → (associate wifi air stale).0.associated ≡ true)
associate_lem_example = associate_lem wifi air stale (omega arith) (omega arith) refl

report_visible_networks-verdict_example :
    (report_visible_networks wifi air stale).1 ≡ verdict wifi air.scan_taken air.scan_events
report_visible_networks-verdict_example = report_visible_networks-verdict wifi air stale

abbrev lease_at_third : Ipv4
lease_at_third = record {
  net_addr_pton = λ text. some (length text);
  adds = true;
  appears = λ i poll. i.dhcp_started && leb 2 poll;
}

abbrev dhcp : Addressing
dhcp = record { use_dhcp = true; local_ip = []; netmask = []; gateway = [] }

abbrev bare : Iface
bare = record { address = none; netmask = none; gateway = none; dhcp_started = false }

take_address-Took_example :
    Took lease_at_third dhcp
      (take_address lease_at_third dhcp bare).0
      (take_address lease_at_third dhcp bare).1
take_address-Took_example = take_address-Took lease_at_third dhcp bare

-- ===== src/Link/Wifi/Scan.antt =====
-- The verdict of the diagnostic scan, by the events that come in.
use base_platform_zephyr_ble.Prelude.{
  ◌≡◌, Bool, true, false, not, ◌&&◌, ◌||◌, none, some, List, [], ◌∷◌, length, ◌==◌, if◌then◌else◌,
  bytes_eq, arith,
}
use base_platform_zephyr_ble.Link.Wifi.{
  WifiEvent, scan_result, scan_done, connect_result, disconnect_result, Wifi, WifiConfig,
  note_result, on_wifi_event, handle, Verdict, no_scan, unfinished, nothing_found, on_air,
  not_on_air, Air, report_visible_networks,
}

-- Whether one of the events passes a test.
unfoldable pub any : (WifiEvent → Bool) → List WifiEvent → Bool
any p [] = false
any p (e ∷ es) = p e || any p es

abbrev pub is_done : WifiEvent → Bool
is_done scan_done = true
is_done (scan_result r) = false
is_done (connect_result s) = false
is_done (disconnect_result s) = false

abbrev pub is_network : WifiEvent → Bool
is_network (scan_result (some r)) = true
is_network (scan_result none) = false
is_network scan_done = false
is_network (connect_result s) = false
is_network (disconnect_result s) = false

module _ (c : WifiConfig) where
  abbrev pub is_target : WifiEvent → Bool
  is_target (scan_result (some r)) = (length r.ssid == length c.ssid) && bytes_eq r.ssid c.ssid
  is_target (scan_result none) = false
  is_target scan_done = false
  is_target (connect_result s) = false
  is_target (disconnect_result s) = false

  record Seen (es : List WifiEvent) (w w' : Wifi) : Type 0 where
    pub done : w'.scan_done ≡ (w.scan_done || any is_done es)
    pub found : w'.scan_found_target ≡ (w.scan_found_target || any is_target es)
    pub count : (w'.scan_results == 0) ≡ ((w.scan_results == 0) && not (any is_network es))

  on_wifi_event-Seen : (e : WifiEvent) (w : Wifi) → Seen (e ∷ []) w (on_wifi_event c e w)
  unfolding on_wifi_event note_result any
  on_wifi_event-Seen (scan_result none) w = record {
    done = ground arith;
    found = ground arith;
    count = ground arith;
  }
  on_wifi_event-Seen (scan_result (some r)) w = record {
    done = ground arith;
    found = ground arith;
    count = ground arith;
  }
  on_wifi_event-Seen scan_done w = record {
    done = ground arith;
    found = ground arith;
    count = ground arith;
  }
  on_wifi_event-Seen (connect_result status) w = record {
    done = ground arith;
    found = ground arith;
    count = ground arith;
  }
  on_wifi_event-Seen (disconnect_result status) w = record {
    done = ground arith;
    found = ground arith;
    count = ground arith;
  }

  -- The events in front, and then the others.
  then_Seen :
      (e : WifiEvent) (es : List WifiEvent) (w w' w'' : Wifi)
      → Seen (e ∷ []) w w'
      → Seen es w' w''
      → Seen (e ∷ es) w w''
  unfolding any
  then_Seen e es w w' w'' s t = record {
    done = ground (arith, s.done, t.done);
    found = ground (arith, s.found, t.found);
    count = ground (arith, s.count, t.count);
  }

  handle-Seen : (es : List WifiEvent) (w : Wifi) → Seen es w (handle c es w)
  unfolding handle any
  handle-Seen [] w = record { done = ground arith; found = ground arith; count = ground arith }
  handle-Seen (e ∷ es) w =
      let w' = on_wifi_event c e w in
      then_Seen e es w w' (handle c es w') (on_wifi_event-Seen e w) (handle-Seen es w')

-- What the scan should say of the events that it waited for.
abbrev pub verdict : WifiConfig → Bool → List WifiEvent → Verdict
verdict c taken es =
    if not taken
    then no_scan
    else if not (any is_done es)
    then unfinished
    else if not (any is_network es)
    then nothing_found
    else if any (is_target c) es
    then on_air
    else not_on_air

-- Whatever earlier scans have left in the statics: the diagnostic scan says that the configured
-- network is on the air exactly when the stack took the scan, reported its end within the wait, and
-- reported a network with that name, and tells the other cases apart.
pub report_visible_networks-verdict :
    (c : WifiConfig) (air : Air) (w : Wifi)
    → (report_visible_networks c air w).1 ≡ verdict c air.scan_taken air.scan_events
unfolding report_visible_networks
report_visible_networks-verdict c air w =
    let w' = record w { scan_results = 0; scan_found_target = false; scan_done = false } in
    let s = handle-Seen c air.scan_events w' in ground (arith, s.done, s.found, s.count)

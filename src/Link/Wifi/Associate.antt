-- ===== src/Link/Wifi/Associate.antt =====
-- How an association and the scan after it end, by the events that come in.
use base_platform_zephyr_ble.Prelude.{
  ◌<◌, ◌≤◌, ◌≡◌, refl, ◌∙◌, Bool, true, false, ◌||◌, Option, none, some, List, [], ◌∷◌, length, ltb,
  ◌==◌, arith,
}
use base_platform_zephyr_ble.Link.{LinkError, no_error, connect_error}
use base_platform_zephyr_ble.Link.Wifi.{
  ScanResult, WifiEvent, scan_result, scan_done, connect_result, disconnect_result, Wifi,
  WifiConfig, succeeded, answer, note_result, handle, Air, report_visible_networks, conclude,
  associate,
}

-- The access point's last word: the latest event that reports an association or its end.
unfoldable pub last_word : List WifiEvent → Option Bool
last_word [] = none
last_word (e ∷ es) =
    let later = last_word es in
    let now : Option Bool = elim e [
      | connect_result status ↦ some (succeeded status)
      | disconnect_result status ↦ some false
      | _ ↦ none
    ] in
    elim later [ some b ↦ some b | none ↦ now ]

abbrev pub or_else : Option Bool → Bool → Bool
or_else none b = b
or_else (some a) b = a

abbrev pub is_some : Option Bool → Bool
is_some none = false
is_some (some a) = true

abbrev pub outcome : Option Bool → LinkError
outcome none = connect_error
outcome (some false) = connect_error
outcome (some true) = no_error

module _ (c : WifiConfig) where
  note_result-eq :
      (r : ScanResult) (w : Wifi)
      → ((note_result c r w).associating ≡ w.associating)
        × ((note_result c r w).associate_done ≡ w.associate_done)
        × ((note_result c r w).associated ≡ w.associated)
  unfolding note_result
  note_result-eq r w = (ground arith, ground arith, ground arith)

  -- What the handler leaves behind, while an attempt waits.
  record Heard (es : List WifiEvent) (w w' : Wifi) : Type 0 where
    pub associating : w'.associating ≡ true
    pub answered : w'.associate_done ≡ (w.associate_done || is_some (last_word es))
    pub associated : w'.associated ≡ or_else (last_word es) w.associated

  handle-Heard :
      (es : List WifiEvent) (w : Wifi) → w.associating ≡ true → Heard es w (handle c es w)
  unfolding handle last_word
  handle-Heard [] w a = record { associating = a; answered = ground arith; associated = refl }
  handle-Heard (scan_result none ∷ es) w a =
      let h = handle-Heard es w a in
      record { associating = h.associating; answered = ground arith; associated = ground arith }
  handle-Heard (scan_result (some r) ∷ es) w a =
      let (e1, e2, e3) = note_result-eq r w in
      let h = handle-Heard es (note_result c r w) (e1 ∙ a) in
      record { associating = h.associating; answered = ground arith; associated = ground arith }
  handle-Heard (scan_done ∷ es) w a =
      let h = handle-Heard es (record w { scan_done = true }) a in
      record { associating = h.associating; answered = ground arith; associated = ground arith }
  handle-Heard (connect_result status ∷ es) w a =
      let h =
        handle-Heard es (answer (record w { associated = succeeded status })) (ground arith) in
      record { associating = h.associating; answered = ground arith; associated = ground arith }
  handle-Heard (disconnect_result status ∷ es) w a =
      let h = handle-Heard es (answer (record w { associated = false })) (ground arith) in
      record { associating = h.associating; answered = ground arith; associated = ground arith }

  -- Only `associate` starts and ends an attempt.
  handle-associating :
      (es : List WifiEvent) (w : Wifi) → (handle c es w).associating ≡ w.associating
  unfolding handle
  handle-associating [] w = refl
  handle-associating (scan_result none ∷ es) w = handle-associating es w
  handle-associating (scan_result (some r) ∷ es) w =
      handle-associating es (note_result c r w) ∙ (note_result-eq r w).0
  handle-associating (scan_done ∷ es) w = handle-associating es (record w { scan_done = true })
  handle-associating (connect_result status ∷ es) w =
      handle-associating es (answer (record w { associated = succeeded status })) ∙ ground arith
  handle-associating (disconnect_result status ∷ es) w =
      handle-associating es (answer (record w { associated = false })) ∙ ground arith

module _ (c : WifiConfig) (air : Air) where
  report_visible_networks-associating :
      (w : Wifi) → (report_visible_networks c air w).0.associating ≡ w.associating
  unfolding report_visible_networks
  report_visible_networks-associating w =
      let same =
        handle-associating c air.scan_events
          (record w { scan_results = 0; scan_found_target = false; scan_done = false }) in
      ground arith

  conclude_lem :
      (word : Option Bool) (w : Wifi)
      → w.associate_done ≡ is_some word
      → w.associated ≡ or_else word false
      → ((conclude c air w).1 ≡ outcome word)
        × ((conclude c air w).0.associating ≡ false)
        × (((conclude c air w).1 ≡ no_error) → (conclude c air w).0.associated ≡ true)
  unfolding conclude
  conclude_lem none w d a = (ground arith, ground arith, ground arith)
  conclude_lem (some true) w d a = (ground arith, ground arith, ground arith)
  conclude_lem (some false) w d a =
      let same =
        report_visible_networks-associating
          (record w { associating = false; associate_done = false }) in
      (ground arith, ground arith, ground arith)

  -- With a name of an allowed length and a request that the stack takes, whatever earlier attempts
  -- and late events have left in the statics: an association succeeds exactly when the access
  -- point's last word within the wait is that it did, a silent access point and a refusal or a
  -- disconnection are connect errors, and no attempt is left open.
  pub associate_lem :
      (w : Wifi)
      → 0 < length c.ssid
      → length c.ssid ≤ c.ssid_max_len
      → air.connect_taken ≡ true
      → ((associate c air w).1 ≡ outcome (last_word air.events))
        × ((associate c air w).0.associating ≡ false)
        × (((associate c air w).1 ≡ no_error) → (associate c air w).0.associated ≡ true)
  unfolding associate conclude report_visible_networks
  associate_lem w named fits taken =
      let w' = record w { associated = false; associate_done = false; associating = true } in
      let h = handle-Heard c air.events w' refl in
      let valid : ((length c.ssid == 0) || ltb c.ssid_max_len (length c.ssid)) ≡ false =
        ground arith in
      rw (valid, taken)
        (conclude_lem (last_word air.events) (handle c air.events w') h.answered h.associated)

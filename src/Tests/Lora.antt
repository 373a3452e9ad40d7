-- ===== src/Tests/Lora.antt =====
-- The LoRaWAN transport at concrete inputs.
use base_platform_zephyr_ble.Prelude.{
  ℕ, ◌≤◌, ◌+◌, ◌≡◌, ◌↔◌, refl, true, some, List, [], ◌∷◌, length, replicate, arith,
}
use base_platform_zephyr_ble.Link.Lora.{
  join_config, resolve_dev_eui, LoraLink, lora_link_new, lora_link, connect, downlink_callback,
  Downlink,
}
use base_platform_zephyr_ble.Link.Lora.Hex.{parse_hex, parse_hex_iff, Reads}
use base_platform_zephyr_ble.Link.Lora.Downlinks.{Copied, downlink_callback-Copied}
use base_platform_zephyr_ble.Link.Lora.Order.{
  Op, initializes, connects, sends, registers, run, Inv, run-Ordered,
}
use base_platform_zephyr_ble.Link.Lora.Uplinks.{transmissions, dispatch-transmissions}
use base_platform_zephyr_ble.Comms.{World, dispatch}
use base_platform_zephyr_ble.Comms.Dispatch.{Ready}
use base_platform_zephyr_ble.Tests.Fixtures.{two_slots, full_table, calm_env, started, radio, lora}

-- "Fe".
parse_hex_iff_example :
    (parse_hex (some (70 ∷ 101 ∷ [])) 1 ≡ some (254 ∷ []))
    ↔ ((length {A = ℕ} (70 ∷ 101 ∷ []) ≡ 2) × Reads 1 (70 ∷ 101 ∷ []) (254 ∷ []))
parse_hex_iff_example = parse_hex_iff (some (70 ∷ 101 ∷ [])) 1 (254 ∷ [])

abbrev downlinked : List ℕ
downlinked = replicate 100 9

downlink_callback-Copied_example :
    (d : Downlink) × (downlink_callback (some 3) 1 200 5 100 (some downlinked) ≡ some (3, d))
    × (d.port ≡ 1)
    × (d.rssi ≡ 200)
    × (d.snr ≡ 5)
    × Copied 100 downlinked d
downlink_callback-Copied_example =
    downlink_callback-Copied 3 1 200 5 100 downlinked (omega arith) (omega arith)

abbrev ops : List Op
ops = initializes ∷ registers 4 ∷ sends [] ∷ connects ∷ sends (1 ∷ 2 ∷ []) ∷ []

run-Ordered_example : Inv radio lora (run radio lora ops lora_link_new)
run-Ordered_example = run-Ordered radio lora ops

abbrev joined : LoraLink
joined = run radio lora (connects ∷ []) lora_link_new

joined_is : joined.is_joined ≡ true
unfolding run connect join_config parse_hex resolve_dev_eui
joined_is = refl

abbrev on_air : World LoraLink
on_air = record { comms = started; table = full_table; link = joined; offered = [] }

on_air-Ready : Ready two_slots (lora_link radio lora) calm_env on_air
on_air-Ready = record {
  available = rw joined_is (omega arith);
  uplinks = omega arith;
  addressed = (refl, (refl, tt));
}

dispatch-transmissions_example :
    (transmissions (dispatch two_slots (lora_link radio lora) calm_env on_air).link.calls
      ≤ transmissions joined.calls + 1)
    × Inv radio lora (dispatch two_slots (lora_link radio lora) calm_env on_air).link
dispatch-transmissions_example =
    dispatch-transmissions radio lora two_slots calm_env on_air on_air-Ready (omega arith)
      (run-Ordered radio lora (connects ∷ []))

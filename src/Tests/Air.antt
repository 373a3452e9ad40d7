-- ===== src/Tests/Air.antt =====
-- Deliveries over the LoRaWAN transport itself, on a link that has joined.
use base_platform_zephyr_ble.Prelude.{
  ◌≡◌, refl, true, false, none, some, [], ◌∷◌, Any, arith, bytes_eq,
}
use base_platform_zephyr_ble.Eda.{Event, running}
use base_platform_zephyr_ble.App.{in_listening, constructed}
use base_platform_zephyr_ble.Hal.Ble.{AdvReport}
use base_platform_zephyr_ble.DeviceTable.{Entry, Table, snapshot, upsert}
use base_platform_zephyr_ble.Link.{Link}
use base_platform_zephyr_ble.Link.Lora.{LoraLink, lora_link_new, lora_link}
use base_platform_zephyr_ble.Link.Lora.Accepts.{send_accepts}
use base_platform_zephyr_ble.Comms.{World, to_record, dispatch}
use base_platform_zephyr_ble.Comms.Dispatch.{Ready}
use base_platform_zephyr_ble.Comms.Complete.{Smooth}
use base_platform_zephyr_ble.Comms.Carried.{Carries, dispatch-Carried}
use base_platform_zephyr_ble.System.{dispatch_expires, comms_turn}
use base_platform_zephyr_ble.Concentrator.{Device, core_turn, advertisement, acquisition_turn, run}
use base_platform_zephyr_ble.Concentrator.Delivery.{Delivered, advertisement-Delivered}
use base_platform_zephyr_ble.Concentrator.Delivery.Steps.{world_after}
use base_platform_zephyr_ble.Tests.Fixtures.{
  Items, list_queue, two_slots, dark, one_heard, one_heard-Inv, full_table, full_table-Inv, heard,
  calm_env, started, address_a, address_b, radio, lora,
}
use base_platform_zephyr_ble.Tests.Lights.{healthy}
use base_platform_zephyr_ble.Tests.Radio.{frame}
use base_platform_zephyr_ble.Tests.Device.{
  four_ports, four_ports-acquisition, four_ports-comms, aired, aired-Advertised,
}

abbrev air : Link LoraLink
air = lora_link radio (record lora { max_uplinks_per_dispatch = 3 })

abbrev joined : LoraLink
joined = record lora_link_new { is_joined = true }

abbrev air_world : Table → World LoraLink
air_world t = record { comms = started; table = t; link = joined; offered = [] }

air-Ready : Ready two_slots air calm_env (air_world full_table)
air-Ready = record {
  available = omega arith;
  uplinks = omega arith;
  addressed = (refl, (refl, tt));
}

air-Smooth : Smooth two_slots air calm_env (air_world full_table)
unfolding snapshot
air-Smooth = record {
  joined = refl;
  rate = omega arith;
  size = omega arith;
  uplinks = omega arith;
  accepts =
      send_accepts radio (record lora { max_uplinks_per_dispatch = 3 }) joined refl (λ k. refl)
        (λ k. refl) (λ k. refl);
  calm = λ j u. refl;
}

abbrev reported : Entry
reported = record (heard address_a 10 1) { reported_seq = 1 }

dispatch-Carried_example :
    Any
      (Carries (to_record (heard address_a 10 1) 20))
      (dispatch two_slots air calm_env (air_world full_table)).offered
unfolding bytes_eq
dispatch-Carried_example =
    dispatch-Carried two_slots air calm_env (air_world full_table) address_a (heard address_a 10 1)
      air-Ready air-Smooth full_table-Inv refl refl

abbrev listening : Device (Items AdvReport) (Items Event) LoraLink
listening = record {
  core = record {
    app = record (constructed four_ports dark) {
      machine = record { current = some in_listening; previous = none; next = none };
      current_state_id = in_listening;
    };
    world = air_world one_heard;
  };
  acquisition = record { report_pool = record { items = []; limit = 4 }; dropped_report_count = 0 };
  ble = record { is_initialized = true; is_scanning = true };
  diagnostics = healthy;
}

-- The uplink's world once the advertisement is in the table.
abbrev heard_world : World LoraLink
heard_world =
    world_after two_slots air list_queue list_queue listening (λ i. 15) address_b 200 frame

heard-Ready : Ready two_slots air calm_env heard_world
unfolding upsert bytes_eq
heard-Ready = record {
  available = omega arith;
  uplinks = omega arith;
  addressed = (refl, (refl, tt));
}

heard-Smooth : Smooth two_slots air calm_env heard_world
unfolding upsert bytes_eq snapshot
heard-Smooth = record {
  joined = refl;
  rate = omega arith;
  size = omega arith;
  uplinks = omega arith;
  accepts =
      send_accepts radio (record lora { max_uplinks_per_dispatch = 3 }) joined refl (λ k. refl)
        (λ k. refl) (λ k. refl);
  calm = λ j u. refl;
}

advertisement-Delivered_example :
    (d' : Device (Items AdvReport) (Items Event) LoraLink) × (run two_slots air list_queue
        list_queue false
        (advertisement address_b 1 200 aired
          ∷ acquisition_turn (λ i. 15) 0
          ∷ core_turn dispatch_expires
          ∷ core_turn (comms_turn calm_env)
          ∷ [])
        listening
      ≡ running d')
    × Delivered calm_env address_b 200 frame d'
unfolding bytes_eq
advertisement-Delivered_example =
    advertisement-Delivered two_slots air list_queue list_queue listening (λ i. 15) 0 address_b 1
      200 aired frame calm_env (omega arith) one_heard-Inv (omega arith) four_ports-acquisition
      four_ports-comms refl aired-Advertised (omega arith) (λ e h. cc) heard-Ready heard-Smooth

-- ===== src/Tests/Uplink.antt =====
-- Dispatches over the scripted transport.
use base_platform_zephyr_ble.Prelude.{ℕ, ◌≡◌, refl, true, false, List, [], ◌∷◌, arith}
use base_platform_zephyr_ble.Eda.{Event, running}
use base_platform_zephyr_ble.Events.{comms_event_id, dispatch_due, dispatch_now, stop_dispatch}
use base_platform_zephyr_ble.Link.{Link}
use base_platform_zephyr_ble.Comms.{Node, UplinkHeader, dispatch}
use base_platform_zephyr_ble.Comms.Dispatch.{Ready}
use base_platform_zephyr_ble.Comms.Delivered.{
  Offers, dispatch-Offers, Unacknowledged, dispatch_refused,
}
use base_platform_zephyr_ble.Comms.Silence.{run, Quiet, run-Unjoined, run_stopped}
use base_platform_zephyr_ble.Tests.Fixtures.{
  two_slots, full_table, Items, list_queue, scripted, calm_env, world, node,
}

abbrev good_link : Link ℕ
good_link = scripted true true 51

abbrev bad_link : Link ℕ
bad_link = scripted true false 51

abbrev loose_link : Link ℕ
loose_link = scripted false true 51

good-Ready : Ready two_slots good_link calm_env (world full_table)
good-Ready = record {
  available = omega arith;
  uplinks = omega arith;
  addressed = (refl, (refl, tt));
}

bad-Ready : Ready two_slots bad_link calm_env (world full_table)
bad-Ready = record {
  available = omega arith;
  uplinks = omega arith;
  addressed = (refl, (refl, tt));
}

dispatch-Offers_example :
    Offers two_slots good_link calm_env 51 3
      (world full_table)
      (dispatch two_slots good_link calm_env (world full_table))
dispatch-Offers_example = dispatch-Offers two_slots good_link calm_env (world full_table) good-Ready

dispatch_refused_example :
    Unacknowledged two_slots bad_link calm_env
      (world full_table)
      (dispatch two_slots bad_link calm_env (world full_table))
dispatch_refused_example =
    dispatch_refused two_slots bad_link calm_env (world full_table) bad-Ready (λ p l e. cc)

abbrev header : UplinkHeader
header = record {
  concentrator_id = 0x01020304;
  sequence = 700;
  fragment_index = 0;
  fragment_count = 2;
  record_count = 1;
  dropped_adv_reports = 255;
  evicted_devices = 3;
  flags = 1;
}

abbrev due : List ℕ
due = comms_event_id dispatch_due ∷ comms_event_id dispatch_now ∷ []

run-Unjoined_example :
    (n' : Node ℕ (Items Event)) × (run two_slots loose_link calm_env list_queue true due
        (node full_table)
      ≡ running n')
    × Quiet two_slots loose_link calm_env list_queue true (node full_table) n'
run-Unjoined_example =
    run-Unjoined two_slots loose_link calm_env list_queue true due (node full_table)
      ((λ e. cc), ((λ e. cc), tt)) refl

run_stopped_example :
    (n' : Node ℕ (Items Event)) × (run two_slots good_link calm_env list_queue true
        (comms_event_id stop_dispatch ∷ due)
        (node full_table)
      ≡ running n')
    × Quiet two_slots good_link calm_env list_queue true (node full_table) n'
run_stopped_example =
    run_stopped two_slots good_link calm_env list_queue true due (node full_table)
      ((λ e. cc), ((λ e. cc), tt)) ((λ e. cc), ((λ e. cc), tt))

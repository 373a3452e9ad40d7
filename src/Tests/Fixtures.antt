-- ===== src/Tests/Fixtures.antt =====
-- The values that the tests share: a small table, a list as message queue, a scripted transport.
use base_platform_zephyr_ble.Prelude.{
  replicate, ℕ, suc, ◌<◌, ◌≤◌, ◌≡◌, refl, Bool, true, false, ◌⊎◌, inl, inr, Option, none, some,
  List, [], ◌∷◌, ◌++◌, length, ltb, if◌then◌else◌, arith, Bool-cases, bytes_eq,
}
use base_platform_zephyr_ble.Config.{Config}
use base_platform_zephyr_ble.DeviceTable.{Reading, Entry, Table, empty_entry, empty_reading}
use base_platform_zephyr_ble.DeviceTable.Upsert.{Inv}
use base_platform_zephyr_ble.Eda.{
  Event, MsgQueue, Bus, start_up, put_slot, app_port, acquisition_port, comms_port,
}
use base_platform_zephyr_ble.Eda.Timer.{timer}
use base_platform_zephyr_ble.Fault.{no_report}
use base_platform_zephyr_ble.Hal.Gpio.{gpio}
use base_platform_zephyr_ble.Hal.Led.{Led, led}
use base_platform_zephyr_ble.Link.Lora.{Radio, LoraConfig}
use base_platform_zephyr_ble.Link.{Link, no_error, send_error}
use base_platform_zephyr_ble.Comms.{Comms, World, Env, Node}

abbrev pub two_slots : Config
two_slots = record {
  max_devices = 2;
  adv_report_pool_size = 4;
  expected_company_id = 0x59;
  device_stale_after_s = 300;
  heartbeat_max_silence_s = 900;
  concentrator_id = 7;
  report_boot_in_first_uplink = true;
}

abbrev pub address_a : List ℕ
address_a = 1 ∷ 2 ∷ 3 ∷ 4 ∷ 5 ∷ 6 ∷ []

abbrev pub address_b : List ℕ
address_b = 1 ∷ 2 ∷ 3 ∷ 4 ∷ 5 ∷ 7 ∷ []

abbrev pub address_c : List ℕ
address_c = 9 ∷ 2 ∷ 3 ∷ 4 ∷ 5 ∷ 7 ∷ []

abbrev pub warm : Reading
warm = record empty_reading { temperature = 21; battery_mv = 3000 }

abbrev pub heard : List ℕ → ℕ → ℕ → Entry
heard address seen seq = record empty_entry {
  address = address;
  rssi = 200;
  reading = warm;
  last_seen_uptime_s = seen;
  update_seq = seq;
  in_use = true;
}

abbrev pub one_heard : Table
one_heard = record { entries = heard address_a 10 1 ∷ empty_entry ∷ []; evicted_count = 0 }

abbrev pub full_table : Table
full_table = record { entries = heard address_a 10 1 ∷ heard address_b 5 2 ∷ []; evicted_count = 0 }

pub one_heard-Inv : Inv two_slots one_heard
unfolding bytes_eq
one_heard-Inv = record {
  size = refl;
  distinct = ((λ u. refl), ((λ u. refl), tt));
  counted = omega arith;
}

pub full_table-Inv : Inv two_slots full_table
unfolding bytes_eq
full_table-Inv = record {
  size = refl;
  distinct = ((λ u. refl), ((λ u. refl), tt));
  counted = omega arith;
}

-- A message queue that is a list.
pub record Items (A : Type 0) : Type 0 where
  pub items : List A
  pub limit : ℕ

abbrev put_item : {A : Type 0} → Items A → A → Option (Items A)
put_item q a =
    if ltb (length q.items) q.limit then some (record q { items = q.items ++ (a ∷ []) }) else none

abbrev take_item : {A : Type 0} → List A → ℕ → Option (A × Items A)
take_item [] n = none
take_item (a ∷ rest) n = some (a, record { items = rest; limit = n })

pub put_item_lem :
    {A : Type 0} (q : Items A) (a : A)
    → ((length q.items < q.limit)
        × ((q' : Items A) × (put_item q a ≡ some q')
            × (q'.items ≡ q.items ++ (a ∷ []))
            × (q'.limit ≡ q.limit)))
      ⊎ ((q.limit ≤ length q.items) × (put_item q a ≡ none))
put_item_lem q a = elim (Bool-cases (ltb (length q.items) q.limit)) [
  | inl h ↦ inl (ground arith, (record q { items = q.items ++ (a ∷ []) }, rw h refl, refl, refl))
  | inr h ↦ inr (ground arith, rw h refl)
]

pub take_item_lem :
    {A : Type 0} (rest : List A) (n : ℕ)
    → ((rest ≡ []) × (take_item rest n ≡ none))
      ⊎ ((a : A) × (q' : Items A) × (take_item rest n ≡ some (a, q'))
          × (rest ≡ a ∷ q'.items)
          × (q'.limit ≡ n))
take_item_lem [] n = inl (refl, refl)
take_item_lem (a ∷ rest) n = inr (a, record { items = rest; limit = n }, refl, refl, refl)

abbrev pub list_queue : {A : Type 0} → MsgQueue A (Items A)
list_queue = record {
  init = λ n. record { items = []; limit = n };
  put = put_item;
  try_get = λ q. take_item q.items q.limit;
  contents = λ q. q.items;
  max_items = λ q. q.limit;
  contents-init = λ n. refl;
  max_items-init = λ n. refl;
  put_lem = put_item_lem;
  try_get_lem = λ q. take_item_lem q.items q.limit;
}

abbrev pub no_events : Items Event
no_events = record { items = []; limit = 20 }

-- Three ports registered, each with an empty queue.
abbrev pub quiet_bus : Bus (Items Event)
quiet_bus =
    put_slot
      (put_slot (put_slot (start_up 0 no_report) app_port no_events) acquisition_port no_events)
      comms_port no_events

abbrev pub dark : Led
dark = led (gpio true)

-- A transport that is joined or not, and accepts or not; its state is the number of payloads seen.
abbrev pub scripted : Bool → Bool → ℕ → Link ℕ
scripted joined good size = record {
  initialize = λ n. (n, no_error);
  connect = λ n. (n, no_error);
  is_connected = λ n. joined;
  send = λ p n. (suc n, if good then no_error else send_error);
  get_max_payload_size = λ n. size;
  get_available_payload_size = λ n. size;
  get_max_uplinks_per_dispatch = λ n. 3;
}

abbrev pub calm_env : Env
calm_env = record {
  snapshot_s = 20;
  now_s = 20;
  heartbeat_s = 20;
  sent_s = λ i. 21;
  dropped = λ i. 300;
  meanwhile = λ i t. t;
}

abbrev pub started : Comms
started = record {
  dispatch_enabled = true;
  sequence = 65535;
  boot_uplink_sent = false;
  last_uplink_uptime_s = 0;
  dispatch_timer = timer 60000 true;
}

abbrev pub world : Table → World ℕ
world t = record { comms = started; table = t; link = 0; offered = [] }

abbrev pub node : Table → Node ℕ (Items Event)
node t = record { world = world t; bus = quiet_bus }

-- A stack that accepts whatever it is told, at a data rate of 51 bytes.
abbrev pub radio : Radio
radio = record {
  is_ready = λ calls. true;
  succeeds = λ calls. true;
  payload_sizes = λ calls. (51, 53);
  device_id = some (1 ∷ 2 ∷ 3 ∷ 4 ∷ 5 ∷ 6 ∷ 7 ∷ 8 ∷ []);
}

abbrev pub lora : LoraConfig
lora = record {
  subband = 2;
  initial_datarate = 0;
  max_uplinks_per_dispatch = 1;
  join_eui = replicate 16 48;
  app_key = replicate 32 102;
  dev_eui_from_hwinfo = true;
  dev_eui = [];
}

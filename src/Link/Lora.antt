-- ===== src/Link/Lora.antt =====
-- src/hal/link/lora/link_lora.cpp: the transport over LoRaWAN. Zephyr's stack is the interface
-- `Radio`: what it answers is a function of the calls that it has had, latest first. Log lines are
-- left out. The keys are read in `Hex`, the channel mask is built in `Channels`.
pub mod Hex
pub mod Channels
pub mod Downlinks
pub mod Order
pub mod Uplinks
pub mod Accepts
use base_platform_zephyr_ble.Prelude.{
  ℕ, zero, suc, ◌+◌, ◌-◌, ◌%◌, ◌^◌, Bool, true, false, not, Option, none, some, List, [], ◌∷◌, ◌++◌,
  length, take, replicate, ltb, ◌==◌, if◌then◌else◌, ◌>>=◌,
}
use base_platform_zephyr_ble.Link.{
  Link, LinkError, no_error, not_ready, config_error, connect_error, payload_too_large, send_error,
}
use base_platform_zephyr_ble.Link.Lora.Hex.{parse_hex}
use base_platform_zephyr_ble.Link.Lora.Channels.{build_us915_channel_mask}

-- `struct lorawan_join_config`, as far as it is not a constant: the network key is the application
-- key, and the nonce is zero.
pub record JoinConfig : Type 0 where
  pub dev_eui : List ℕ
  pub join_eui : List ℕ
  pub app_key : List ℕ

-- The calls of the stack that change it. A join is by OTAA, the class is A, and a transmission is
-- unconfirmed and on the given port.
pub data Call : Type 0 where
  start : Call
  set_channels_mask : List ℕ → Call
  set_class_a : Call
  enable_adr : Bool → Call
  set_datarate : ℕ → Call
  join : JoinConfig → Call
  transmit : ℕ → List ℕ → Call
  register_downlink : Call

-- `succeeds` is whether the call at the front returns 0, `payload_sizes` what the next packet can
-- carry and what the data rate allows, each a uint8_t, and `device_id` the bytes of
-- `hwinfo_get_device_id`, none for an error.
pub record Radio : Type 0 where
  pub is_ready : List Call → Bool
  pub succeeds : List Call → Bool
  pub payload_sizes : List Call → ℕ × ℕ
  pub device_id : Option (List ℕ)

-- The part of config.hpp for this transport. The texts are the characters of the strings.
pub record LoraConfig : Type 0 where
  pub subband : ℕ
  pub initial_datarate : ℕ
  pub max_uplinks_per_dispatch : ℕ
  pub join_eui : List ℕ
  pub app_key : List ℕ
  pub dev_eui_from_hwinfo : Bool
  pub dev_eui : List ℕ

-- `LoraLink` with `s_downlink_callback`, where a callback is a name and none is the null pointer.
pub record LoraLink : Type 0 where
  pub is_joined : Bool
  pub is_downlink_registered : Bool
  pub downlink_callback : Option ℕ
  pub calls : List Call

abbrev pub lora_link_new : LoraLink
lora_link_new = record {
  is_joined = false;
  is_downlink_registered = false;
  downlink_callback = none;
  calls = [];
}

abbrev pub eui_size : ℕ
eui_size = 8

abbrev pub key_size : ℕ
key_size = 16

abbrev pub conservative_max_payload : ℕ
conservative_max_payload = 11

abbrev pub called : LoraLink → Call → LoraLink
called l call = record l { calls = call ∷ l.calls }

module _ (os : Radio) (c : LoraConfig) where
  unfoldable pub initialize : LoraLink → LoraLink × LinkError
  initialize l =
      if not (os.is_ready l.calls)
      then (l, not_ready)
      else (let l' = called l start in
          if os.succeeds l'.calls then (l', no_error) else (l', config_error))

  unfoldable pub resolve_dev_eui : Option (List ℕ)
  resolve_dev_eui =
      if c.dev_eui_from_hwinfo
      then (elim os.device_id [
        | none ↦ none
        | some bytes ↦ if length bytes == eui_size then some bytes else none
      ])
      else parse_hex (some c.dev_eui) eui_size

  -- What `connect` reads before it calls the stack: the three keys, in the code's order.
  unfoldable pub join_config : Option JoinConfig
  join_config = do
    join_eui ← parse_hex (some c.join_eui) eui_size
    app_key ← parse_hex (some c.app_key) key_size
    dev_eui ← resolve_dev_eui
    some (record { dev_eui = dev_eui; join_eui = join_eui; app_key = app_key })

  -- The rest of `connect`, once the stack has taken the channel mask. A data rate that is refused
  -- is not fatal.
  unfoldable pub join_network : JoinConfig → LoraLink → LoraLink × LinkError
  join_network keys l =
      let rate_set =
        called (called (called l set_class_a) (enable_adr false))
          (set_datarate c.initial_datarate) in
      let l' = called (called rate_set (enable_adr true)) (join keys) in
      if os.succeeds l'.calls
      then (record l' { is_joined = true }, no_error)
      else (l', connect_error)

  -- `connect` with what it has read.
  unfoldable pub connect_with : Option JoinConfig → LoraLink → LoraLink × LinkError
  unfolding join_network
  connect_with none l = (l, config_error)
  connect_with (some keys) l =
      let l' = called l (set_channels_mask (build_us915_channel_mask c.subband)) in
      if os.succeeds l'.calls then join_network keys l' else (l', config_error)

  unfoldable pub connect : LoraLink → LoraLink × LinkError
  unfolding connect_with
  connect l = connect_with join_config (record l { is_joined = false })

  abbrev pub get_available_payload_size : LoraLink → ℕ
  get_available_payload_size l = if not l.is_joined then 0 else (os.payload_sizes l.calls).0

  abbrev pub get_max_payload_size : LoraLink → ℕ
  get_max_payload_size l =
      let ceiling = (os.payload_sizes l.calls).1 in
      if not l.is_joined then 0 else if ltb 0 ceiling then ceiling else conservative_max_payload

  unfoldable pub send : List ℕ → LoraLink → LoraLink × LinkError
  send bytes l =
      if not (os.is_ready l.calls)
      then (l, not_ready)
      else if not l.is_joined
      then (l, connect_error)
      else if ltb (get_available_payload_size l) (length bytes)
      then (l, payload_too_large)
      else (let l' = called l (transmit 1 bytes) in
          if os.succeeds l'.calls then (l', no_error) else (l', send_error))

  unfoldable pub register_downlink_callback : ℕ → LoraLink → LoraLink
  register_downlink_callback callback l =
      let l' = record l { downlink_callback = some callback } in
      if l'.is_downlink_registered
      then l'
      else record (called l' register_downlink) { is_downlink_registered = true }

  -- The transport as svc::comms sees it.
  abbrev pub lora_link : Link LoraLink
  lora_link = record {
    initialize = initialize;
    connect = connect;
    is_connected = λ l. l.is_joined;
    send = send;
    get_max_payload_size = get_max_payload_size;
    get_available_payload_size = get_available_payload_size;
    get_max_uplinks_per_dispatch = λ l. c.max_uplinks_per_dispatch;
  }

abbrev pub max_downlink_size : ℕ
max_downlink_size = 64

pub record Downlink : Type 0 where
  pub port : ℕ
  pub rssi : ℕ
  pub snr : ℕ
  pub data_length : ℕ
  pub bytes : List ℕ

-- `downlink_callback`: the callback that is called with the downlink, if one is registered.
-- `p_data` is the memory from the pointer on, none for a null pointer; rssi and snr are bit
-- patterns.
unfoldable pub downlink_callback :
    Option ℕ → ℕ → ℕ → ℕ → ℕ → Option (List ℕ) → Option (ℕ × Downlink)
downlink_callback callback port rssi snr size p_data =
    let copied = if ltb max_downlink_size size then max_downlink_size else size in
    let blank : Downlink = record {
      port = port;
      rssi = rssi;
      snr = snr;
      data_length = 0;
      bytes = replicate max_downlink_size 0;
    } in
    elim callback [
      | none ↦ none
      | some name ↦ (elim p_data [
        | none ↦ some (name, blank)
        | some memory ↦ some (
          name,
          record blank {
            data_length = copied % 2 ^ 8;
            bytes = take copied memory ++ replicate (max_downlink_size - copied) 0;
          },
        )
      ])
    ]

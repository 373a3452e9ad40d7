-- ===== src/Link.antt =====
-- src/hal/link/link.hpp: what svc::comms asks of a transport. The transports are the children; the one
-- over a TCP socket runs on the interfaces that `Wifi` and `Tcp` bring up.
pub mod Socket
pub mod Lora
pub mod Wifi
pub mod Tcp
use base_platform_zephyr_ble.Prelude.{ℕ, Bool, List}

pub data LinkError : Type 0 where
  no_error not_ready config_error connect_error payload_too_large send_error : LinkError

-- `ILink`, over the state `L` of the transport. The sizes are uint8_t.
pub record Link (L : Type 0) : Type 0 where
  pub initialize : L → L × LinkError
  pub connect : L → L × LinkError
  pub is_connected : L → Bool
  pub send : List ℕ → L → L × LinkError
  pub get_max_payload_size : L → ℕ
  pub get_available_payload_size : L → ℕ
  pub get_max_uplinks_per_dispatch : L → ℕ

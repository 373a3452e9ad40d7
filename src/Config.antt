-- ===== src/Config.antt =====
-- src/config.hpp: the build-time configuration, a value of this record for each build. The
-- numbers come from Kconfig, so the development ranges over every value that they can take.
use base_platform_zephyr_ble.Prelude.{ℕ, Bool}

pub record Config : Type 0 where
  pub max_devices : ℕ
  pub adv_report_pool_size : ℕ
  pub expected_company_id : ℕ
  pub device_stale_after_s : ℕ
  pub heartbeat_max_silence_s : ℕ
  pub concentrator_id : ℕ
  pub report_boot_in_first_uplink : Bool

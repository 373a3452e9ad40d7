-- ===== src/Concentrator/Order/Soundness.antt =====
-- What always holds of the device between two turns, and what a turn keeps.
use base_platform_zephyr_ble.Prelude.{◌^◌, ◌<◌, ◌≡◌, refl, sym, ap, ◌∙◌, true, false, All}
use base_platform_zephyr_ble.Config.{Config}
use base_platform_zephyr_ble.Eda.{MsgQueue, Bus, Run, running}
use base_platform_zephyr_ble.Hal.Ble.{AdvReport}
use base_platform_zephyr_ble.Acquisition.Widths.{ReportFits}
use base_platform_zephyr_ble.App.Invariant.{Inv}
use base_platform_zephyr_ble.System.{bus_of}
use base_platform_zephyr_ble.System.Returns.{on_bus-Inv}
use base_platform_zephyr_ble.Concentrator.{Device, on_bus}
use base_platform_zephyr_ble.Concentrator.Order.World.{WorldSound}

module _ {P Q L : Type 0} (c : Config) (pool : MsgQueue AdvReport P) where
  -- What always holds between two turns. The error light shows the state of the application for as
  -- long as no fault is latched; from then on the diagnostics service blinks it.
  pub record Sound (d : Device P Q L) : Type 0 where
    pub app : Inv false d.core.app
    pub light : (bus_of d.core).fault.active ≡ false → Inv true d.core.app
    pub world : WorldSound c d.core.world
    pub reports : All ReportFits (pool.contents d.acquisition.report_pool)
    pub dropped : d.acquisition.dropped_report_count < 2 ^ 16

  -- A turn comes back, keeps what holds, and keeps a fault that is latched.
  abbrev pub Kept : Device P Q L → Run (Device P Q L) → Type 0
  Kept d r =
      (d' : Device P Q L) × (r ≡ running d')
      × Sound d'
      × ((bus_of d.core).fault.active ≡ true → (bus_of d'.core).fault ≡ (bus_of d.core).fault)

  -- The ports aside, a device on another bus with the same fault is as sound.
  pub on_bus-Sound :
      (d : Device P Q L) (b : Bus Q)
      → b.fault ≡ (bus_of d.core).fault
      → Sound d
      → Sound (on_bus d b)
  on_bus-Sound d b same v = record {
    app = on_bus-Inv false d.core.app b v.app;
    light = λ h. on_bus-Inv true d.core.app b (v.light (ap (λ f. f.active) (sym same) ∙ h));
    world = v.world;
    reports = v.reports;
    dropped = v.dropped;
  }

  pub on_bus-Kept :
      (d : Device P Q L) (b : Bus Q)
      → b.fault ≡ (bus_of d.core).fault
      → Sound d
      → Kept d (running (on_bus d b))
  on_bus-Kept d b same v = (on_bus d b, refl, on_bus-Sound d b same v, λ _. same)

-- ===== src/Concentrator/Order/Threads.antt =====
-- The turns of the device, one by one: each comes back and leaves a sound device.
use mathlib.Core.Path.{subst}
use base_platform_zephyr_ble.Prelude.{
  ℕ, ◌^◌, ◌<◌, ◌≡◌, refl, sym, ap, ◌∙◌, true, false, inl, inr, Option, none, some, [], ◌∷◌,
  All-append, Bool-cases, arith,
}
use base_platform_zephyr_ble.Config.{Config}
use base_platform_zephyr_ble.Eda.{Event, MsgQueue, Bus, Run, running, state, acquisition_port}
use base_platform_zephyr_ble.Hal.Ble.{AdvReport}
use base_platform_zephyr_ble.Link.{Link}
use base_platform_zephyr_ble.Acquisition.{on_adv_report}
use base_platform_zephyr_ble.Acquisition.Drain.{consume_all-Inv, on_adv_report_lem}
use base_platform_zephyr_ble.Acquisition.Service.{
  Handled, drained, untouched, execute_event-Handled,
}
use base_platform_zephyr_ble.Acquisition.Widths.{ReportFits, consume_all-TableFits}
use base_platform_zephyr_ble.App.Invariant.{Inv, light-Inv}
use base_platform_zephyr_ble.Diagnostics.{diagnostics_event_id, heartbeat_due, execute_event-error}
use base_platform_zephyr_ble.Diagnostics
use base_platform_zephyr_ble.System.{System, bus_of, with_bus}
use base_platform_zephyr_ble.System
use base_platform_zephyr_ble.System.Returns.{step-Keeps}
use base_platform_zephyr_ble.Concentrator.{
  Device, core_turn, diagnostics_of, set_diagnostics, set_core, set_acquisition, acquisition_node,
  on_bus, hear, acquisition_turns, diagnostics_turns,
}
use base_platform_zephyr_ble.Concentrator.Environment.{Bytewise, Allowed}
use base_platform_zephyr_ble.Concentrator.Order.Latched.{
  FrontKeeps, send_event_from_isr-fault, step-held,
}
use base_platform_zephyr_ble.Concentrator.Order.World.{WorldSound, step-WorldSound}
use base_platform_zephyr_ble.Concentrator.Order.Soundness.{Sound, Kept, on_bus-Sound}

module _ {P Q L : Type 0} (c : Config) (link : Link L) (pool : MsgQueue AdvReport P)
    (os : MsgQueue Event Q) (room : 0 < c.max_devices) (small : Bytewise link) where
  -- The invariant with the light, where the fault latch was open before and after the turn.
  core_light :
      (t : System.Turn) (d : Device P Q L) (s' : System Q L)
      → Sound c pool d
      → System.step c link os false t d.core ≡ running s'
      → (bus_of s').fault.active ≡ false
      → Inv true s'.app
  core_light t d s' v done open_after = elim (Bool-cases (bus_of d.core).fault.active) [
    | inl latched ↦
        let same = step-held c link os false (bus_of d.core).fault latched t d.core refl in
        absurd (ground arith)
    | inr unlatched ↦
        let (s'', again, w) = step-Keeps c link os true t d.core (v.light unlatched) in
        subst (λ s. Inv true s.app) (ap state (sym again ∙ done)) w
  ]

  pub core_turn-Kept :
      (t : System.Turn) (d : Device P Q L)
      → Allowed c (core_turn t)
      → Sound c pool d
      → Kept c pool d (set_core d (System.step c link os false t d.core))
  core_turn-Kept t d a v =
      let (s', done, w) = step-Keeps c link os false t d.core v.app in
      (
        record d { core = s' },
        ap (set_core d) done,
        record {
          app = w;
          light = core_light t d s' v done;
          world =
              subst (λ (r : Run (System Q L)). WorldSound c (state r).world) done
                (step-WorldSound c link os false room small t d.core a v.world);
          reports = v.reports;
          dropped = v.dropped;
        },
        λ latched.
            ap (λ (r : Run (System Q L)). (bus_of (state r)).fault) (sym done)
            ∙ step-held c link os false (bus_of d.core).fault latched t d.core refl,
      )

  -- The Bluetooth callback.
  pub hear-Kept :
      (r : AdvReport) (d : Device P Q L)
      → ReportFits r
      → Sound c pool d
      → Kept c pool d (running (hear c link pool os false r d))
  unfolding hear
  hear-Kept r d fits v =
      let (a, b) = on_adv_report pool os r (d.acquisition, bus_of d.core) in
      elim (on_adv_report_lem pool os r d.acquisition (bus_of d.core)) [
        | inl (space, contents, dropped, posted) ↦
            let same : b.fault ≡ (bus_of d.core).fault =
              ap (λ (x : Bus Q). x.fault) posted
              ∙ send_event_from_isr-fault os (bus_of d.core) acquisition_port _ 0 in
            let w = on_bus-Sound c pool d b same v in
            (
              record (on_bus d b) { acquisition = a },
              refl,
              record {
                app = w.app;
                light = w.light;
                world = w.world;
                reports = rw contents (
                    All-append ReportFits (pool.contents d.acquisition.report_pool) (r ∷ [])
                      v.reports (fits, tt));
                dropped = rw dropped v.dropped;
              },
              λ _. same,
            )
        | inr (full, contents, dropped, quiet) ↦
            let same : b.fault ≡ (bus_of d.core).fault = ap (λ (x : Bus Q). x.fault) quiet in
            let w = on_bus-Sound c pool d b same v in
            (
              record (on_bus d b) { acquisition = a },
              refl,
              record {
                app = w.app;
                light = w.light;
                world = w.world;
                reports = rw contents v.reports;
                dropped = let small_count = v.dropped in ground arith;
              },
              λ _. same,
            )
      ]

  Handled-Sound :
      (clock : ℕ → ℕ) (id : ℕ) (d d' : Device P Q L)
      → ((i : ℕ) → clock i < 2 ^ 32)
      → Sound c pool d
      → d'.core ≡ record (d.core) { world = record (d.core.world) { table = d'.core.world.table } }
      → Handled pool c clock id (acquisition_node d) (acquisition_node d')
      → Sound c pool d'
  Handled-Sound clock id d d' times v same (drained _ table empty dropped _) = record {
    app = rw same v.app;
    light = rw same v.light;
    world = rw same (record {
      table = rw table (
          consume_all-Inv c clock 0 (pool.contents d.acquisition.report_pool) d.core.world.table
            room v.world.table);
      widths = record {
        table = rw table (
            consume_all-TableFits c clock 0 (pool.contents d.acquisition.report_pool)
              d.core.world.table times v.reports v.world.widths.table);
        sequence = v.world.widths.sequence;
        last_uplink_uptime_s = v.world.widths.last_uplink_uptime_s;
        offered = v.world.widths.offered;
      };
    });
    reports = rw empty tt;
    dropped = rw dropped v.dropped;
  }
  Handled-Sound clock id d d' times v same (untouched _ table kept) = record {
    app = rw same v.app;
    light = rw same v.light;
    world = rw (same, table) v.world;
    reports = rw kept v.reports;
    dropped = rw kept v.dropped;
  }

  pub acquisition_turns-Kept :
      (clock : ℕ → ℕ) (answer : ℕ) (front : Option (Event × Bus Q)) (d : Device P Q L)
      → ((i : ℕ) → clock i < 2 ^ 32)
      → FrontKeeps os (bus_of d.core).fault front
      → Sound c pool d
      → Kept c pool d (acquisition_turns c link pool os false clock answer front d)
  unfolding acquisition_turns
  acquisition_turns-Kept clock answer none d times k v = (d, refl, v, λ _. refl)
  acquisition_turns-Kept clock answer (some (e, b)) d times k v =
      let (n, done, h) =
        execute_event-Handled pool c clock answer e.event_id (acquisition_node d) in
      let d' : Device P Q L = record d {
        core = record (with_bus d.core b) { world = record (d.core.world) { table = n.table } };
        acquisition = n.acquisition;
        ble = n.ble;
      } in
      (
        d',
        ap (set_acquisition (on_bus d b)) done,
        Handled-Sound clock e.event_id (on_bus d b) d' times (on_bus-Sound c pool d b k v) refl h,
        λ _. k,
      )

  pub diagnostics_turns-Kept :
      (front : Option (Event × Bus Q)) (d : Device P Q L)
      → FrontKeeps os (bus_of d.core).fault front
      → Sound c pool d
      → Kept c pool d (running (diagnostics_turns c link pool os false front d))
  unfolding diagnostics_turns
  diagnostics_turns-Kept none d k v = (d, refl, v, λ _. refl)
  diagnostics_turns-Kept (some (e, b)) d k v =
      let w = on_bus-Sound c pool d b k v in
      let after =
        base_platform_zephyr_ble.Diagnostics.execute_event b.fault e.event_id (diagnostics_of d) in
      (
        set_diagnostics (on_bus d b) after,
        refl,
        record {
          app = light-Inv (on_bus d b).core.app after.leds.error w.app;
          light = λ h. rw (execute_event-error b.fault e.event_id (diagnostics_of d) h) (w.light h);
          world = w.world;
          reports = w.reports;
          dropped = w.dropped;
        },
        λ _. k,
      )

-- ===== src/Hal/Watchdog.antt =====
-- src/hal/watchdog/zephyr/watchdog_zephyr.cpp and src/eda/idle_hook: the watchdog, and the hook that
-- feeds it. What Zephyr's driver answers is the interface `Driver`, a function of the calls that it
-- has had, latest first. Log lines are left out.
pub mod Armed
use base_platform_zephyr_ble.Prelude.{
  ℕ, Bool, true, false, not, ◌||◌, Option, none, some, List, [], ◌∷◌, ltb, if◌then◌else◌,
}

pub data WatchdogError : Type 0 where
  no_error hardware_error invalid_timeout already_running : WatchdogError

abbrev pub min_timeout_ms : ℕ
min_timeout_ms = 500

abbrev pub max_timeout_ms : ℕ
max_timeout_ms = 32000

-- `wdt_install_timeout` with the end of its window, `wdt_setup`, and `wdt_feed` of a channel.
pub data Call : Type 0 where
  install : ℕ → Call
  setup : Call
  feed : ℕ → Call

-- `installed` is the channel of an installation at the front, none where it is negative, and
-- `succeeds` is whether the call at the front returns 0.
pub record Driver : Type 0 where
  pub is_ready : List Call → Bool
  pub installed : List Call → Option ℕ
  pub succeeds : List Call → Bool

-- `channel_id` is none where m_channel_id is negative.
pub record Watchdog : Type 0 where
  pub channel_id : Option ℕ
  pub timeout_ms : ℕ
  pub calls : List Call

abbrev pub watchdog : Watchdog
watchdog = record { channel_id = none; timeout_ms = 0; calls = [] }

module _ (os : Driver) where
  -- `set_timeout` from the channel on that the installation gave.
  unfoldable pub start_channel : Option ℕ → ℕ → Watchdog → Watchdog × WatchdogError
  start_channel none timeout_ms w = (w, hardware_error)
  start_channel (some channel) timeout_ms w =
      let w' = record w { calls = setup ∷ w.calls } in
      if os.succeeds w'.calls
      then (record w' { channel_id = some channel; timeout_ms = timeout_ms }, no_error)
      else (w', hardware_error)

  -- `set_timeout` of a watchdog that is not running.
  unfoldable pub arm : ℕ → Watchdog → Watchdog × WatchdogError
  unfolding start_channel
  arm timeout_ms w =
      let w' = record w { calls = install timeout_ms ∷ w.calls } in
      if ltb timeout_ms min_timeout_ms || ltb max_timeout_ms timeout_ms
      then (w, invalid_timeout)
      else if not (os.is_ready w.calls)
      then (w, hardware_error)
      else start_channel (os.installed w'.calls) timeout_ms w'

  unfoldable pub set_timeout : ℕ → Watchdog → Watchdog × WatchdogError
  set_timeout timeout_ms w = elim w.channel_id [
    | some channel ↦ (w, already_running)
    | none ↦ arm timeout_ms w
  ]

  unfoldable pub refresh : Watchdog → Watchdog × WatchdogError
  refresh w = elim w.channel_id [
    | none ↦ (w, hardware_error)
    | some channel ↦
        (let w' = record w { calls = feed channel ∷ w.calls } in
          if os.succeeds w'.calls then (w', no_error) else (w', hardware_error))
  ]

  -- `IdleHook::invoke`: the watchdog after it, and the callback that it calls, if there is one.
  unfoldable pub invoke : Option ℕ → Watchdog → Watchdog × Option ℕ
  unfolding refresh
  invoke callback w = ((refresh w).0, callback)

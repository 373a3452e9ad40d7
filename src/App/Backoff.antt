-- ===== src/App/Backoff.antt =====
-- The retry of a failed join: how long the device waits after the n-th failure in a row.
use base_platform_zephyr_ble.Prelude.{ℕ, ◌*◌, ◌^◌, min, ◌≡◌, Bool, false, some, arith}
use base_platform_zephyr_ble.Eda.{Event, MsgQueue, running}
use base_platform_zephyr_ble.Eda.Timer.{stopped}
use base_platform_zephyr_ble.Events.{app_event_id, network_joined}
use base_platform_zephyr_ble.App.{
  in_listening, in_soft_error, soft_error_retry_ms, soft_error_retry_max_ms, App, transition_to,
  dispatch_event,
}

-- The announced schedule: 30 s, doubled for each failure, at most 15 minutes.
abbrev pub backoff : ℕ → ℕ
backoff n = min (soft_error_retry_ms * 2 ^ n) soft_error_retry_max_ms

module _ {Q : Type 0} (os : MsgQueue Event Q) (debug : Bool) where
  -- A join that succeeds after any outage leads to LISTENING with the backoff put back to its first
  -- step and the retry timer stopped.
  pub rejoin_resets :
      (a a' : App Q)
      → a.machine.current ≡ some in_soft_error
      → dispatch_event os debug (app_event_id network_joined) a ≡ running a'
      → (a'.machine.current ≡ some in_listening)
        × (a'.context.retry_delay_ms ≡ backoff 0)
        × (a'.context.retry_timer.last_call ≡ stopped)
        × (a'.context.error_led.state ≡ false)
  unfolding dispatch_event transition_to
  rejoin_resets a a' c h = ground arith

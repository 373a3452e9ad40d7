-- ===== src/Acquisition/Service.antt =====
-- The acquisition thread: bring-up and the events of its port. `answer` is what the controller's
-- call returns.
use base_platform_zephyr_ble.Prelude.{
  ℕ, ◌+◌, ◌<◌, ◌≡◌, ◌≢◌, refl, Bool, true, false, Option, none, some, ◌==◌, if◌then◌else◌, length,
  arith, Bool-cases, inl, inr, [],
}
use base_platform_zephyr_ble.Config.{Config}
use base_platform_zephyr_ble.DeviceTable.{Table}
use base_platform_zephyr_ble.DeviceTable.Upsert
use base_platform_zephyr_ble.Eda.{MsgQueue}
use base_platform_zephyr_ble.Events.{
  acquisition_event_id, start_scan, stop_scan, adv_report_available,
}
use base_platform_zephyr_ble.Hal.Ble.{AdvReport, Ble, no_error, hardware_error, already_running}
use base_platform_zephyr_ble.Acquisition.{Acquisition, drain_report_pool}
use base_platform_zephyr_ble.Acquisition.Drain.{
  consume_all, consume_all-Inv, drain_report_pool-Drained,
}

pub record Node (P : Type 0) : Type 0 where
  pub acquisition : Acquisition P
  pub ble : Ble
  pub table : Table

module _ {P : Type 0} (pool : MsgQueue AdvReport P) (c : Config) where
  -- `initialize`, after its thread and port have been set up; false is a scanner that failed.
  unfoldable pub initialize : ℕ → Node P → Node P × Bool
  initialize answer n =
      let (b, result) = base_platform_zephyr_ble.Hal.Ble.initialize answer n.ble in
      let n' = record n {
        acquisition = record (n.acquisition) { report_pool = pool.init c.adv_report_pool_size };
        ble = b;
      } in
      elim result [ no_error ↦ (n', true) | _ ↦ (n', false) ]

  drain : (ℕ → ℕ) → Node P → Option (Node P)
  drain clock n =
      elim (drain_report_pool pool c clock (length (pool.contents n.acquisition.report_pool) + 1) 0
        n.acquisition.report_pool n.table) [
          | none ↦ none
          | some (p, t) ↦
              some
                (record n { acquisition = record (n.acquisition) { report_pool = p }; table = t })
        ]

  -- `Port::execute_event`; none is a drain out of fuel.
  unfoldable pub execute_event : (ℕ → ℕ) → ℕ → ℕ → Node P → Option (Node P)
  unfolding drain
  execute_event clock answer id n =
      if id == acquisition_event_id start_scan
      then some (record n { ble = (base_platform_zephyr_ble.Hal.Ble.start_scan answer n.ble).0 })
      else if id == acquisition_event_id stop_scan
      then some (record n { ble = (base_platform_zephyr_ble.Hal.Ble.stop_scan answer n.ble).0 })
      else if id == acquisition_event_id adv_report_available
      then drain clock n
      else some n

  -- What handling an event comes to: the pool drained into the table, or neither touched.
  pub data Handled (clock : ℕ → ℕ) (id : ℕ) (n n' : Node P) : Type 0 where
    drained :
        id ≡ acquisition_event_id adv_report_available
        → n'.table ≡ consume_all c clock 0 (pool.contents n.acquisition.report_pool) n.table
        → pool.contents n'.acquisition.report_pool ≡ []
        → n'.acquisition.dropped_report_count ≡ n.acquisition.dropped_report_count
        → n'.ble ≡ n.ble
        → Handled clock id n n'
    untouched :
        id ≢ acquisition_event_id adv_report_available
        → n'.table ≡ n.table
        → n'.acquisition ≡ n.acquisition
        → Handled clock id n n'

  drain_lem :
      (clock : ℕ → ℕ) (id : ℕ) (n : Node P)
      → id ≡ acquisition_event_id adv_report_available
      → (n' : Node P) × (drain clock n ≡ some n') × Handled clock id n n'
  unfolding drain
  drain_lem clock id n h =
      let (p, e, empty) =
        drain_report_pool-Drained pool c clock
          (length (pool.contents n.acquisition.report_pool) + 1) 0 n.acquisition.report_pool n.table
          (omega arith) in
      (
        record n {
          acquisition = record (n.acquisition) { report_pool = p };
          table = consume_all c clock 0 (pool.contents n.acquisition.report_pool) n.table;
        },
        rw (e, drain) refl,
        drained h refl empty refl refl,
      )

  -- Every event of the acquisition thread is handled to its end.
  pub execute_event-Handled :
      (clock : ℕ → ℕ) (answer id : ℕ) (n : Node P)
      → (n' : Node P) × (execute_event clock answer id n ≡ some n') × Handled clock id n n'
  unfolding execute_event
  execute_event-Handled clock answer id n =
      elim (Bool-cases (id == acquisition_event_id start_scan)) [
        | inl s ↦ (
          record n { ble = (base_platform_zephyr_ble.Hal.Ble.start_scan answer n.ble).0 },
          simp (s, execute_event) refl,
          untouched (λ e. absurd (ground arith)) refl refl,
        )
        | inr s ↦ elim (Bool-cases (id == acquisition_event_id stop_scan)) [
          | inl t ↦ (
            record n { ble = (base_platform_zephyr_ble.Hal.Ble.stop_scan answer n.ble).0 },
            simp (s, t, execute_event) refl,
            untouched (λ e. absurd (ground arith)) refl refl,
          )
          | inr t ↦ elim (Bool-cases (id == acquisition_event_id adv_report_available)) [
            | inl a ↦
                (let (n', e, h) = drain_lem clock id n (ground arith) in
                  (n', simp (s, t, a, execute_event) e, h))
            | inr a ↦ (
              n,
              simp (s, t, a, execute_event) refl,
              untouched (λ e. absurd (ground arith)) refl refl,
            )
          ]
        ]
      ]

  Handled-drains :
      (clock : ℕ → ℕ) (id : ℕ) (n n' : Node P)
      → 0 < c.max_devices
      → Upsert.Inv c n.table
      → Handled clock id n n'
      → Upsert.Inv c n'.table
        × (id ≡ acquisition_event_id adv_report_available
            → pool.contents n'.acquisition.report_pool ≡ [])
  Handled-drains clock id n n' room v (drained h table empty _ _) = (
    rw table (consume_all-Inv c clock 0 (pool.contents n.acquisition.report_pool) n.table room v),
    λ _. empty,
  )
  Handled-drains clock id n n' room v (untouched other table _) =
      (rw table v, λ e. absurd (other e))

  -- Every event of the acquisition thread is handled to its end and keeps the table's invariant, in
  -- a table of at least one slot; after ADV_REPORT_AVAILABLE the pool is empty.
  pub execute_event-drains :
      (clock : ℕ → ℕ) (answer id : ℕ) (n : Node P)
      → 0 < c.max_devices
      → Upsert.Inv c n.table
      → (n' : Node P) × (execute_event clock answer id n ≡ some n')
        × Upsert.Inv c n'.table
        × (id ≡ acquisition_event_id adv_report_available
            → pool.contents n'.acquisition.report_pool ≡ [])
  execute_event-drains clock answer id n room v =
      let (n', e, h) = execute_event-Handled clock answer id n in
      let (w, empty) = Handled-drains clock id n n' room v h in (n', e, w, empty)

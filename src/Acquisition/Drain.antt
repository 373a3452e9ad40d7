-- ===== src/Acquisition/Drain.antt =====
-- The pool between the Bluetooth callback and the acquisition thread.
use base_platform_zephyr_ble.Prelude.{
  ℕ, zero, suc, ◌+◌, ◌-◌, ◌^◌, ◌<◌, ◌≤◌, ◌≡◌, refl, ap, ◌⊎◌, inl, inr, Option, none, some, List, [],
  ◌∷◌, ◌++◌, ltb, if◌then◌else◌, length, arith,
}
use base_platform_zephyr_ble.Config.{Config}
use base_platform_zephyr_ble.Hal.Ble.{AdvReport}
use base_platform_zephyr_ble.Eda.{Event, MsgQueue, Bus, send_event_from_isr, acquisition_port}
use base_platform_zephyr_ble.Events.{acquisition_event_id, adv_report_available}
use base_platform_zephyr_ble.DeviceTable.{Table}
use base_platform_zephyr_ble.DeviceTable.Upsert
use base_platform_zephyr_ble.Acquisition.{
  Parsed, accepted, rejected, unfinished, parse_custom_frame, reading_of, consume, Acquisition,
  on_adv_report, drain_report_pool,
}

-- The reports taken one after the other, oldest first.
abbrev pub consume_all : Config → (ℕ → ℕ) → ℕ → List AdvReport → Table → Table
consume_all c clock round [] table = table
consume_all c clock round (r ∷ rs) table =
    consume_all c clock (round + 1) rs (consume c (clock round) r table)

consume_cases :
    (c : Config) (now : ℕ) (r : AdvReport) (t : Table) (p : Parsed)
    → parse_custom_frame c r ≡ p
    → 0 < c.max_devices
    → Upsert.Inv c t
    → Upsert.Inv c (consume c now r t)
unfolding consume
consume_cases c now r t (accepted f) e room v =
    rw (e, consume) (Upsert.upsert-Inv c t r.address r.rssi (reading_of f) now v room)
consume_cases c now r t rejected e room v = rw (e, consume) v
consume_cases c now r t unfinished e room v = rw (e, consume) v

-- Whatever a report holds, the table stays well formed.
pub consume-Inv :
    (c : Config) (now : ℕ) (r : AdvReport) (t : Table)
    → 0 < c.max_devices
    → Upsert.Inv c t
    → Upsert.Inv c (consume c now r t)
consume-Inv c now r t room v = consume_cases c now r t (parse_custom_frame c r) refl room v

pub consume_all-Inv :
    (c : Config) (clock : ℕ → ℕ) (round : ℕ) (rs : List AdvReport) (t : Table)
    → 0 < c.max_devices
    → Upsert.Inv c t
    → Upsert.Inv c (consume_all c clock round rs t)
consume_all-Inv c clock round [] t room v = v
consume_all-Inv c clock round (r ∷ rs) t room v =
    consume_all-Inv c clock (round + 1) rs (consume c (clock round) r t) room
      (consume-Inv c (clock round) r t room v)

module _ {P : Type 0} (pool : MsgQueue AdvReport P) (c : Config) (clock : ℕ → ℕ) where
  -- The end of a drain: an empty pool, and the table with every report consumed in order.
  abbrev pub Drained : ℕ → List AdvReport → Table → Option (P × Table) → Type 0
  Drained round rs t o =
      (p : P) × (o ≡ some (p, consume_all c clock round rs t)) × (pool.contents p ≡ [])

  -- One drain empties the pool whatever it holds, and consumes its reports oldest first; the number
  -- of reports is fuel enough.
  pub drain_report_pool-Drained :
      (fuel round : ℕ) (p : P) (t : Table)
      → length (pool.contents p) < fuel
      → Drained round (pool.contents p) t (drain_report_pool pool c clock fuel round p t)
  unfolding drain_report_pool
  drain_report_pool-Drained zero round p t h = elim h [ ]
  drain_report_pool-Drained (suc fuel) round p t h =
      step (pool.try_get_lem p)
        (λ q r k. drain_report_pool-Drained fuel (round + 1) q (consume c (clock round) r t) k)
    where
      step :
          ((pool.contents p ≡ []) × (pool.try_get p ≡ none))
            ⊎ ((r : AdvReport) × (q : P) × (pool.try_get p ≡ some (r, q))
                × (pool.contents p ≡ r ∷ pool.contents q)
                × (pool.max_items q ≡ pool.max_items p))
          → ((q : P) (r : AdvReport)
              → length (pool.contents q) < fuel
              → Drained
                  (round + 1)
                  (pool.contents q)
                  (consume c (clock round) r t)
                  (drain_report_pool pool c clock fuel (round + 1) q (consume c (clock round) r t)))
          → Drained round (pool.contents p) t (drain_report_pool pool c clock (suc fuel) round p t)
      step (inl (empty, got)) ih = rw (got, empty, drain_report_pool) (p, refl, empty)
      step (inr (r, q, got, held, same)) ih =
          rw (got, held, drain_report_pool) (ih q r (omega (arith, ap length held)))

module _ {P Q : Type 0} (pool : MsgQueue AdvReport P) (os : MsgQueue Event Q) where
  -- A report that comes in is kept, last in the pool, and the acquisition thread is told; or the
  -- pool is full, and the drop is counted, saturating, and no event is posted.
  pub on_adv_report_lem :
      (r : AdvReport) (s : Acquisition P) (bus : Bus Q)
      → let (s', bus') = on_adv_report pool os r (s, bus) in
        ((length (pool.contents s.report_pool) < pool.max_items s.report_pool)
          × (pool.contents s'.report_pool ≡ pool.contents s.report_pool ++ (r ∷ []))
          × (s'.dropped_report_count ≡ s.dropped_report_count)
          × (bus'
              ≡ send_event_from_isr os bus acquisition_port
                  (acquisition_event_id adv_report_available)
                  0))
        ⊎ ((pool.max_items s.report_pool ≤ length (pool.contents s.report_pool))
            × (s'.report_pool ≡ s.report_pool)
            × (s'.dropped_report_count ≡ (
                if ltb s.dropped_report_count (2 ^ 16 - 1)
                then s.dropped_report_count + 1
                else s.dropped_report_count))
            × (bus' ≡ bus))
  unfolding on_adv_report
  on_adv_report_lem r s bus = elim (pool.put_lem s.report_pool r) [
    | inl (room, (q, put, back, same)) ↦ inl (room, ground arith, ground arith, ground arith)
    | inr (full, put) ↦ inr (full, ground arith, ground arith, ground arith)
  ]

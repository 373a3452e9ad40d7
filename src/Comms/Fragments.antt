-- ===== src/Comms/Fragments.antt =====
-- `send_fragment` and the loop of `dispatch`: what is offered to the transport, and what the
-- table has been told of once the loop has ended.
pub mod Reach
pub mod Loop
use base_platform_zephyr_ble.Prelude.{
  ℕ, zero, suc, ◌+◌, ◌*◌, ◌<◌, ◌≤◌, ◌≡◌, ◌≢◌, refl, sym, ap, ◌∙◌, Bool, true, false, ◌⊎◌, inl, inr,
  List, [], ◌∷◌, ◌++◌, length, length-append, length-take, length-drop, take, drop, ltb,
  if◌then◌else◌, arith, min,
}
use mathlib.Core.List.{append_assoc}
use base_platform_zephyr_ble.Config.{Config}
use base_platform_zephyr_ble.DeviceTable.{Entry, Table}
use base_platform_zephyr_ble.DeviceTable.Delivery.{acknowledge}
use base_platform_zephyr_ble.Link.{Link, LinkError, no_error}
use base_platform_zephyr_ble.Comms.{
  World, Env, header_size, record_size, header_bytes, records_bytes, header_of, offer, accepted,
  send_fragment, send_fragments,
}
use base_platform_zephyr_ble.Comms.Wire.{AllAddressed, length-header_bytes, length-records_bytes}

-- What every operation on the way to the transport leaves alone.
pub record Same {L : Type 0} (w w' : World L) : Type 0 where
  pub sequence : w'.comms.sequence ≡ w.comms.sequence
  pub enabled : w'.comms.dispatch_enabled ≡ w.comms.dispatch_enabled
  pub timer : w'.comms.dispatch_timer ≡ w.comms.dispatch_timer
  pub boot : w'.comms.boot_uplink_sent ≡ w.comms.boot_uplink_sent

module _ {L : Type 0} (c : Config) (link : Link L) (env : Env) where
  -- The bytes of one fragment.
  abbrev pub packet : List Entry → ℕ → ℕ → ℕ → Bool → World L → List ℕ
  packet es i n now_s beat w =
      header_bytes (header_of c link env (length es) i n beat w) ++ records_bytes es now_s

  pub length-packet :
      (es : List Entry) (i n now_s : ℕ) (beat : Bool) (w : World L)
      → AllAddressed es
      → length (packet es i n now_s beat w) ≡ header_size + length es * record_size
  length-packet es i n now_s beat w a = omega (
    arith,
    length-append (header_bytes (header_of c link env (length es) i n beat w))
        (records_bytes es now_s),
    length-header_bytes (header_of c link env (length es) i n beat w),
    length-records_bytes es now_s a,
  )

  -- A fragment is offered once, whatever the transport says.  In both
  -- cases the acquisition thread goes on meanwhile. Accepted, its records are then acknowledged;
  -- refused, none is, and the time of the last uplink is as before.
  pub data Fragment (es : List Entry) (i n now_s : ℕ) (beat : Bool) (w w' : World L)
      : Bool → Type 0 where
    taken :
        (link.send (packet es i n now_s beat w) w.link).1 ≡ no_error
        → w'.link ≡ (link.send (packet es i n now_s beat w) w.link).0
        → w'.table ≡ acknowledge (env.meanwhile i w.table) es
        → w'.comms.last_uplink_uptime_s ≡ env.sent_s i
        → Fragment es i n now_s beat w w' true
    refused :
        (link.send (packet es i n now_s beat w) w.link).1 ≢ no_error
        → w'.table ≡ env.meanwhile i w.table
        → w'.comms.last_uplink_uptime_s ≡ w.comms.last_uplink_uptime_s
        → Fragment es i n now_s beat w w' false

  module _ (es : List Entry) (i n now_s : ℕ) (beat : Bool) (w : World L) where
    by_result :
        (r : LinkError)
        → (link.send (packet es i n now_s beat w) w.link).1 ≡ r
        → let (w', sent) = send_fragment c link env es i n now_s beat w in
          Fragment es i n now_s beat w w' sent
          × Same w w'
          × (w'.offered ≡ packet es i n now_s beat w ∷ w.offered)
    unfolding send_fragment offer accepted
    by_result no_error e =
        rw (e, send_fragment, offer)
          (
            taken e refl refl refl,
            record { sequence = refl; enabled = refl; timer = refl; boot = refl },
            refl,
          )
    by_result _ e =
        rw (e, send_fragment, offer)
          (
            refused (λ d. cc) refl refl,
            record { sequence = refl; enabled = refl; timer = refl; boot = refl },
            refl,
          )

    pub send_fragment-Fragment :
        let (w', sent) = send_fragment c link env es i n now_s beat w in
        Fragment es i n now_s beat w w' sent
        × Same w w'
        × (w'.offered ≡ packet es i n now_s beat w ∷ w.offered)
    send_fragment-Fragment = by_result (link.send (packet es i n now_s beat w) w.link).1 refl

  -- The table after the first `k` fragments have been accepted, one after the other, each after
  -- what the acquisition thread did before it.
  abbrev pub replay : ℕ → ℕ → ℕ → List Entry → Table → Table
  replay zero per i left t = t
  replay (suc k) per i left t =
      replay k per (i + 1) (drop per left) (acknowledge (env.meanwhile i t) (take per left))

abbrev pub AllWithin : ℕ → List (List ℕ) → Type 0
AllWithin n [] = Unit {0}
AllWithin n (p ∷ ps) = (length p ≤ n) × AllWithin n ps

pub AllWithin-append :
    (n : ℕ) (ps qs : List (List ℕ)) → AllWithin n ps → AllWithin n qs → AllWithin n (ps ++ qs)
AllWithin-append n [] qs a b = b
AllWithin-append n (p ∷ ps) qs a b = (a.0, AllWithin-append n ps qs a.1 b)

pub AllAddressed-take : (n : ℕ) (es : List Entry) → AllAddressed es → AllAddressed (take n es)
AllAddressed-take zero es a = tt
AllAddressed-take (suc n) [] a = tt
AllAddressed-take (suc n) (e ∷ es) a = (a.0, AllAddressed-take n es a.1)

pub AllAddressed-drop : (n : ℕ) (es : List Entry) → AllAddressed es → AllAddressed (drop n es)
AllAddressed-drop zero es a = a
AllAddressed-drop (suc n) [] a = tt
AllAddressed-drop (suc n) (e ∷ es) a = AllAddressed-drop n es a.1

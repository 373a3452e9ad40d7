-- ===== src/Comms/Delivered.antt =====
-- What a dispatch means for the packets on the air and for the table.
use base_platform_zephyr_ble.Prelude.{
  ℕ, zero, suc, ◌+◌, ◌-◌, ◌*◌, ◌≤◌, ◌≡◌, ◌≢◌, refl, sym, ap, ◌∙◌, ◌⊎◌, inl, inr, List, [], ◌∷◌,
  ◌++◌, length, length-drop, take-append-drop, take, drop, min, arith,
}
use base_platform_zephyr_ble.Config.{Config}
use base_platform_zephyr_ble.DeviceTable.{Entry, Table, mark_reported}
use base_platform_zephyr_ble.DeviceTable.Upsert.{Inv}
use base_platform_zephyr_ble.DeviceTable.Delivery.{acknowledge, acknowledge-Inv}
use base_platform_zephyr_ble.Link.{Link, no_error}
use base_platform_zephyr_ble.Comms.{
  World, Env, header_size, record_size, fragments_needed, offer, dispatch,
}
use base_platform_zephyr_ble.Comms.Fragments.{replay, AllWithin}
use base_platform_zephyr_ble.Comms.Dispatch.{
  room_for, pending, Outcome, not_joined, probed, deferred, no_room, quiet, heartbeat, records,
  Ready, dispatch-Outcome,
}
use base_platform_zephyr_ble.Comms.Dispatch.Parts.{HeaderOnly, Sent}

AllWithin-le : (m n : ℕ) (ps : List (List ℕ)) → m ≤ n → AllWithin m ps → AllWithin n ps
AllWithin-le m n [] h a = tt
AllWithin-le m n (p ∷ ps) h a = (omega (arith, a.0), AllWithin-le m n ps h a.1)

acknowledge-append :
    (t : Table) (xs ys : List Entry) → acknowledge t (xs ++ ys) ≡ acknowledge (acknowledge t xs) ys
unfolding acknowledge
acknowledge-append t [] ys = refl
acknowledge-append t (x ∷ xs) ys = acknowledge-append (mark_reported t x.address x.update_seq) xs ys

module _ {L : Type 0} (c : Config) (link : Link L) (env : Env) where
  -- The payloads that an operation added to the history.
  pub record Offers (size number : ℕ) (w w' : World L) : Type 0 where
    pub payloads : List (List ℕ)
    pub offered : w'.offered ≡ payloads ++ w.offered
    pub within : AllWithin size payloads
    pub few : length payloads ≤ number

  header-Offers :
      (size number : ℕ) (w w' : World L)
      → header_size ≤ size
      → HeaderOnly c link env w w'
      → Offers size (suc number) w w'
  header-Offers size number w w' h o = record {
    payloads = o.payload ∷ [];
    offered = o.offered;
    within = (omega (arith, o.size), tt);
    few = omega arith;
  }

  nothing-Offers : (size number : ℕ) (w w' : World L) → w' ≡ w → Offers size number w w'
  nothing-Offers size number w w' e = record {
    payloads = [];
    offered = ap (λ x. x.offered) e;
    within = tt;
    few = omega arith;
  }

  Outcome-Offers :
      (w w' : World L)
      → Outcome c link env w w'
      → Offers
          (link.get_available_payload_size w.link)
          (suc (link.get_max_uplinks_per_dispatch w.link - 1))
          w
          w'
  unfolding offer
  Outcome-Offers w w' (not_joined _ e) =
      nothing-Offers (link.get_available_payload_size w.link)
        (suc (link.get_max_uplinks_per_dispatch w.link - 1)) w w' e
  Outcome-Offers w w' (probed _ _ e) = record {
    payloads = [] ∷ [];
    offered = ap (λ x. x.offered) e;
    within = (omega arith, tt);
    few = omega arith;
  }
  Outcome-Offers w w' (deferred _ _ _ e) =
      nothing-Offers (link.get_available_payload_size w.link)
        (suc (link.get_max_uplinks_per_dispatch w.link - 1)) w w' e
  Outcome-Offers w w' (no_room _ _ free _ o) =
      header-Offers (link.get_available_payload_size w.link)
        (link.get_max_uplinks_per_dispatch w.link - 1) w w' (omega arith) o
  Outcome-Offers w w' (quiet _ _ _ _ _ e) =
      nothing-Offers (link.get_available_payload_size w.link)
        (suc (link.get_max_uplinks_per_dispatch w.link - 1)) w w' e
  Outcome-Offers w w' (heartbeat _ _ free _ _ _ o) =
      header-Offers (link.get_available_payload_size w.link)
        (link.get_max_uplinks_per_dispatch w.link - 1) w w' (omega arith) o
  Outcome-Offers w w' (records _ _ free s) = record {
    payloads = s.payloads;
    offered = s.offered;
    within =
        AllWithin-le (header_size + room_for c link env w * record_size)
          (link.get_available_payload_size w.link) s.payloads (omega arith) s.sized;
    few = elim s.ended [
      | inl (all, number, _) ↦ omega (arith, number)
      | inr (part, number, _, _) ↦ omega (arith, part, number)
    ];
  }

  -- Ready as in `Ready` (sizes in a byte, addresses of six), joined or not, a dispatch hands over
  -- no payload larger than what the transport said the next packet can carry, and no more payloads
  -- than the transport allows in one dispatch (one, where it allows none).
  pub dispatch-Offers :
      (w : World L)
      → Ready c link env w
      → Offers
          (link.get_available_payload_size w.link)
          (suc (link.get_max_uplinks_per_dispatch w.link - 1))
          w
          (dispatch c link env w)
  dispatch-Offers w r = Outcome-Offers w (dispatch c link env w) (dispatch-Outcome c link env w r)

  pub replay-acknowledge :
      (k per i : ℕ) (es : List Entry) (t : Table)
      → ((j : ℕ) (u : Table) → env.meanwhile j u ≡ u)
      → length es ≤ k * per
      → replay c link env k per i es t ≡ acknowledge t es
  unfolding acknowledge
  replay-acknowledge zero per i [] t calm h = refl
  replay-acknowledge zero per i (e ∷ es) t calm h = absurd (omega arith)
  replay-acknowledge (suc k) per i es t calm h =
      let d : suc k * per ≡ per + k * per = omega arith in
      rw (calm i t) (
        replay-acknowledge k per (i + 1) (drop per es) (acknowledge t (take per es)) calm
          (omega (arith, length-drop per es))
        ∙ sym (acknowledge-append t (take per es) (drop per es))
        ∙ ap (acknowledge t) (take-append-drop per es))

  replay-Inv :
      (k per i : ℕ) (es : List Entry) (t : Table)
      → ((j : ℕ) (u : Table) → Inv c u → Inv c (env.meanwhile j u))
      → Inv c t
      → Inv c (replay c link env k per i es t)
  replay-Inv zero per i es t keeps v = v
  replay-Inv (suc k) per i es t keeps v =
      replay-Inv k per (i + 1) (drop per es) (acknowledge (env.meanwhile i t) (take per es)) keeps
        (acknowledge-Inv c (env.meanwhile i t) (take per es) (keeps i t v))

  Outcome-Inv :
      (w w' : World L)
      → ((j : ℕ) (u : Table) → Inv c u → Inv c (env.meanwhile j u))
      → Inv c w.table
      → Outcome c link env w w'
      → Inv c w'.table
  unfolding offer
  Outcome-Inv w w' keeps v (not_joined _ e) = rw e v
  Outcome-Inv w w' keeps v (probed _ _ e) = rw e (keeps 0 w.table v)
  Outcome-Inv w w' keeps v (deferred _ _ _ e) = rw e v
  Outcome-Inv w w' keeps v (no_room _ _ _ _ o) = rw o.table (keeps 0 w.table v)
  Outcome-Inv w w' keeps v (quiet _ _ _ _ _ e) = rw e v
  Outcome-Inv w w' keeps v (heartbeat _ _ _ _ _ _ o) = rw o.table (keeps 0 w.table v)
  Outcome-Inv w w' keeps v (records _ _ _ s) =
      let told = replay-Inv s.k (room_for c link env w) 0 (pending c link env w) w.table keeps v in
      elim s.ended [
        | inl (_, _, e) ↦ rw e told
        | inr (_, _, e, _) ↦ rw e (
            keeps (0 + s.k)
              (replay c link env s.k (room_for c link env w) 0 (pending c link env w) w.table) told)
      ]

  -- Under `Ready`, a dispatch keeps the invariant of the table, whatever the acquisition thread
  -- does to it in between, if that keeps it too.
  pub dispatch-Inv :
      (w : World L)
      → Ready c link env w
      → ((j : ℕ) (u : Table) → Inv c u → Inv c (env.meanwhile j u))
      → Inv c w.table
      → Inv c (dispatch c link env w).table
  dispatch-Inv w r keeps v =
      Outcome-Inv w (dispatch c link env w) keeps v (dispatch-Outcome c link env w r)

  -- What a dispatch of which nothing is accepted leaves: the table as it was, or as the acquisition
  -- thread has made it during the one send, and the flag that announces the boot.
  abbrev pub Unacknowledged : World L → World L → Type 0
  Unacknowledged w w' =
      ((w'.table ≡ w.table) ⊎ (w'.table ≡ env.meanwhile 0 w.table))
      × (w'.comms.boot_uplink_sent ≡ w.comms.boot_uplink_sent)

  header_refused :
      (w w' : World L)
      → ((p : List ℕ) (l : L) → (link.send p l).1 ≢ no_error)
      → HeaderOnly c link env w w'
      → Unacknowledged w w'
  header_refused w w' never o = elim o.boot [
    | inl ((p, l, good), _) ↦ absurd (never p l good)
    | inr (_, boot) ↦ (inr o.table, boot)
  ]

  records_refused :
      (per allowed : ℕ) (es : List Entry) (w w' : World L)
      → ((p : List ℕ) (l : L) → (link.send p l).1 ≢ no_error)
      → Sent c link env per allowed es w w'
      → Unacknowledged w w'
  records_refused per allowed es w w' never s = elim s.begun [
    | inr (p, l, good) ↦ absurd (never p l good)
    | inl none ↦ (
      elim s.ended [
        | inl (_, _, told) ↦ inl (told ∙ rw none refl)
        | inr (_, _, told, _) ↦ inr (told ∙ rw none refl)
      ],
      s.boot ∙ rw none refl,
    )
  ]

  Outcome-refused :
      (w w' : World L)
      → ((p : List ℕ) (l : L) → (link.send p l).1 ≢ no_error)
      → Outcome c link env w w'
      → Unacknowledged w w'
  unfolding offer
  Outcome-refused w w' never (not_joined _ e) = rw e (inl refl, refl)
  Outcome-refused w w' never (probed _ _ e) = rw e (inr refl, refl)
  Outcome-refused w w' never (deferred _ _ _ e) = rw e (inl refl, refl)
  Outcome-refused w w' never (no_room _ _ _ _ o) = header_refused w w' never o
  Outcome-refused w w' never (quiet _ _ _ _ _ e) = rw e (inl refl, refl)
  Outcome-refused w w' never (heartbeat _ _ _ _ _ _ o) = header_refused w w' never o
  Outcome-refused w w' never (records _ _ _ s) =
      records_refused (room_for c link env w)
        (min (link.get_max_uplinks_per_dispatch w.link)
          (fragments_needed (length (pending c link env w)) (room_for c link env w)))
        (pending c link env w) w w' never s

  -- Under `Ready`, a transport that refuses every payload loses nothing: a dispatch acknowledges no
  -- record, so that the table is as before it or as the acquisition thread has made it during the
  -- one send, which it refused, and the flag that announces the boot is still to be sent.
  pub dispatch_refused :
      (w : World L)
      → Ready c link env w
      → ((p : List ℕ) (l : L) → (link.send p l).1 ≢ no_error)
      → Unacknowledged w (dispatch c link env w)
  dispatch_refused w r never =
      Outcome-refused w (dispatch c link env w) never (dispatch-Outcome c link env w r)

-- ===== src/Comms/Silence.antt =====
-- When the uplink keeps silent: dispatching disabled, or a transport that is not joined.
use base_platform_zephyr_ble.Prelude.{
  ℕ, ◌≡◌, ◌≢◌, refl, ap, ◌∙◌, Bool, false, ◌⊎◌, inl, inr, List, [], ◌∷◌, arith, ◌==◌, ◌||◌,
  Bool-cases,
}
use base_platform_zephyr_ble.Config.{Config}
use base_platform_zephyr_ble.Link.{Link}
use base_platform_zephyr_ble.Eda.{Event, MsgQueue, Run, running, ◌>>=◌}
use base_platform_zephyr_ble.Events.{
  comms_event_id, join_network, dispatch_due, dispatch_now, start_dispatch, stop_dispatch,
}
use base_platform_zephyr_ble.Comms.{
  World, Env, Node, dispatch, execute_event, enable, disable, dispatch_if_enabled,
}

module _ {L Q : Type 0} (c : Config) (link : Link L) (env : Env) (os : MsgQueue Event Q)
    (debug : Bool) where
  -- The events of a run, handled in order until a failed assertion stops the firmware.
  abbrev pub run : List ℕ → Node L Q → Run (Node L Q)
  run [] n = running n
  run (id ∷ ids) n = execute_event c link env os debug id n >>= run ids

  -- The part of a node that others see.
  pub record Quiet (n n' : Node L Q) : Type 0 where
    pub transport : n'.world.link ≡ n.world.link
    pub table : n'.world.table ≡ n.world.table
    pub offered : n'.world.offered ≡ n.world.offered
    pub bus : n'.bus ≡ n.bus

  abbrev pub Unjoined : Node L Q → Type 0
  Unjoined n = link.is_connected n.world.link ≡ false

  abbrev pub Disabled : Node L Q → Type 0
  Disabled n = n.world.comms.dispatch_enabled ≡ false

  idle :
      (n : Node L Q)
      → Unjoined n ⊎ Disabled n
      → dispatch_if_enabled c link env os debug n.world ≡ n.world
  unfolding dispatch_if_enabled dispatch
  idle n (inl off) = rw (off, dispatch) (ground arith)
  idle n (inr off) = rw (off, dispatch_if_enabled) refl

  -- One event other than a join, on a node that may not send.
  step :
      (id : ℕ) (n : Node L Q)
      → id ≢ comms_event_id join_network
      → Unjoined n ⊎ Disabled n
      → (n' : Node L Q) × (execute_event c link env os debug id n ≡ running n')
        × Quiet n n'
        × (id ≢ comms_event_id start_dispatch → Disabled n → Disabled n')
  unfolding execute_event enable disable
  step id n other h =
      let j : (id == comms_event_id join_network) ≡ false = ground arith in
      elim (Bool-cases (id == comms_event_id start_dispatch)) [
        | inl on ↦ (
          record n { world = enable c link env os debug n.world },
          simp (j, on, execute_event) refl,
          quiet (enable c link env os debug n.world) refl refl refl,
          λ u. absurd (ground arith),
        )
        | inr on ↦ elim (Bool-cases (id == comms_event_id stop_dispatch)) [
          | inl off ↦ (
            record n { world = disable c link env os debug n.world },
            simp (j, on, off, execute_event) refl,
            quiet (disable c link env os debug n.world) refl refl refl,
            λ _ _. refl,
          )
          | inr off ↦
              elim (Bool-cases
                ((id == comms_event_id dispatch_due) || (id == comms_event_id dispatch_now))) [
                  | inl due ↦ (
                    n,
                    simp (j, on, off, due, execute_event) (rw (idle n h) refl),
                    quiet n.world refl refl refl,
                    λ _ d. d,
                  )
                  | inr neither ↦ (
                    n,
                    simp (j, on, off, neither, execute_event) refl,
                    quiet n.world refl refl refl,
                    λ _ d. d,
                  )
                ]
        ]
      ]
    where
      quiet :
          (w : World L)
          → w.link ≡ n.world.link
          → w.table ≡ n.world.table
          → w.offered ≡ n.world.offered
          → Quiet n (record n { world = w })
      quiet w l t o = record { transport = l; table = t; offered = o; bus = refl }

  -- No event of the run is the given one.
  abbrev pub Without : ℕ → List ℕ → Type 0
  Without k [] = Unit {0}
  Without k (id ∷ ids) = (id ≢ k) × Without k ids

  Quiet-trans : (n n' n'' : Node L Q) → Quiet n n' → Quiet n' n'' → Quiet n n''
  Quiet-trans n n' n'' p q = record {
    transport = q.transport ∙ p.transport;
    table = q.table ∙ p.table;
    offered = q.offered ∙ p.offered;
    bus = q.bus ∙ p.bus;
  }

  -- As long as no JOIN_NETWORK is handled, a transport that is not joined stays as it is: whatever
  -- other events come, and however often a dispatch is due, nothing is offered to it, no state of
  -- it changes, and the table keeps every reading.
  pub run-Unjoined :
      (ids : List ℕ) (n : Node L Q)
      → Without (comms_event_id join_network) ids
      → Unjoined n
      → (n' : Node L Q) × (run ids n ≡ running n') × Quiet n n'
  run-Unjoined [] n w1 off =
      (n, refl, record { transport = refl; table = refl; offered = refl; bus = refl })
  run-Unjoined (id ∷ ids) n w1 off =
      let (n', e, q, _) = step id n w1.0 (inl off) in
      let (n'', e', q') = run-Unjoined ids n' w1.1 (ap link.is_connected q.transport ∙ off) in
      (n'', rw e e', Quiet-trans n n' n'' q q')

  run-Disabled :
      (ids : List ℕ) (n : Node L Q)
      → Without (comms_event_id join_network) ids
      → Without (comms_event_id start_dispatch) ids
      → Disabled n
      → (n' : Node L Q) × (run ids n ≡ running n') × Quiet n n'
  run-Disabled [] n w1 w2 off =
      (n, refl, record { transport = refl; table = refl; offered = refl; bus = refl })
  run-Disabled (id ∷ ids) n w1 w2 off =
      let (n', e, q, still) = step id n w1.0 (inr off) in
      let (n'', e', q') = run-Disabled ids n' w1.1 w2.1 (still w2.0 off) in
      (n'', rw e e', Quiet-trans n n' n'' q q')

  -- Once STOP_DISPATCH has been handled, and until START_DISPATCH or a join is, nothing is offered
  -- to the transport: a dispatch that is due, or was already in the queue, is skipped.
  pub run_stopped :
      (ids : List ℕ) (n : Node L Q)
      → Without (comms_event_id join_network) ids
      → Without (comms_event_id start_dispatch) ids
      → (n' : Node L Q) × (run (comms_event_id stop_dispatch ∷ ids) n ≡ running n') × Quiet n n'
  unfolding execute_event disable
  run_stopped ids n no_join no_start =
      let m : Node L Q = record n { world = disable c link env os debug n.world } in
      let (n', e, q) = run-Disabled ids m no_join no_start refl in
      (n', e, record { transport = q.transport; table = q.table; offered = q.offered; bus = q.bus })

-- ===== src/Eda/Delivery.antt =====
-- What sending does, on every path: delivered at the back of one queue, or lost and latched.
use base_platform_zephyr_ble.Prelude.{
  ℕ, ◌+◌, ◌%◌, ◌^◌, ◌<◌, ◌≤◌, ◌≡◌, ◌≢◌, refl, Bool, true, ◌⊎◌, inl, inr, none, some, List, [], ◌∷◌,
  ◌++◌, arith, length, get_elem?, get_elem?-modify_self, get_elem?-modify_ne, if◌then◌else◌,
  Option-cases,
}
use base_platform_zephyr_ble.Fault.{report, event_lost, port_not_ready}
use base_platform_zephyr_ble.Eda.{
  PortList, port_index, Event, MsgQueue, Bus, Run, running, halted, state, queue_of, put_slot,
  event, send_event, next_event,
}

module _ {Q : Type 0} where
  -- Writing a slot changes the queue of that port alone.
  slot_of_queue :
      (b : Bus Q) (p : PortList) (q : Q)
      → queue_of b p ≡ some q
      → get_elem? b.ports (port_index p) ≡ some (some q)
  unfolding queue_of
  slot_of_queue b p q h = ground arith

  pub queue_of-put_slot_self :
      (b : Bus Q) (p : PortList) (q q' : Q)
      → queue_of b p ≡ some q
      → queue_of (put_slot b p q') p ≡ some q'
  unfolding queue_of
  queue_of-put_slot_self b p q q' h = ground (
    arith,
    get_elem?-modify_self b.ports (port_index p) (λ _. some q') (some q) (slot_of_queue b p q h),
  )

  pub queue_of-put_slot_ne :
      (b : Bus Q) (p p' : PortList) (q' : Q)
      → port_index p ≢ port_index p'
      → queue_of (put_slot b p q') p' ≡ queue_of b p'
  unfolding queue_of
  queue_of-put_slot_ne b p p' q' h =
      ground (arith, get_elem?-modify_ne b.ports (port_index p) (port_index p') (λ _. some q') h)

module _ {Q : Type 0} (os : MsgQueue Event Q) (debug : Bool) (b : Bus Q) (p : PortList)
    (id address : ℕ) where
  -- The three ends of a `send_event`. A lost event is always latched as a fault, and stops a debug
  -- build; a delivered one touches nothing but the back of its port's queue.
  pub data SendOutcome (r : Run (Bus Q)) : Type 0 where
    delivered :
        (q q' : Q) (b' : Bus Q)
        → r ≡ running b'
        → queue_of b p ≡ some q
        → queue_of b' p ≡ some q'
        → os.contents q' ≡ os.contents q ++ (event p id address ∷ [])
        → ((p' : PortList) → port_index p ≢ port_index p' → queue_of b' p' ≡ queue_of b p')
        → b'.dropped_event_count ≡ b.dropped_event_count
        → b'.fault ≡ b.fault
        → SendOutcome r
    lost_full :
        (q : Q)
        → queue_of b p ≡ some q
        → os.max_items q ≤ length (os.contents q)
        → (state r).ports ≡ b.ports
        → (state r).dropped_event_count ≡ (b.dropped_event_count + 1) % 2 ^ 32
        → (state r).fault ≡ report event_lost b.fault
        → r ≡ (if debug then halted (state r) else running (state r))
        → SendOutcome r
    lost_unregistered :
        queue_of b p ≡ none
        → (state r).ports ≡ b.ports
        → (state r).dropped_event_count ≡ b.dropped_event_count
        → (state r).fault ≡ report port_not_ready b.fault
        → r ≡ (if debug then halted (state r) else running (state r))
        → SendOutcome r

  pub post_put :
      (q q' : Q)
      → queue_of b p ≡ some q
      → os.put q (event p id address) ≡ some q'
      → send_event os debug b p id address ≡ running (put_slot b p q')
  unfolding send_event
  post_put q q' h put = ground arith

  post_full :
      (q : Q)
      → queue_of b p ≡ some q
      → os.put q (event p id address) ≡ none
      → let b' = record b {
        dropped_event_count = (b.dropped_event_count + 1) % 2 ^ 32;
        fault = report event_lost b.fault;
      } in
        send_event os debug b p id address ≡ (if debug then halted b' else running b')
  unfolding send_event
  post_full q h put = ground arith

  pub post_none :
      queue_of b p ≡ none
      → let b' = record b { fault = report port_not_ready b.fault } in
        send_event os debug b p id address ≡ (if debug then halted b' else running b')
  unfolding send_event
  post_none h = ground arith

  registered :
      (q : Q)
      → queue_of b p ≡ some q
      → ((length (os.contents q) < os.max_items q)
          × ((q' : Q) × (os.put q (event p id address) ≡ some q')
              × (os.contents q' ≡ os.contents q ++ (event p id address ∷ []))
              × (os.max_items q' ≡ os.max_items q)))
        ⊎ ((os.max_items q ≤ length (os.contents q)) × (os.put q (event p id address) ≡ none))
      → SendOutcome (send_event os debug b p id address)
  registered q h (inl (room, (q', put, back, same))) =
      delivered q q' (put_slot b p q') (post_put q q' h put) h (queue_of-put_slot_self b p q q' h)
        back (λ p' ne. queue_of-put_slot_ne b p p' q' ne) refl refl
  registered q h (inr (full, put)) =
      let e = post_full q h put in
      lost_full q h full (ground arith) (ground arith) (ground arith) (ground arith)

  unregistered : queue_of b p ≡ none → SendOutcome (send_event os debug b p id address)
  unregistered h =
      let e = post_none h in
      lost_unregistered h (ground arith) (ground arith) (ground arith) (ground arith)

  -- A `send_event` delivers its event at the back of the port's queue and changes nothing else,
  -- or leaves the queues alone and latches the loss with its cause.
  pub send_event-SendOutcome : SendOutcome (send_event os debug b p id address)
  send_event-SendOutcome = elim (Option-cases (queue_of b p)) [
    | inl h ↦ unregistered h
    | inr (q, h) ↦ registered q h (os.put_lem q (event p id address))
  ]

  -- Once a fault is latched no later send changes it: the first reason is the one reported.
  pub send_event_keeps_fault :
      b.fault.active ≡ true → (state (send_event os debug b p id address)).fault ≡ b.fault
  unfolding send_event
  send_event_keeps_fault h = ground arith

module _ {Q : Type 0} (os : MsgQueue Event Q) (b : Bus Q) (p : PortList) where
  -- An active object handles the oldest event of its queue first, and leaves the other ports alone.
  pub next_event_oldest :
      (q : Q) (e : Event) (es : List Event)
      → queue_of b p ≡ some q
      → os.contents q ≡ e ∷ es
      → (b' : Bus Q) × (q' : Q) × (next_event os b p ≡ some (e, b'))
        × (queue_of b' p ≡ some q')
        × (os.contents q' ≡ es)
        × ((p' : PortList) → port_index p ≢ port_index p' → queue_of b' p' ≡ queue_of b p')
  unfolding next_event
  next_event_oldest q e es h c = from (os.try_get_lem q)
    where
      from :
          ((os.contents q ≡ []) × (os.try_get q ≡ none))
            ⊎ ((a : Event) × (q' : Q) × (os.try_get q ≡ some (a, q'))
                × (os.contents q ≡ a ∷ os.contents q')
                × (os.max_items q' ≡ os.max_items q))
          → (b' : Bus Q) × (q' : Q) × (next_event os b p ≡ some (e, b'))
            × (queue_of b' p ≡ some q')
            × (os.contents q' ≡ es)
            × ((p' : PortList) → port_index p ≢ port_index p' → queue_of b' p' ≡ queue_of b p')
      from (inl (empty, _)) = absurd (ground arith)
      from (inr (a, q', taken, held, same)) = (
        put_slot b p q',
        q',
        ground arith,
        queue_of-put_slot_self b p q q' h,
        ground arith,
        λ p' ne. queue_of-put_slot_ne b p p' q' ne,
      )

-- ===== src/System/Passing.antt =====
-- An event that is posted to an idle port and taken from it by the thread behind it.
use base_platform_zephyr_ble.Prelude.{
  ℕ, ◌<◌, ◌≡◌, ◌≢◌, refl, ap, ◌∙◌, Bool, some, [], ◌∷◌, length, arith, inl, inr,
}
use base_platform_zephyr_ble.Eda.{
  Event, MsgQueue, Bus, running, PortList, port_index, event, queue_of, put_slot, next_event,
  send_event, send_event_from_isr,
}
use base_platform_zephyr_ble.Eda.Delivery.{post_put, queue_of-put_slot_self, queue_of-put_slot_ne}

module _ {Q : Type 0} (os : MsgQueue Event Q) where
  -- A registered port whose queue is empty and has room.
  pub record Idle (b : Bus Q) (p : PortList) : Type 0 where
    pub queue : Q
    pub registered : queue_of b p ≡ some queue
    pub empty : os.contents queue ≡ []
    pub room : 0 < os.max_items queue

  -- An event is posted to a port and then taken from it.
  pub record Passed (debug : Bool) (b : Bus Q) (p : PortList) (id : ℕ) : Type 0 where
    pub sent : Bus Q
    pub after : Bus Q
    pub posted : send_event os debug b p id 0 ≡ running sent
    pub from_isr : send_event_from_isr os b p id 0 ≡ sent
    pub taken : next_event os sent p ≡ some (event p id 0, after)
    pub idle : Idle after p
    pub others : (p' : PortList) → port_index p ≢ port_index p' → queue_of after p' ≡ queue_of b p'
    pub fault : after.fault ≡ b.fault

  take_it :
      (b : Bus Q) (p : PortList) (e : Event) (q q1 : Q)
      → queue_of b p ≡ some q1
      → os.contents q1 ≡ e ∷ []
      → (q2 : Q) × (next_event os b p ≡ some (e, put_slot b p q2))
        × (os.contents q2 ≡ [])
        × (os.max_items q2 ≡ os.max_items q1)
  unfolding next_event
  take_it b p e q q1 h holds = elim (os.try_get_lem q1) [
    | inl (nothing, _) ↦ absurd (ground arith)
    | inr (a, q2, taken, held, same) ↦ (q2, ground arith, ground arith, same)
  ]

  isr_put :
      (b : Bus Q) (p : PortList) (id : ℕ) (q q1 : Q)
      → queue_of b p ≡ some q
      → os.put q (event p id 0) ≡ some q1
      → send_event_from_isr os b p id 0 ≡ put_slot b p q1
  unfolding send_event_from_isr
  isr_put b p id q q1 h put = ground arith

  pub pass : (debug : Bool) (b : Bus Q) (p : PortList) (id : ℕ) → Idle b p → Passed debug b p id
  pass debug b p id i = elim (os.put_lem i.queue (event p id 0)) [
    | inr (full, _) ↦ absurd (omega (arith, i.room, full, ap length i.empty))
    | inl (_, (q1, put, holds, same)) ↦
        let at1 : queue_of (put_slot b p q1) p ≡ some q1 =
          queue_of-put_slot_self b p i.queue q1 i.registered in
        let (q2, taken, empty, same2) =
          take_it (put_slot b p q1) p (event p id 0) i.queue q1 at1 (ground (arith, i.empty)) in
        record {
          sent = put_slot b p q1;
          after = put_slot (put_slot b p q1) p q2;
          posted = post_put os debug b p id 0 i.queue q1 i.registered put;
          from_isr = isr_put b p id i.queue q1 i.registered put;
          taken = taken;
          idle = record {
            queue = q2;
            registered = queue_of-put_slot_self (put_slot b p q1) p q1 q2 at1;
            empty = empty;
            room = omega (arith, same2, same, i.room);
          };
          others = λ p' ne.
              queue_of-put_slot_ne (put_slot b p q1) p p' q2 ne ∙ queue_of-put_slot_ne b p p' q1 ne;
          fault = refl;
        }
  ]

  pub keep-Idle :
      (b b' : Bus Q) (p : PortList) → queue_of b' p ≡ queue_of b p → Idle b p → Idle b' p
  keep-Idle b b' p e i = record {
    queue = i.queue;
    registered = e ∙ i.registered;
    empty = i.empty;
    room = i.room;
  }

-- ===== src/Link/Lora/Order.antt =====
-- The order in which the LoRaWAN transport calls the stack.
use mathlib.Core.Path.{subst}
use base_platform_zephyr_ble.Prelude.{
  ℕ, ◌≤◌, ◌≡◌, refl, sym, Bool, true, false, ◌⊎◌, inl, inr, Option, none, some, List, [], ◌∷◌,
  length, ltb, arith, Bool-cases,
}
use base_platform_zephyr_ble.Link.Lora.{
  JoinConfig, Call, start, set_channels_mask, set_class_a, enable_adr, set_datarate, join, transmit,
  Radio, LoraConfig, LoraLink, lora_link_new, called, initialize, join_config, join_network,
  connect_with, connect, send, register_downlink_callback,
}
use base_platform_zephyr_ble.Link.Lora.Channels.{build_us915_channel_mask}

-- What the stack was last told: whether ADR is on, and which channels are enabled.
unfoldable pub adr : List Call → Option Bool
adr [] = none
adr (call ∷ calls) = let before = adr calls in elim call [ enable_adr on ↦ some on | _ ↦ before ]

unfoldable pub mask : List Call → Option (List ℕ)
mask [] = none
mask (call ∷ calls) =
    let before = mask calls in elim call [ set_channels_mask words ↦ some words | _ ↦ before ]

-- What svc::comms and the application do with the transport.
pub data Op : Type 0 where
  initializes connects : Op
  sends : List ℕ → Op
  registers : ℕ → Op

module _ (os : Radio) (c : LoraConfig) where
  -- Whether the last join of the history succeeded.
  unfoldable pub has_joined : List Call → Bool
  has_joined [] = false
  has_joined (call ∷ calls) =
      let before = has_joined calls in
      elim call [ join keys ↦ os.succeeds (join keys ∷ calls) | _ ↦ before ]

  -- What has to hold of the calls made before a call. Zephyr refuses a data rate while ADR is on; a
  -- join needs the channels of the sub-band, and a packet a session and room for it.
  unfoldable pub Allowed : Call → List Call → Type 0
  unfolding adr mask has_joined
  Allowed call calls = elim call [
    | set_datarate rate ↦ (adr calls ≡ some false)
    | join keys ↦
        (adr calls ≡ some true)
        × (mask calls ≡ some (build_us915_channel_mask c.subband))
        × (join_config os c ≡ some keys)
    | transmit port bytes ↦
        (has_joined calls ≡ true) × (port ≡ 1) × (length bytes ≤ (os.payload_sizes calls).0)
    | _ ↦ Unit
  ]

  unfoldable pub Ordered : List Call → Type 0
  unfolding Allowed
  Ordered [] = Unit
  Ordered (call ∷ calls) = Allowed call calls × Ordered calls

  -- A transport that calls itself joined has a session.
  abbrev pub Inv : LoraLink → Type 0
  Inv l = Ordered l.calls × (l.is_joined ≡ true → has_joined l.calls ≡ true)

  initialize-Inv : (l : LoraLink) → Inv l → Inv (initialize os c l).0
  unfolding initialize Ordered has_joined
  initialize-Inv l v = elim (Bool-cases (os.is_ready l.calls)) [
    | inl h ↦ (elim (Bool-cases (os.succeeds (start ∷ l.calls))) [
      | inl g ↦ simp (h, g) ((tt, v.0), v.1)
      | inr g ↦ simp (h, g) ((tt, v.0), v.1)
    ])
    | inr h ↦ simp h v
  ]

  -- A send leaves the transport as it is, or makes one transmission, which is allowed.
  pub send_cases :
      (bytes : List ℕ) (l : LoraLink)
      → ((send os c bytes l).0 ≡ l)
        ⊎ ((l.is_joined ≡ true)
            × (length bytes ≤ (os.payload_sizes l.calls).0)
            × ((send os c bytes l).0 ≡ called l (transmit 1 bytes)))
  unfolding send
  send_cases bytes l = elim (Bool-cases (os.is_ready l.calls)) [
    | inr h ↦ inl (simp h)
    | inl h ↦ (elim (Bool-cases l.is_joined) [
      | inr j ↦ inl (rw (h, j))
      | inl j ↦ (elim (Bool-cases (ltb (os.payload_sizes l.calls).0 (length bytes))) [
        | inl big ↦ inl (rw (h, j, big))
        | inr fits ↦ inr (
          j,
          ground arith,
          (elim (Bool-cases (os.succeeds (transmit 1 bytes ∷ l.calls))) [
            | inl g ↦ simp (h, j, fits, g)
            | inr g ↦ simp (h, j, fits, g)
          ]),
        )
      ])
    ])
  ]

  pub send-Inv : (bytes : List ℕ) (l : LoraLink) → Inv l → Inv (send os c bytes l).0
  unfolding Ordered has_joined
  send-Inv bytes l v = elim (send_cases bytes l) [
    | inl same ↦ subst Inv (sym same) v
    | inr (j, fits, sent) ↦ subst Inv (sym sent) (((v.1 j, refl, fits), v.0), v.1)
  ]

  register_downlink_callback-Inv :
      (callback : ℕ) (l : LoraLink) → Inv l → Inv (register_downlink_callback os c callback l)
  unfolding register_downlink_callback Ordered has_joined
  register_downlink_callback-Inv callback l v = elim (Bool-cases l.is_downlink_registered) [
    | inl h ↦ simp h v
    | inr h ↦ simp h ((tt, v.0), v.1)
  ]

  -- From a transport that is not joined.
  join_network-Inv :
      (keys : JoinConfig) (l : LoraLink)
      → join_config os c ≡ some keys
      → mask l.calls ≡ some (build_us915_channel_mask c.subband)
      → l.is_joined ≡ false
      → Ordered l.calls
      → Inv (join_network os c keys l).0
  unfolding join_network Ordered has_joined adr mask
  join_network-Inv keys l read masked left o = elim (Bool-cases (os.succeeds (join keys ∷ ready))) [
    | inl g ↦ simp g (ordered, λ e. refl)
    | inr g ↦ simp g (ordered, λ e. absurd (ground arith))
  ]
    where
      ready : List Call
      ready =
          enable_adr true
          ∷ set_datarate c.initial_datarate
          ∷ enable_adr false
          ∷ set_class_a
          ∷ l.calls

      ordered : Ordered (join keys ∷ ready)
      ordered = ((refl, masked, read), (tt, (refl, (tt, (tt, o)))))

  connect_with-Inv :
      (read : Option JoinConfig) (l : LoraLink)
      → join_config os c ≡ read
      → l.is_joined ≡ false
      → Ordered l.calls
      → Inv (connect_with os c read l).0
  unfolding connect_with Ordered has_joined mask
  connect_with-Inv none l e left o = (o, λ j. absurd (ground arith))
  connect_with-Inv (some keys) l e left o = elim (Bool-cases (os.succeeds told)) [
    | inl g ↦ simp g (join_network-Inv keys (record l { calls = told }) e refl left (tt, o))
    | inr g ↦ simp g ((tt, o), λ j. absurd (ground arith))
  ]
    where
      told : List Call
      told = set_channels_mask (build_us915_channel_mask c.subband) ∷ l.calls

  connect-Inv : (l : LoraLink) → Inv l → Inv (connect os c l).0
  unfolding connect
  connect-Inv l v =
      connect_with-Inv (join_config os c) (record l { is_joined = false }) refl refl v.0

  unfoldable pub step : Op → LoraLink → LoraLink
  step initializes l = (initialize os c l).0
  step connects l = (connect os c l).0
  step (sends bytes) l = (send os c bytes l).0
  step (registers callback) l = register_downlink_callback os c callback l

  unfoldable pub run : List Op → LoraLink → LoraLink
  unfolding step
  run [] l = l
  run (op ∷ ops) l = run ops (step op l)

  step-Inv : (op : Op) (l : LoraLink) → Inv l → Inv (step op l)
  unfolding step
  step-Inv initializes l v = initialize-Inv l v
  step-Inv connects l v = connect-Inv l v
  step-Inv (sends bytes) l v = send-Inv bytes l v
  step-Inv (registers callback) l v = register_downlink_callback-Inv callback l v

  from : (ops : List Op) (l : LoraLink) → Inv l → Inv (run ops l)
  unfolding run
  from [] l v = v
  from (op ∷ ops) l v = from ops (step op l) (step-Inv op l v)

  -- However the transport is driven from its construction on, every data rate is set while ADR is
  -- off, every join is made with ADR on, under the channel mask of the sub-band and with keys that
  -- were read, and every packet goes out on port 1, after a join that succeeded, and is no longer
  -- than what the stack said it can carry; and a transport that calls itself joined has joined.
  pub run-Ordered : (ops : List Op) → Inv (run ops lora_link_new)
  unfolding Ordered
  run-Ordered ops = from ops lora_link_new (tt, λ e. absurd (ground arith))

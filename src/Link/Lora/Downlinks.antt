-- ===== src/Link/Lora/Downlinks.antt =====
-- The copy of a downlink in `downlink_callback`.
use base_platform_zephyr_ble.Prelude.{
  ℕ, zero, suc, ◌-◌, ◌%◌, ◌^◌, ◌≤◌, ◌<◌, ◌≡◌, refl, ap, ◌∙◌, some, List, [], ◌∷◌, ◌++◌, length,
  take, replicate, ltb, if◌then◌else◌, min, length-append, length-take, length-replicate, arith,
}
use base_platform_zephyr_ble.Link.Lora.{Downlink, max_downlink_size, downlink_callback}

take-take_append : (n : ℕ) (xs ys : List ℕ) → n ≤ length xs → take n (take n xs ++ ys) ≡ take n xs
take-take_append zero xs ys h = refl
take-take_append (suc n) [] ys h = absurd (omega arith)
take-take_append (suc n) (x ∷ xs) ys h = ap (λ t. x ∷ t) (take-take_append n xs ys (omega arith))

-- A downlink as the callback is to see it: the first bytes of the memory, at most as many as there
-- is room for.
pub record Copied (size : ℕ) (memory : List ℕ) (d : Downlink) : Type 0 where
  pub data_length : d.data_length ≡ min size max_downlink_size
  pub room : length d.bytes ≡ max_downlink_size
  pub valid : take d.data_length d.bytes ≡ take d.data_length memory

-- With a callback registered and memory for all the bytes that the stack announces, at most 255:
-- the callback is called with the first of them, 64 at the most, in a buffer of 64, and with their
-- number.
pub downlink_callback-Copied :
    (name port rssi snr size : ℕ) (memory : List ℕ)
    → size < 2 ^ 8
    → size ≤ length memory
    → (d : Downlink) × (downlink_callback (some name) port rssi snr size (some memory)
        ≡ some (name, d))
      × (d.port ≡ port)
      × (d.rssi ≡ rssi)
      × (d.snr ≡ snr)
      × Copied size memory d
unfolding downlink_callback
downlink_callback-Copied name port rssi snr size memory small enough =
    let copied = if ltb max_downlink_size size then max_downlink_size else size in
    let count : copied ≡ min size max_downlink_size = ground arith in
    let same : copied % 2 ^ 8 ≡ copied = omega (arith, count) in
    (
      _,
      refl,
      refl,
      refl,
      refl,
      record {
        data_length = same ∙ count;
        room = omega (
          arith,
          count,
          length-append (take copied memory) (replicate (max_downlink_size - copied) 0),
          length-take copied memory,
          length-replicate {A = ℕ} (max_downlink_size - copied) 0,
        );
        valid = rw same (
            take-take_append copied memory (replicate (max_downlink_size - copied) 0)
              (omega (arith, count)));
      },
    )

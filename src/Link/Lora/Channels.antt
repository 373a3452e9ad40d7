-- ===== src/Link/Lora/Channels.antt =====
-- The channel mask of a US915 sub-band: `build_us915_channel_mask` of
-- src/hal/link/lora/link_lora.cpp.
use mathlib.Core.Path.{subst}
use base_platform_zephyr_ble.Prelude.{
  ℕ, zero, suc, ◌+◌, ◌-◌, ◌*◌, ◌/◌, ◌%◌, ◌^◌, ◌≤◌, ◌<◌, ◌≡◌, refl, Bool, true, false, ◌&&◌, ◌||◌,
  inl, inr, List, set, get_or, replicate, ltb, leb, ◌==◌, if◌then◌else◌, arith, Bool-cases,
}

-- LORAWAN_CHANNELS_MASK_SIZE_US915.
abbrev pub channels_mask_size : ℕ
channels_mask_size = 6

-- The six words of 16 bits; a shift to the left multiplies.
unfoldable pub build_us915_channel_mask : ℕ → List ℕ
build_us915_channel_mask subband =
    let index = (subband + 2 ^ 8 - 1) % 2 ^ 8 in
    set (set (replicate channels_mask_size 0) (index / 2) (255 * 2 ^ (index % 2 * 8) % 2 ^ 16)) 4
      (1 * 2 ^ index % 2 ^ 16)

-- How the radio reads a mask: the bit of a channel in the word that holds it.
unfoldable pub is_enabled : List ℕ → ℕ → Bool
is_enabled mask channel = get_or mask (channel / 16) 0 / 2 ^ (channel % 16) % 2 == 1

-- The channels of a sub-band: eight of 125 kHz, from 8 * (n - 1) on, and the one of 500 kHz that
-- comes with them.
unfoldable pub is_of_subband : ℕ → ℕ → Bool
is_of_subband subband channel =
    leb (8 * (subband - 1)) channel && ltb channel (8 * subband) || (channel == 63 + subband)

unfoldable all_below : ℕ → (ℕ → Bool) → Bool
all_below zero p = true
all_below (suc n) p = p n && all_below n p

all_below_sound : (n : ℕ) (p : ℕ → Bool) (i : ℕ) → all_below n p ≡ true → i < n → p i ≡ true
unfolding all_below
all_below_sound zero p i h l = absurd (omega arith)
all_below_sound (suc n) p i h l = elim (Bool-cases (i == n)) [
  | inl e ↦ let same : n ≡ i = ground arith in subst (λ k. p k ≡ true) same (ground arith)
  | inr e ↦ all_below_sound n p i (ground arith) (ground arith)
]

abbrev is_same : Bool → Bool → Bool
is_same a b = if a then b else (if b then false else true)

is_same-eq : (a b : Bool) → is_same a b ≡ true → a ≡ b
is_same-eq a b h = ground arith

abbrev agrees : ℕ → ℕ → Bool
agrees s channel =
    is_same (is_enabled (build_us915_channel_mask (s + 1)) channel) (is_of_subband (s + 1) channel)

checked : all_below 8 (λ s. all_below 96 (agrees s)) ≡ true
unfolding all_below build_us915_channel_mask is_enabled is_of_subband
checked = refl

-- Of the 96 bits of the mask of a sub-band from 1 to 8, the radio reads as enabled exactly those of
-- the eight 125 kHz channels of the sub-band and of its one 500 kHz channel.
pub build_us915_channel_mask_lem :
    (subband channel : ℕ)
    → 0 < subband
    → subband ≤ 8
    → channel < 16 * channels_mask_size
    → is_enabled (build_us915_channel_mask subband) channel ≡ is_of_subband subband channel
build_us915_channel_mask_lem zero channel low high inside = elim low [ ]
build_us915_channel_mask_lem (suc s) channel low high inside =
    let row : all_below 96 (agrees s) ≡ true =
      all_below_sound 8 (λ k. all_below 96 (agrees k)) s checked (omega arith) in
    let point : agrees s channel ≡ true = all_below_sound 96 (agrees s) channel row inside in
    let same : suc s ≡ s + 1 = omega arith in rw same (is_same-eq _ _ point)

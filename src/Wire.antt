-- ===== src/Wire.antt =====
-- Numbers in the packed little-endian structs of the air and of the uplink.
use base_platform_zephyr_ble.Prelude.{ℕ, ◌+◌, ◌*◌, ◌/◌, ◌%◌, List, [], ◌∷◌, get_or}

-- A byte of an array, and the fields that a `memcpy` from there on gives.
abbrev pub u8_at : List ℕ → ℕ → ℕ
u8_at bytes i = get_or bytes i 0

abbrev pub u16_at : List ℕ → ℕ → ℕ
u16_at bytes i = u8_at bytes i + 256 * u8_at bytes (i + 1)

abbrev pub u32_at : List ℕ → ℕ → ℕ
u32_at bytes i = u16_at bytes i + 65536 * u16_at bytes (i + 2)

-- The bytes of a field in memory.
abbrev pub u16_bytes : ℕ → List ℕ
u16_bytes n = (n % 256) ∷ (n / 256 % 256) ∷ []

abbrev pub u32_bytes : ℕ → List ℕ
u32_bytes n = (n % 256) ∷ (n / 256 % 256) ∷ (n / 65536 % 256) ∷ (n / 16777216 % 256) ∷ []

-- ===== src/Link/Lora/Hex.antt =====
-- The hex texts of the LoRaWAN keys: `parse_hex` of src/hal/link/lora/link_lora.cpp. A text is the
-- list of its characters, and a null pointer is none.
use mathlib.Core.Path.{subst}
use base_platform_zephyr_ble.Prelude.{
  ℕ, zero, suc, ◌+◌, ◌-◌, ◌*◌, ◌/◌, ◌%◌, ◌^◌, ◌<◌, ◌≡◌, ◌↔◌, refl, sym, ap, ap₂, ◌∙◌, not, ◌&&◌,
  ◌⊎◌, inl, inr, Option, none, some, List, [], ◌∷◌, length, map, leb, ◌==◌, if◌then◌else◌, arith,
  Option-cases,
}

-- The digit that a character stands for.
unfoldable pub hex_digit : ℕ → Option ℕ
hex_digit c =
    if leb b'0' c && leb c b'9'
    then some (c - b'0')
    else if leb b'a' c && leb c b'f'
    then some (c - b'a' + 10)
    else if leb b'A' c && leb c b'F'
    then some (c - b'A' + 10)
    else none

-- One round of the outer loop: `(value << 4) | digit` twice, from zero, in a uint8_t. A digit is
-- below 16, so the bits of the two sides are apart and `|` is the sum.
unfoldable pub hex_byte : ℕ → ℕ → Option ℕ
unfolding hex_digit
hex_byte high low = elim (hex_digit high) [
  | none ↦ none
  | some h ↦ (elim (hex_digit low) [ none ↦ none | some l ↦ some ((h * 16 + l) % 2 ^ 8) ])
]

-- The outer loop, for `n` bytes still to come.
unfoldable pub hex_bytes : ℕ → List ℕ → Option (List ℕ)
unfolding hex_byte
hex_bytes zero text = some []
hex_bytes (suc n) [] = none
hex_bytes (suc n) (high ∷ []) = none
hex_bytes (suc n) (high ∷ low ∷ text) =
    let rest = hex_bytes n text in
    elim (hex_byte high low) [
      | none ↦ none
      | some b ↦ (elim rest [ none ↦ none | some bs ↦ some (b ∷ bs) ])
    ]

-- The bytes written, or none for a result of false, after which no caller reads them.
unfoldable pub parse_hex : Option (List ℕ) → ℕ → Option (List ℕ)
unfolding hex_bytes
parse_hex none n = none
parse_hex (some text) n = if not (length text == n * 2) then none else hex_bytes n text

-- The character of a digit, in lower case.
abbrev pub digit_char : ℕ → ℕ
digit_char d = if leb d 9 then d + b'0' else d - 10 + b'a'

abbrev pub hex_text : List ℕ → List ℕ
hex_text [] = []
hex_text (b ∷ bs) = digit_char (b / 16) ∷ digit_char (b % 16) ∷ hex_text bs

abbrev pub lower : ℕ → ℕ
lower c = if leb b'A' c && leb c b'F' then c + 32 else c

abbrev pub AllBytes : List ℕ → Type 0
AllBytes [] = Unit {0}
AllBytes (b ∷ bs) = (b < 2 ^ 8) × AllBytes bs

length-hex_text : (bs : List ℕ) → length (hex_text bs) ≡ length bs * 2
length-hex_text [] = refl
length-hex_text (b ∷ bs) = omega (arith, length-hex_text bs)

hex_digit-digit_char : (d : ℕ) → d < 16 → hex_digit (digit_char d) ≡ some d
unfolding hex_digit
hex_digit-digit_char d h = ground arith

hex_byte-digit_char :
    (b : ℕ) → b < 2 ^ 8 → hex_byte (digit_char (b / 16)) (digit_char (b % 16)) ≡ some b
unfolding hex_byte
hex_byte-digit_char b h =
    let e : (b / 16 * 16 + b % 16) % 2 ^ 8 ≡ b = omega arith in
    rw
      (
        hex_digit-digit_char (b / 16) (omega arith),
        hex_digit-digit_char (b % 16) (omega arith),
        hex_byte,
      )
      (rw e)

hex_bytes-hex_text : (bs : List ℕ) → AllBytes bs → hex_bytes (length bs) (hex_text bs) ≡ some bs
unfolding hex_bytes
hex_bytes-hex_text [] a = refl
hex_bytes-hex_text (b ∷ bs) a = rw (hex_byte-digit_char b a.0, hex_bytes-hex_text bs a.1, hex_bytes)

-- A digit that is read is that of the character in lower case.
hex_digit-some : (c d : ℕ) → hex_digit c ≡ some d → (d < 16) × (lower c ≡ digit_char d)
unfolding hex_digit
hex_digit-some c d h = ground arith

hex_byte-some :
    (high low b : ℕ)
    → hex_byte high low ≡ some b
    → (b < 2 ^ 8) × (lower high ≡ digit_char (b / 16)) × (lower low ≡ digit_char (b % 16))
unfolding hex_byte
hex_byte-some high low b e =
    by_digits (Option-cases (hex_digit high)) (Option-cases (hex_digit low))
  where
    by_digits :
        (hex_digit high ≡ none) ⊎ ((h : ℕ) × (hex_digit high ≡ some h))
        → (hex_digit low ≡ none) ⊎ ((l : ℕ) × (hex_digit low ≡ some l))
        → (b < 2 ^ 8) × (lower high ≡ digit_char (b / 16)) × (lower low ≡ digit_char (b % 16))
    by_digits (inl p) q = absurd (ground arith)
    by_digits (inr (h, p)) (inl q) = absurd (ground arith)
    by_digits (inr (h, p)) (inr (l, q)) =
        let (small_h, text_h) = hex_digit-some high h p in
        let (small_l, text_l) = hex_digit-some low l q in
        let value : (h * 16 + l) % 2 ^ 8 ≡ b = ground arith in
        let left : b / 16 ≡ h = omega arith in
        let right : b % 16 ≡ l = omega arith in
        (omega arith, text_h ∙ ap digit_char (omega arith), text_l ∙ ap digit_char (omega arith))

hex_digit-lower : (c : ℕ) → hex_digit (lower c) ≡ hex_digit c
unfolding hex_digit
hex_digit-lower c = ground arith

hex_byte-lower : (high low : ℕ) → hex_byte (lower high) (lower low) ≡ hex_byte high low
unfolding hex_byte
hex_byte-lower high low = ground (arith, hex_digit-lower high, hex_digit-lower low)

hex_bytes-lower : (n : ℕ) (text : List ℕ) → hex_bytes n (map lower text) ≡ hex_bytes n text
unfolding hex_bytes
hex_bytes-lower zero text = refl
hex_bytes-lower (suc n) [] = refl
hex_bytes-lower (suc n) (high ∷ []) = refl
hex_bytes-lower (suc n) (high ∷ low ∷ text) =
    ground (arith, hex_byte-lower high low, hex_bytes-lower n text)

-- What a successful parse says of its text.
abbrev pub Reads : ℕ → List ℕ → List ℕ → Type 0
Reads n text bs = (length bs ≡ n) × AllBytes bs × (map lower text ≡ hex_text bs)

hex_bytes-Reads :
    (n : ℕ) (text bs : List ℕ) → length text ≡ n * 2 → hex_bytes n text ≡ some bs → Reads n text bs
unfolding hex_bytes
hex_bytes-Reads zero [] bs l e = ground arith
hex_bytes-Reads zero (c ∷ text) bs l e = absurd (omega arith)
hex_bytes-Reads (suc n) [] bs l e = cc
hex_bytes-Reads (suc n) (high ∷ []) bs l e = cc
hex_bytes-Reads (suc n) (high ∷ low ∷ text) bs l e =
    step (Option-cases (hex_byte high low)) (Option-cases (hex_bytes n text))
      (λ rest f. hex_bytes-Reads n text rest (omega arith) f)
  where
    step :
        (hex_byte high low ≡ none) ⊎ ((b : ℕ) × (hex_byte high low ≡ some b))
        → (hex_bytes n text ≡ none) ⊎ ((rest : List ℕ) × (hex_bytes n text ≡ some rest))
        → ((rest : List ℕ) → hex_bytes n text ≡ some rest → Reads n text rest)
        → Reads (suc n) (high ∷ low ∷ text) bs
    step (inl p) q ih = absurd (ground arith)
    step (inr (b, p)) (inl q) ih = absurd (ground arith)
    step (inr (b, p)) (inr (rest, q)) ih =
        let (count, all, same) = ih rest q in
        let (small, h, l) = hex_byte-some high low b p in
        let whole : b ∷ rest ≡ bs = ground arith in
        subst (Reads (suc n) (high ∷ low ∷ text)) whole
          (ap suc count, (small, all), ap₂ ◌∷◌ h (ap₂ ◌∷◌ l same))

-- What a text, null or not, must be for the key `bs` of `n` bytes to be read from it.
abbrev pub Spells : ℕ → Option (List ℕ) → List ℕ → Type 0
Spells n none bs = ⊥
Spells n (some text) bs = (length text ≡ n * 2) × Reads n text bs

-- A key of `n` bytes is read exactly when there is a text, of two characters to a byte, that is,
-- but for the case of its letters, the key written in hex; so a null text, one of another length
-- and one with another character in it are refused.
pub parse_hex_iff :
    (text : Option (List ℕ)) (n : ℕ) (bs : List ℕ) → (parse_hex text n ≡ some bs) ↔ Spells n text bs
unfolding parse_hex
parse_hex_iff none n bs = ((λ e. cc), λ e. absurd e)
parse_hex_iff (some text) n bs = (there, back)
  where
    there : parse_hex (some text) n ≡ some bs → (length text ≡ n * 2) × Reads n text bs
    there e =
        let size : length text ≡ n * 2 = ground arith in
        (size, hex_bytes-Reads n text bs size (ground arith))

    back : (length text ≡ n * 2) × Reads n text bs → parse_hex (some text) n ≡ some bs
    back (size, (count, all, same)) =
        let read : hex_bytes n text ≡ some bs =
          ap (λ k. hex_bytes k text) (sym count)
          ∙ sym (hex_bytes-lower (length bs) text)
          ∙ ap (hex_bytes (length bs)) same
          ∙ hex_bytes-hex_text bs all in
        ground arith

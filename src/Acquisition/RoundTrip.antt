-- ===== src/Acquisition/RoundTrip.antt =====
-- What an endpoint transmits is what the parser accepts.
use base_platform_zephyr_ble.Prelude.{
  ℕ, suc, ◌+◌, ◌-◌, ◌≤◌, ◌≡◌, refl, ap, ap₂, ◌∙◌, List, [], ◌∷◌, ◌++◌, ◌==◌, if◌then◌else◌, length,
  length-append, get_or-append, arith,
}
use mathlib.Core.List.{append_assoc}
use base_platform_zephyr_ble.Config.{Config}
use base_platform_zephyr_ble.Wire.{u8_at}
use base_platform_zephyr_ble.Hal.Ble.{AdvReport}
use base_platform_zephyr_ble.Acquisition.{
  ManufacturerFrame, frame_size, ad_type_manufacturer_specific, frame_at, accepted, rejected,
  parse_from, parse_custom_frame,
}
use base_platform_zephyr_ble.Acquisition.Parse.{
  Element, elements_bytes, AllOther, byte_at, parse_from-elements, parse_from-found, Fits,
  frame_bytes, frame_at-bytes,
}

u8_at-append : (pre xs : List ℕ) (i : ℕ) → u8_at (pre ++ xs) (length pre + i) ≡ u8_at xs i
u8_at-append pre xs i = get_or-append pre xs i 0

frame_at-append : (pre xs : List ℕ) → frame_at (pre ++ xs) (length pre) ≡ frame_at xs 0
unfolding frame_at
frame_at-append pre xs =
    let at = λ (i : ℕ). u8_at-append pre xs i in
    ground (
      arith,
      at 0,
      at 1,
      at 2,
      at 3,
      at 4,
      at 5,
      at 6,
      at 7,
      at 8,
      at 9,
      at 10,
      at 11,
      at 12,
      at 13,
      at 14,
      at 15,
      at 16,
      at 17,
      at 18,
    )

-- An element of the manufacturer type, after the elements that the walk has passed.
abbrev pub frame_element : ManufacturerFrame → List ℕ
frame_element f = 20 ∷ ad_type_manufacturer_specific ∷ frame_bytes f

length-frame_bytes : (f : ManufacturerFrame) → length (frame_bytes f) ≡ frame_size
length-frame_bytes f = refl

length-elements : (es : List Element) → length es ≤ length (elements_bytes es)
length-elements [] = omega arith
length-elements (e ∷ es) =
    omega (arith, length-elements es, length-append e.value (elements_bytes es))

-- A payload as the endpoints build it: other elements first, then the company's own, then whatever
-- follows.
abbrev pub payload : List Element → ManufacturerFrame → List ℕ → List ℕ
payload es f rest = elements_bytes es ++ (frame_element f ++ rest)

-- Behind well-formed elements of other types than the manufacturer's, whatever they hold, and
-- before any bytes, a frame whose fields fit their widths is accepted, field for field, exactly
-- when its company identifier is the expected one; the report's length is the number of its bytes.
pub parse-payload :
    (c : Config) (r : AdvReport) (es : List Element) (f : ManufacturerFrame) (rest : List ℕ)
    → AllOther es
    → Fits f
    → r.bytes ≡ payload es f rest
    → r.data_length ≡ length r.bytes
    → parse_custom_frame c r
      ≡ (if f.company_id == c.expected_company_id then accepted f else rejected)
unfolding parse_custom_frame
parse-payload c r es f rest o v b l =
    ap (λ n. parse_from c r n 0) fuel
    ∙ (parse_from-elements c r es [] (frame_element f ++ rest) (suc left) o b (omega (arith, l))
        ∙ (ap (parse_from c r (suc left)) (omega arith) ∙ found))
  where
    pre : List ℕ
    pre = elements_bytes es

    left : ℕ
    left = r.data_length - length es

    size : length r.bytes ≡ length pre + (21 + length rest)
    size = omega (arith, ap length b, length-append pre (frame_element f ++ rest))

    fuel : r.data_length + 1 ≡ length es + suc left
    fuel = omega (arith, l, size, length-elements es)

    inside : r.bytes ≡ (pre ++ (20 ∷ ad_type_manufacturer_specific ∷ [])) ++ (frame_bytes f ++ rest)
    inside = b ∙ simp append_assoc

    behind : length pre + 2 ≡ length (pre ++ (20 ∷ ad_type_manufacturer_specific ∷ []))
    behind = omega (arith, length-append pre (20 ∷ ad_type_manufacturer_specific ∷ []))

    frame : frame_at r.bytes (length pre + 2) ≡ f
    frame =
        ap₂ frame_at inside behind
        ∙ (frame_at-append (pre ++ (20 ∷ ad_type_manufacturer_specific ∷ []))
              (frame_bytes f ++ rest)
            ∙ frame_at-bytes f rest v)

    found :
        parse_from c r (suc left) (length pre)
        ≡ (if f.company_id == c.expected_company_id then accepted f else rejected)
    found =
        parse_from-found c r left (length pre) f
          (byte_at r pre (frame_element f ++ rest) (length pre) 0 b (omega arith))
          (byte_at r pre (frame_element f ++ rest) (length pre + 1) 1 b refl)
          (omega (arith, l, size)) frame

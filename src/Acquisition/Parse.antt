-- ===== src/Acquisition/Parse.antt =====
-- The parser of the advertising payload: it stops, it reads inside the payload, and it finds the
-- endpoint's frame behind whatever elements stand before it.
use base_platform_zephyr_ble.Prelude.{
  ℕ, zero, suc, ◌+◌, ◌-◌, ◌^◌, ◌<◌, ◌≤◌, ◌≡◌, ◌≢◌, refl, ap, ap₂, ◌∙◌, List, [], ◌∷◌, ◌++◌, ◌==◌,
  if◌then◌else◌, length, length-append, get_or-append, arith,
}
use mathlib.Core.List.{append_assoc}
use base_platform_zephyr_ble.Config.{Config}
use base_platform_zephyr_ble.Wire.{u8_at, u16_at, u32_at, u16_bytes, u32_bytes}
use base_platform_zephyr_ble.Hal.Ble.{AdvReport}
use base_platform_zephyr_ble.Acquisition.{
  ManufacturerFrame, frame_size, ad_type_manufacturer_specific, frame_at, accepted, rejected,
  unfinished, parse_from, parse_custom_frame,
}

parse_from-ne-unfinished :
    (c : Config) (r : AdvReport) (fuel offset : ℕ)
    → r.data_length - offset < fuel
    → parse_from c r fuel offset ≢ unfinished
unfolding parse_from
parse_from-ne-unfinished c r zero offset h e = omega arith
parse_from-ne-unfinished c r (suc fuel) offset h e =
    ground (arith, parse_from-ne-unfinished c r fuel (offset + (1 + u8_at r.bytes offset)))

-- The parser always comes to a verdict, whatever bytes are in the air.
pub parse_custom_frame-total : (c : Config) (r : AdvReport) → parse_custom_frame c r ≢ unfinished
unfolding parse_custom_frame
parse_custom_frame-total c r = parse_from-ne-unfinished c r (r.data_length + 1) 0 (omega arith)

-- Two arrays with the same first `n` bytes.
abbrev pub AgreeBelow : ℕ → List ℕ → List ℕ → Type 0
AgreeBelow n xs ys = (i : ℕ) → i < n → u8_at xs i ≡ u8_at ys i

u16_at-agree :
    (xs ys : List ℕ) (n i : ℕ) → i + 2 ≤ n → AgreeBelow n xs ys → u16_at xs i ≡ u16_at ys i
u16_at-agree xs ys n i h a = ground (arith, a i, a (i + 1))

u32_at-agree :
    (xs ys : List ℕ) (n i : ℕ) → i + 4 ≤ n → AgreeBelow n xs ys → u32_at xs i ≡ u32_at ys i
u32_at-agree xs ys n i h a = ground (arith, u16_at-agree xs ys n i, u16_at-agree xs ys n (i + 2))

frame_at-agree :
    (xs ys : List ℕ) (n i : ℕ)
    → i + frame_size ≤ n
    → AgreeBelow n xs ys
    → frame_at xs i ≡ frame_at ys i
unfolding frame_at
frame_at-agree xs ys n i h a =
    let u16 = λ (j : ℕ) (k : i + j + 2 ≤ n). u16_at-agree xs ys n (i + j) k a in
    ground (
      arith,
      u16_at-agree xs ys n i (omega arith) a,
      a (i + 2),
      a (i + 3),
      u16 4 (omega arith),
      u16 6 (omega arith),
      u16 8 (omega arith),
      u16 10 (omega arith),
      u16 12 (omega arith),
      u32_at-agree xs ys n (i + 14) (omega arith) a,
      a (i + 18),
    )

parse_from-agree :
    (c : Config) (r s : AdvReport) (fuel offset : ℕ)
    → r.data_length ≡ s.data_length
    → AgreeBelow r.data_length r.bytes s.bytes
    → parse_from c r fuel offset ≡ parse_from c s fuel offset
unfolding parse_from
parse_from-agree c r s zero offset l a = refl
parse_from-agree c r s (suc fuel) offset l a = ground (
  arith,
  a offset,
  a (offset + 1),
  parse_from-agree c r s fuel (offset + (1 + u8_at r.bytes offset)) l a,
  frame_at-agree r.bytes s.bytes r.data_length (offset + 2),
)

-- The verdict depends on the first `data_length` bytes alone: no element, however long it claims to
-- be, makes the parser read past the payload.
pub parse_custom_frame-agree :
    (c : Config) (r s : AdvReport)
    → r.data_length ≡ s.data_length
    → AgreeBelow r.data_length r.bytes s.bytes
    → parse_custom_frame c r ≡ parse_custom_frame c s
unfolding parse_custom_frame
parse_custom_frame-agree c r s l a =
    parse_from-agree c r s (r.data_length + 1) 0 l a ∙ ap (λ n. parse_from c s (n + 1) 0) l

-- An AD structure of the payload.
pub record Element : Type 0 where
  pub ad_type : ℕ
  pub value : List ℕ

abbrev pub element_bytes : Element → List ℕ
element_bytes e = suc (length e.value) ∷ e.ad_type ∷ e.value

abbrev pub elements_bytes : List Element → List ℕ
elements_bytes [] = []
elements_bytes (e ∷ es) = element_bytes e ++ elements_bytes es

-- Elements that the parser walks over.
abbrev pub AllOther : List Element → Type 0
AllOther [] = Unit {0}
AllOther (e ∷ es) = (e.ad_type ≢ ad_type_manufacturer_specific) × AllOther es

-- One round over an element that starts at `offset`.
parse_from-skip :
    (c : Config) (r : AdvReport) (fuel offset l : ℕ)
    → u8_at r.bytes offset ≡ suc l
    → u8_at r.bytes (offset + 1) ≢ ad_type_manufacturer_specific
    → offset + 1 + suc l ≤ r.data_length
    → parse_from c r (suc fuel) offset ≡ parse_from c r fuel (offset + (2 + l))
unfolding parse_from
parse_from-skip c r fuel offset l h t k =
    let e : offset + (1 + u8_at r.bytes offset) ≡ offset + (2 + l) = omega arith in
    ground (arith, ap (parse_from c r fuel) e)

-- The round that meets the frame.
pub parse_from-found :
    (c : Config) (r : AdvReport) (fuel offset : ℕ) (f : ManufacturerFrame)
    → u8_at r.bytes offset ≡ 20
    → u8_at r.bytes (offset + 1) ≡ ad_type_manufacturer_specific
    → offset + 21 ≤ r.data_length
    → frame_at r.bytes (offset + 2) ≡ f
    → parse_from c r (suc fuel) offset
      ≡ (if f.company_id == c.expected_company_id then accepted f else rejected)
unfolding parse_from
parse_from-found c r fuel offset f h t k e = ground arith

pub byte_at :
    (r : AdvReport) (pre tail : List ℕ) (offset i : ℕ)
    → r.bytes ≡ pre ++ tail
    → offset ≡ length pre + i
    → u8_at r.bytes offset ≡ u8_at tail i
byte_at r pre tail offset i b e = rw (b, e) (get_or-append pre tail i 0)

-- The walk over leading elements, one unit of fuel each.
pub parse_from-elements :
    (c : Config) (r : AdvReport) (es : List Element) (pre tail : List ℕ) (fuel : ℕ)
    → AllOther es
    → r.bytes ≡ pre ++ (elements_bytes es ++ tail)
    → length r.bytes ≤ r.data_length
    → parse_from c r (length es + fuel) (length pre)
      ≡ parse_from c r fuel (length pre + length (elements_bytes es))
parse_from-elements c r [] pre tail fuel o b l = ap₂ (parse_from c r) (omega arith) (omega arith)
parse_from-elements c r (e ∷ es) pre tail fuel o b l =
    ap (λ n. parse_from c r n (length pre)) more
    ∙ (first
        ∙ (ap (parse_from c r (length es + fuel)) step
            ∙ (parse_from-elements c r es (pre ++ element_bytes e) tail fuel o.1 shifted l
                ∙ ap (parse_from c r fuel) last)))
  where
    all : List ℕ
    all = elements_bytes (e ∷ es) ++ tail

    more : length (e ∷ es) + fuel ≡ suc (length es + fuel)
    more = omega arith

    room : length pre + 1 + suc (length e.value) ≤ r.data_length
    room = omega (
      arith,
      ap length b,
      length-append pre all,
      length-append (elements_bytes (e ∷ es)) tail,
      length-append (element_bytes e) (elements_bytes es),
    )

    first :
        parse_from c r (suc (length es + fuel)) (length pre)
        ≡ parse_from c r (length es + fuel) (length pre + (2 + length e.value))
    first =
        parse_from-skip c r (length es + fuel) (length pre) (length e.value)
          (byte_at r pre all (length pre) 0 b (omega arith))
          (rw (byte_at r pre all (length pre + 1) 1 b refl) o.0) room

    step : length pre + (2 + length e.value) ≡ length (pre ++ element_bytes e)
    step = omega (arith, length-append pre (element_bytes e))

    shifted : r.bytes ≡ (pre ++ element_bytes e) ++ (elements_bytes es ++ tail)
    shifted = b ∙ simp append_assoc

    last :
        length (pre ++ element_bytes e) + length (elements_bytes es)
        ≡ length pre + length (elements_bytes (e ∷ es))
    last = omega (
      arith,
      length-append pre (element_bytes e),
      length-append (element_bytes e) (elements_bytes es),
    )

-- The fields of a frame fit their widths.
pub record Fits (f : ManufacturerFrame) : Type 0 where
  pub company : f.company_id < 2 ^ 16
  pub pressure : f.sensor_data.sns_pressure < 2 ^ 16
  pub x : f.sensor_data.acc_x_raw_data < 2 ^ 16
  pub y : f.sensor_data.acc_y_raw_data < 2 ^ 16
  pub z : f.sensor_data.acc_z_raw_data < 2 ^ 16
  pub battery : f.sensor_data.battery_mv < 2 ^ 16
  pub time : f.sensor_data.timestamp < 2 ^ 32

-- The value that an endpoint transmits for a frame.
abbrev pub frame_bytes : ManufacturerFrame → List ℕ
frame_bytes f =
    u16_bytes f.company_id
    ++ (f.sensor_data.sns_temperature
        ∷ f.sensor_data.sns_humidity
        ∷ (u16_bytes f.sensor_data.sns_pressure
            ++ (u16_bytes f.sensor_data.acc_x_raw_data
                ++ (u16_bytes f.sensor_data.acc_y_raw_data
                    ++ (u16_bytes f.sensor_data.acc_z_raw_data
                        ++ (u16_bytes f.sensor_data.battery_mv
                            ++ (u32_bytes f.sensor_data.timestamp
                                ++ (f.sensor_data.status_flags ∷ []))))))))

pub frame_at-bytes :
    (f : ManufacturerFrame) (rest : List ℕ) → Fits f → frame_at (frame_bytes f ++ rest) 0 ≡ f
unfolding frame_at
frame_at-bytes f rest v = ground arith

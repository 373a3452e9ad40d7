-- ===== src/Concentrator/Delivery/Frame.antt =====
-- An advertisement with the frame of an endpoint, as far as the device table.
use base_platform_zephyr_ble.Prelude.{
  ℕ, ◌+◌, ◌≤◌, ◌≡◌, refl, ap, ◌∙◌, List, [], ◌∷◌, ◌++◌, take, zero, suc, length, arith,
}
use base_platform_zephyr_ble.Config.{Config}
use base_platform_zephyr_ble.DeviceTable.{Table, upsert}
use base_platform_zephyr_ble.Hal.Ble.{AdvReport, adv_report, max_adv_data_size}
use base_platform_zephyr_ble.Acquisition.{
  ManufacturerFrame, parse_custom_frame, accepted, reading_of, consume,
}
use base_platform_zephyr_ble.Acquisition.Parse.{Element, AllOther, Fits}
use base_platform_zephyr_ble.Acquisition.RoundTrip.{payload, parse-payload}
use base_platform_zephyr_ble.Acquisition.Drain.{consume_all}

pub consume_all-append :
    (c : Config) (clock : ℕ → ℕ) (k : ℕ) (xs : List AdvReport) (r : AdvReport) (t : Table)
    → consume_all c clock k (xs ++ (r ∷ [])) t
      ≡ consume c (clock (k + length xs)) r (consume_all c clock k xs t)
consume_all-append c clock k [] r t = ap (λ i. consume c (clock i) r t) (omega arith)
consume_all-append c clock k (x ∷ xs) r t =
    consume_all-append c clock (k + 1) xs r (consume c (clock k) x t)
    ∙ ap (λ i. consume c (clock i) r (consume_all c clock (k + 1) xs (consume c (clock k) x t)))
        (omega arith)

-- An advertisement with the frame of an endpoint of the expected company, in a payload that fits.
pub record Advertised (c : Config) (f : ManufacturerFrame) (buffer : List ℕ) : Type 0 where
  pub elements : List Element
  pub rest : List ℕ
  pub others : AllOther elements
  pub fits : Fits f
  pub bytes : buffer ≡ payload elements f rest
  pub short : length buffer ≤ max_adv_data_size
  pub company : f.company_id ≡ c.expected_company_id

take_whole : (n : ℕ) (xs : List ℕ) → length xs ≤ n → take n xs ≡ xs
take_whole zero [] h = refl
take_whole (suc n) [] h = refl
take_whole zero (x ∷ xs) h = absurd (omega arith)
take_whole (suc n) (x ∷ xs) h = ap (λ ys. x ∷ ys) (take_whole n xs (omega arith))

-- The report that the scanner makes of it is accepted, and recorded.
pub consume-Advertised :
    (c : Config) (now : ℕ) (address : List ℕ) (address_type rssi : ℕ) (buffer : List ℕ)
    (f : ManufacturerFrame) (t : Table)
    → Advertised c f buffer
    → consume c now (adv_report address address_type rssi buffer) t
      ≡ upsert t address rssi (reading_of f) now
unfolding consume
consume-Advertised c now address address_type rssi buffer f t v =
    let r = adv_report address address_type rssi buffer in
    let whole : r.bytes ≡ buffer = ground (arith, v.short, take_whole (length buffer) buffer) in
    let size : r.data_length ≡ length r.bytes = ground (arith, v.short, whole) in
    let parsed : parse_custom_frame c r ≡ accepted f =
      parse-payload c r v.elements f v.rest v.others v.fits (whole ∙ v.bytes) size
      ∙ ground (arith, v.company) in
    rw (parsed, consume) refl

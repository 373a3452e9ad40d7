-- ===== src/Link/Lora/Uplinks.antt =====
-- A dispatch of svc::comms over the LoRaWAN transport.
use base_platform_zephyr_ble.Prelude.{
  ℕ, suc, ◌+◌, ◌≤◌, ◌<◌, ap, inl, inr, List, [], ◌∷◌, length, length-append, arith,
}
use base_platform_zephyr_ble.Config.{Config}
use base_platform_zephyr_ble.Link.Lora.{
  Call, transmit, Radio, LoraConfig, LoraLink, send, lora_link,
}
use base_platform_zephyr_ble.Link.Lora.Order.{Inv, send_cases, send-Inv}
use base_platform_zephyr_ble.Comms.{World, Env, dispatch}
use base_platform_zephyr_ble.Comms.Dispatch.{Ready}
use base_platform_zephyr_ble.Comms.Delivered.{dispatch-Offers}
use base_platform_zephyr_ble.Comms.Transport.{dispatch-keeps}

-- The number of packets on the air.
unfoldable pub transmissions : List Call → ℕ
transmissions [] = 0
transmissions (call ∷ calls) =
    let before = transmissions calls in elim call [ transmit port bytes ↦ suc before | _ ↦ before ]

module _ (radio : Radio) (lora : LoraConfig) where
  -- A send puts at most one packet on the air.
  send_once :
      (bytes : List ℕ) (l : LoraLink)
      → transmissions (send radio lora bytes l).0.calls ≤ suc (transmissions l.calls)
  unfolding transmissions
  send_once bytes l = elim (send_cases radio lora bytes l) [
    | inl same ↦ omega (arith, ap (λ k. transmissions k.calls) same)
    | inr (_, _, sent) ↦ omega (arith, ap (λ k. transmissions k.calls) sent)
  ]

module _ (radio : Radio) (lora : LoraConfig) (c : Config) (env : Env) where
  -- Over LoRaWAN, with a limit of one uplink or more: a dispatch puts no more packets on the air
  -- than the limit, and keeps the order of the calls.
  pub dispatch-transmissions :
      (w : World LoraLink)
      → Ready c (lora_link radio lora) env w
      → 0 < lora.max_uplinks_per_dispatch
      → Inv radio lora w.link
      → (transmissions (dispatch c (lora_link radio lora) env w).link.calls
          ≤ transmissions w.link.calls + lora.max_uplinks_per_dispatch)
        × Inv radio lora (dispatch c (lora_link radio lora) env w).link
  dispatch-transmissions w ready some v =
      let offers = dispatch-Offers c (lora_link radio lora) env w ready in
      let kept = dispatch-keeps c (lora_link radio lora) env Counted counts w (v, omega arith) in
      (
        omega (
          arith,
          kept.1,
          offers.few,
          ap length offers.offered,
          length-append offers.payloads w.offered,
        ),
        kept.0,
      )
    where
      Counted : LoraLink → List (List ℕ) → Type 0
      Counted l offered =
          Inv radio lora l
          × (transmissions l.calls + length w.offered ≤ transmissions w.link.calls + length offered)

      counts :
          (bytes : List ℕ) (l : LoraLink) (offered : List (List ℕ))
          → Counted l offered
          → Counted (send radio lora bytes l).0 (bytes ∷ offered)
      counts bytes l offered (i, n) =
          (send-Inv radio lora bytes l i, omega (arith, send_once radio lora bytes l))

-- ===== src/Link/Lora/Accepts.antt =====
-- The LoRaWAN transport in the states that the sends of a dispatch lead it to: `send` of
-- src/hal/link/lora/link_lora.cpp keeps the link joined.
use base_platform_zephyr_ble.Prelude.{ℕ, ◌≤◌, ◌≡◌, refl, ◌∙◌, true, List, length, arith}
use base_platform_zephyr_ble.Link.{no_error}
use base_platform_zephyr_ble.Link.Lora.{
  Call, Radio, LoraConfig, LoraLink, called, transmit, send, lora_link, get_available_payload_size,
}
use base_platform_zephyr_ble.Comms.Fragments.Reach.{Reaches, here, after}

module _ (os : Radio) (c : LoraConfig) where
  send-joined : (p : List ℕ) (l : LoraLink) → (send os c p l).0.is_joined ≡ l.is_joined
  unfolding send
  send-joined p l = ground arith

  Reaches-joined :
      (size : ℕ) (l l' : LoraLink) → Reaches (lora_link os c) size l l' → l'.is_joined ≡ l.is_joined
  Reaches-joined size l l' (here _) = refl
  Reaches-joined size l l' (after p _ _ _ _ next) =
      Reaches-joined size (send os c p l).0 l' next ∙ send-joined p l

  -- A joined link whose stack is ready, takes every call and keeps its sizes: behind any number of
  -- sends it accepts every payload of the size that it announced at first.
  pub send_accepts :
      (l : LoraLink)
      → l.is_joined ≡ true
      → ((calls : List Call) → os.is_ready calls ≡ true)
      → ((calls : List Call) → os.succeeds calls ≡ true)
      → ((calls : List Call) → os.payload_sizes calls ≡ os.payload_sizes l.calls)
      → (p : List ℕ) (l' : LoraLink)
      → Reaches (lora_link os c) (get_available_payload_size os c l) l l'
      → length p ≤ get_available_payload_size os c l
      → (send os c p l').1 ≡ no_error
  unfolding send
  send_accepts l on ready takes same p l' reach fits =
      let on' = Reaches-joined (get_available_payload_size os c l) l l' reach in
      let sizes = same l'.calls in
      let now = ready l'.calls in let good = takes (called l' (transmit 1 p)).calls in ground arith

-- ===== src/Link/Socket/Address.antt =====
-- The wait for an address of the network interface.
use base_platform_zephyr_ble.Prelude.{
  ℕ, zero, suc, ◌+◌, ◌*◌, ◌%◌, ◌^◌, ◌≤◌, ◌<◌, ◌≡◌, refl, Bool, true, false, ◌⊎◌, inl, inr, Option,
  some, ltb, arith, Bool-cases, ltb→lt,
}
use native.Mathlib.Decide.{ℕ_discrete}
use base_platform_zephyr_ble.Link.Socket.{address_poll_ms, wait_from, wait_for_ipv4_address}

-- How a wait can end: an address is seen at a poll within the time, or at none of them.
abbrev pub Waited : (ℕ → Bool) → ℕ → ℕ → Option Bool → Type 0
Waited appears timeout_ms from_poll o =
    ((o ≡ some true)
      × ((i : ℕ) × (from_poll ≤ i) × (i * address_poll_ms < timeout_ms) × (appears i ≡ true)))
    ⊎ ((o ≡ some false)
        × ((i : ℕ) → from_poll ≤ i → i * address_poll_ms < timeout_ms → appears i ≡ false))

wait_from-Waited :
    (appears : ℕ → Bool) (timeout_ms fuel poll : ℕ)
    → timeout_ms + address_poll_ms ≤ 2 ^ 32
    → timeout_ms < fuel + poll
    → poll ≤ timeout_ms
    → poll * address_poll_ms < timeout_ms + address_poll_ms
    → Waited appears timeout_ms poll (wait_from appears timeout_ms fuel poll)
unfolding wait_from
wait_from-Waited appears t zero poll room h k s = absurd (omega arith)
wait_from-Waited appears t (suc fuel) poll room h k s =
    let whole : poll * address_poll_ms % 2 ^ 32 ≡ poll * address_poll_ms = omega arith in
    elim (Bool-cases (ltb (poll * address_poll_ms) t)) [
      | inr late ↦
          simp (whole, late, wait_from) (inr (refl, λ i below within. absurd (ground arith)))
      | inl soon ↦ elim (Bool-cases (appears poll)) [
        | inl seen ↦
            simp (whole, soon, seen, wait_from)
              (inl (refl, (poll, omega arith, ground arith, seen)))
        | inr unseen ↦
            simp (whole, soon, unseen, wait_from)
              (later
                (wait_from-Waited appears t fuel (suc poll) room (omega arith)
                  (early (ltb→lt (poll * address_poll_ms) t soon))
                  (let soon = ltb→lt (poll * address_poll_ms) t soon in omega arith))
                unseen)
      ]
    ]
  where
    early : poll * address_poll_ms < t → suc poll ≤ t
    early w = omega arith

    later :
        Waited appears t (suc poll) (wait_from appears t fuel (suc poll))
        → appears poll ≡ false
        → Waited appears t poll (wait_from appears t fuel (suc poll))
    later (inl (e, (i, below, within, seen))) u = inl (e, (i, omega arith, within, seen))
    later (inr (e, never)) u = inr (
      e,
      λ i below within. elim (ℕ_discrete poll i) [
        | yes same ↦ rw (← same) u
        | no other ↦ never i (omega arith) within
      ],
    )

-- With a timeout that leaves a poll's 250 ms below 2^32, so that the count of milliseconds does not
-- wrap before it gets there, the wait ends: with true exactly when some poll made before the
-- timeout has run out finds an address, and with false exactly when none does.
pub wait_for_ipv4_address-Waited :
    (appears : ℕ → Bool) (timeout_ms : ℕ)
    → timeout_ms + address_poll_ms ≤ 2 ^ 32
    → Waited appears timeout_ms 0 (wait_for_ipv4_address appears timeout_ms)
unfolding wait_for_ipv4_address
wait_for_ipv4_address-Waited appears timeout_ms room =
    wait_from-Waited appears timeout_ms (timeout_ms + 1) 0 room (omega arith) (omega arith)
      (omega arith)

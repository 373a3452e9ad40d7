-- ===== src/Link/Socket/Ipv4.antt =====
-- How an interface gets its address: `apply_static_ipv4` of src/hal/link/socket/socket_link.cpp, and
-- the choice between it and DHCP that the Ethernet and the Wi-Fi transport both make.
use base_platform_zephyr_ble.Prelude.{
  ℕ, ◌*◌, ◌<◌, ◌≡◌, refl, Bool, true, false, ◌⊎◌, inl, inr, Option, none, some, List, if◌then◌else◌,
  ◌>>=◌, arith, Bool-cases,
}
use base_platform_zephyr_ble.Link.{LinkError, no_error, config_error}
use base_platform_zephyr_ble.Link.Socket.{address_poll_ms, wait_for_ipv4_address}
use base_platform_zephyr_ble.Link.Socket.Address.{Waited, wait_for_ipv4_address-Waited}

-- The part of config.hpp about the address. The texts are the characters of the strings.
pub record Addressing : Type 0 where
  pub use_dhcp : Bool
  pub local_ip : List ℕ
  pub netmask : List ℕ
  pub gateway : List ℕ

-- What the calls have set on the interface.
pub record Iface : Type 0 where
  pub address : Option ℕ
  pub netmask : Option ℕ
  pub gateway : Option ℕ
  pub dhcp_started : Bool

-- Zephyr's network stack: the address that a text stands for, none for a text that
-- `net_addr_pton` refuses; whether an address can be added; and whether an
-- interface, as the calls have left it, has one at a poll.
pub record Ipv4 : Type 0 where
  pub net_addr_pton : List ℕ → Option ℕ
  pub adds : Bool
  pub appears : Iface → ℕ → Bool

abbrev pub address_wait_ms : ℕ
address_wait_ms = 15 * 1000

module _ (net : Ipv4) (a : Addressing) where
  -- The three texts as addresses.
  unfoldable pub static_ipv4 : Option (ℕ × ℕ × ℕ)
  static_ipv4 = do
    address ← net.net_addr_pton a.local_ip
    netmask ← net.net_addr_pton a.netmask
    gateway ← net.net_addr_pton a.gateway
    some (address, netmask, gateway)

  unfoldable pub apply : Option (ℕ × ℕ × ℕ) → Iface → Iface × Bool
  apply none i = (i, false)
  apply (some (address, netmask, gateway)) i =
      if net.adds
      then (
        record i { address = some address; netmask = some netmask; gateway = some gateway },
        true,
      )
      else (i, false)

  unfoldable pub apply_static_ipv4 : Iface → Iface × Bool
  unfolding apply
  apply_static_ipv4 i = apply static_ipv4 i

  -- The wait for a lease, on the interface as the call of DHCP has left it.
  unfoldable pub await : Iface → Iface × LinkError
  await i = (
    i,
    elim (wait_for_ipv4_address (net.appears i) address_wait_ms) [
      | some true ↦ no_error
      | some false ↦ config_error
      | none ↦ config_error
    ],
  )

  -- The end of `bring_up_network` in both transports. The wait does not run out of fuel.
  unfoldable pub take_address : Iface → Iface × LinkError
  unfolding apply_static_ipv4 await
  take_address i =
      let (i', applied) = apply_static_ipv4 i in
      if a.use_dhcp
      then await (record i { dhcp_started = true })
      else (i', if applied then no_error else config_error)

  -- The two ways to an address: from DHCP, which has been started, at a poll before the wait is
  -- over, or as configured, with three texts that are addresses and a stack that takes the first.
  pub data Addressed (i' : Iface) : Type 0 where
    leased :
        (poll : ℕ)
        → a.use_dhcp ≡ true
        → poll * address_poll_ms < address_wait_ms
        → i'.dhcp_started ≡ true
        → net.appears i' poll ≡ true
        → Addressed i'
    configured :
        (address netmask gateway : ℕ)
        → a.use_dhcp ≡ false
        → static_ipv4 ≡ some (address, netmask, gateway)
        → net.adds ≡ true
        → i'.address ≡ some address
        → i'.netmask ≡ some netmask
        → i'.gateway ≡ some gateway
        → Addressed i'

  pub data Unaddressed (i' : Iface) : Type 0 where
    no_lease :
        a.use_dhcp ≡ true
        → i'.dhcp_started ≡ true
        → ((poll : ℕ) → poll * address_poll_ms < address_wait_ms → net.appears i' poll ≡ false)
        → Unaddressed i'
    unreadable : a.use_dhcp ≡ false → static_ipv4 ≡ none → Unaddressed i'
    refused : a.use_dhcp ≡ false → net.adds ≡ false → Unaddressed i'

  abbrev pub Took : Iface → LinkError → Type 0
  Took i' e = ((e ≡ no_error) × Addressed i') ⊎ ((e ≡ config_error) × Unaddressed i')

  by_dhcp :
      (i : Iface) (o : Option Bool)
      → a.use_dhcp ≡ true
      → i.dhcp_started ≡ true
      → Waited (net.appears i) address_wait_ms 0 o
      → Took i (elim o [ some true ↦ no_error | some false ↦ config_error | none ↦ config_error ])
  by_dhcp i o d on (inl (e, (poll, _, soon, seen))) = inl (rw e refl, leased poll d soon on seen)
  by_dhcp i o d on (inr (e, never)) =
      inr (rw e refl, no_lease d on (λ poll soon. never poll (omega arith) soon))

  by_config :
      (i : Iface) (o : Option (ℕ × ℕ × ℕ))
      → a.use_dhcp ≡ false
      → static_ipv4 ≡ o
      → Took (apply o i).0 (if (apply o i).1 then no_error else config_error)
  unfolding apply
  by_config i none d e = inr (refl, unreadable d e)
  by_config i (some (address, netmask, gateway)) d e = elim (Bool-cases net.adds) [
    | inl h ↦ simp h (inl (refl, configured address netmask gateway d e h refl refl refl))
    | inr h ↦ simp h (inr (refl, refused d h))
  ]

  -- An interface gets its address, or a configuration error says that it cannot: without DHCP
  -- when a text is not an address or the stack does not take it, with DHCP, which is then started,
  -- when none of the polls that are made of it within fifteen seconds finds one.
  pub take_address-Took : (i : Iface) → Took (take_address i).0 (take_address i).1
  unfolding take_address await
  take_address-Took i = elim (Bool-cases a.use_dhcp) [
    | inl d ↦ simp d (
        by_dhcp (record i { dhcp_started = true })
          (wait_for_ipv4_address (net.appears (record i { dhcp_started = true })) address_wait_ms) d
          refl
          (wait_for_ipv4_address-Waited (net.appears (record i { dhcp_started = true }))
            address_wait_ms (omega arith)))
    | inr d ↦ simp d (by_config i static_ipv4 d refl)
  ]

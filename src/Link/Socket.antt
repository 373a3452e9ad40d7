-- ===== src/Link/Socket.antt =====
-- src/hal/link/socket: the transport over a TCP socket. Zephyr's socket calls are the interface
-- `Net`, with the state `N` of the network stack; `wire` is what the peer is sent.
pub mod Send
pub mod Address
pub mod Ipv4
use base_platform_zephyr_ble.Prelude.{
  ℕ, zero, suc, ◌+◌, ◌-◌, ◌*◌, ◌%◌, ◌^◌, ◌≤◌, ◌<◌, ◌≡◌, refl, Bool, true, false, not, Option, none,
  some, List, [], ◌∷◌, ◌++◌, length, take, drop, ltb, if◌then◌else◌,
}
use base_platform_zephyr_ble.Link.{
  Link, LinkError, no_error, not_ready, config_error, connect_error, payload_too_large, send_error,
}

-- `send` gives the number of bytes taken, or none for a result that is not positive. A call that
-- fails takes nothing, and one that succeeds takes at least one byte, from the front.
pub record Net (N : Type 0) : Type 0 where
  pub address_is_valid : Bool
  pub socket : N → N × Option ℕ
  pub set_timeouts : ℕ → ℕ → N → N
  pub connect : ℕ → N → N × Bool
  pub send : ℕ → List ℕ → N → N × Option ℕ
  pub close : ℕ → N → N
  pub wire : N → List ℕ
  pub close_lem : (fd : ℕ) (n : N) → wire (close fd n) ≡ wire n
  pub send_failed :
      (fd : ℕ) (bytes : List ℕ) (n : N)
      → (send fd bytes n).1 ≡ none
      → wire (send fd bytes n).0 ≡ wire n
  pub send_taken :
      (fd k : ℕ) (bytes : List ℕ) (n : N)
      → (send fd bytes n).1 ≡ some k
      → (0 < k) × (k ≤ length bytes) × (wire (send fd bytes n).0 ≡ wire n ++ take k bytes)

-- `m_config`.
pub record SocketConfig : Type 0 where
  pub connect_timeout_ms : ℕ
  pub max_fragment : ℕ

-- `socket` is none where m_socket is negative.
pub record SocketLink (N : Type 0) : Type 0 where
  pub socket : Option ℕ
  pub is_connected : Bool
  pub net : N

module _ {N : Type 0} (os : Net N) (c : SocketConfig) where
  unfoldable pub close_socket : SocketLink N → SocketLink N
  close_socket l = elim l.socket [
    | none ↦ l
    | some fd ↦ record l { socket = none; net = os.close fd l.net }
  ]

  -- `connect` on the socket that it has opened.
  unfoldable pub connect_socket : ℕ → SocketLink N → SocketLink N × LinkError
  unfolding close_socket
  connect_socket fd l =
      let (n, connected) = os.connect fd (os.set_timeouts c.connect_timeout_ms fd l.net) in
      let l' = record l { net = n } in
      if connected
      then (record l' { is_connected = true }, no_error)
      else (close_socket l', connect_error)

  unfoldable pub open_socket : SocketLink N → SocketLink N × LinkError
  unfolding connect_socket
  open_socket l =
      let (n, opened) = os.socket l.net in
      elim opened [
        | none ↦ (record l { net = n }, not_ready)
        | some fd ↦ connect_socket fd (record l { socket = some fd; net = n })
      ]

  unfoldable pub connect : SocketLink N → SocketLink N × LinkError
  unfolding open_socket
  connect l =
      if l.is_connected
      then (l, no_error)
      else if not os.address_is_valid
      then (close_socket l, config_error)
      else open_socket (close_socket l)

  abbrev pub get_max_payload_size : SocketLink N → ℕ
  get_max_payload_size l = if l.is_connected then c.max_fragment else 0

  -- The loop of `send`, on the bytes that are left; none is out of fuel.
  unfoldable pub send_loop : ℕ → ℕ → List ℕ → SocketLink N → Option (SocketLink N × LinkError)
  unfolding close_socket
  send_loop fuel fd [] l = some (l, no_error)
  send_loop zero fd (b ∷ bs) l = none
  send_loop (suc fuel) fd (b ∷ bs) l =
      let (n, result) = os.send fd (b ∷ bs) l.net in
      elim result [
        | none ↦
            some (record (close_socket (record l { net = n })) { is_connected = false }, send_error)
        | some k ↦ send_loop fuel fd (drop k (b ∷ bs)) (record l { net = n })
      ]

  -- As much fuel as there are bytes is enough, so the case `none` does not arise.
  unfoldable pub send : List ℕ → SocketLink N → SocketLink N × LinkError
  unfolding send_loop
  send bytes l =
      if not l.is_connected
      then (l, connect_error)
      else if ltb (get_max_payload_size l) (length bytes)
      then (l, payload_too_large)
      else (elim l.socket [
        | none ↦ (elim bytes [
          | [] ↦ (l, no_error)
          | b ∷ bs ↦ (record l { is_connected = false }, send_error)
        ])
        | some fd ↦ (elim (send_loop (length bytes) fd bytes l) [
          | none ↦ (l, no_error)
          | some r ↦ r
        ])
      ])

  -- The transport as svc::comms sees it. `bring_up_network` is the virtual part of `initialize`.
  abbrev pub socket_link : (SocketLink N → SocketLink N × LinkError) → Link (SocketLink N)
  socket_link bring_up_network = record {
    initialize = bring_up_network;
    connect = connect;
    is_connected = λ l. l.is_connected;
    send = send;
    get_max_payload_size = get_max_payload_size;
    get_available_payload_size = get_max_payload_size;
    get_max_uplinks_per_dispatch = λ l. 2 ^ 8 - 1;
  }

abbrev pub address_poll_ms : ℕ
address_poll_ms = 250

-- The loop of `wait_for_ipv4_address` from its poll number `poll` on: `waited_ms` adds up the
-- delays in a uint32_t, `appears` tells whether the interface has an address at a poll, and none is
-- out of fuel.
unfoldable pub wait_from : (ℕ → Bool) → ℕ → ℕ → ℕ → Option Bool
wait_from appears timeout_ms zero poll = none
wait_from appears timeout_ms (suc fuel) poll =
    let rest = wait_from appears timeout_ms fuel (suc poll) in
    if ltb (poll * address_poll_ms % 2 ^ 32) timeout_ms
    then (if appears poll then some true else rest)
    else some false

unfoldable pub wait_for_ipv4_address : (ℕ → Bool) → ℕ → Option Bool
unfolding wait_from
wait_for_ipv4_address appears timeout_ms = wait_from appears timeout_ms (timeout_ms + 1) 0

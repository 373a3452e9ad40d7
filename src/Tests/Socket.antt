-- ===== src/Tests/Socket.antt =====
-- The TCP transport over a network that takes one byte at a time, and over one that is down.
use base_platform_zephyr_ble.Prelude.{
  ℕ, ◌<◌, ◌≤◌, ◌≡◌, refl, sym, Bool, true, false, Option, none, some, List, [], ◌∷◌, ◌++◌, length,
  take, leb, arith,
}
use base_platform_zephyr_ble.Link.{no_error}
use base_platform_zephyr_ble.Link.Socket.{
  Net, SocketConfig, SocketLink, send, connect, wait_for_ipv4_address,
}
use base_platform_zephyr_ble.Link.Socket.Address.{Waited, wait_for_ipv4_address-Waited}
use base_platform_zephyr_ble.Link.Socket.Send.{Open, Sent, send-Sent, connect-Open}

-- The state is the wire; `up` is whether the peer takes bytes.
abbrev send_byte : Bool → List ℕ → List ℕ → List ℕ × Option ℕ
send_byte up [] wire = (wire, none)
send_byte true (b ∷ bs) wire = (wire ++ (b ∷ []), some 1)
send_byte false (b ∷ bs) wire = (wire, none)

send_byte_failed :
    (up : Bool) (bytes wire : List ℕ)
    → (send_byte up bytes wire).1 ≡ none
    → (send_byte up bytes wire).0 ≡ wire
send_byte_failed up [] wire e = refl
send_byte_failed true (b ∷ bs) wire e = cc
send_byte_failed false (b ∷ bs) wire e = refl

send_byte_taken :
    (up : Bool) (k : ℕ) (bytes wire : List ℕ)
    → (send_byte up bytes wire).1 ≡ some k
    → (0 < k) × (k ≤ length bytes) × ((send_byte up bytes wire).0 ≡ wire ++ take k bytes)
send_byte_taken up k [] wire e = cc
send_byte_taken true k (b ∷ bs) wire e =
    let one : 1 ≡ k = ground arith in rw (sym one) (omega arith, omega arith, refl)
send_byte_taken false k (b ∷ bs) wire e = cc

net : Bool → Net (List ℕ)
net up = record {
  address_is_valid = true;
  socket = λ n. (n, some 3);
  set_timeouts = λ ms fd n. n;
  connect = λ fd n. (n, up);
  send = λ fd bytes n. send_byte up bytes n;
  close = λ fd n. n;
  wire = λ n. n;
  close_lem = λ fd n. refl;
  send_failed = λ fd bytes n e. send_byte_failed up bytes n e;
  send_taken = λ fd k bytes n e. send_byte_taken up k bytes n e;
}

abbrev config : SocketConfig
config = record { connect_timeout_ms = 5000; max_fragment = 51 }

abbrev joined : SocketLink (List ℕ)
joined = record { socket = some 3; is_connected = true; net = [] }

abbrev fresh : SocketLink (List ℕ)
fresh = record { socket = none; is_connected = false; net = [] }

abbrev bytes : List ℕ
bytes = 7 ∷ 8 ∷ 9 ∷ []

send-Sent_example :
    Sent
      (net true)
      config
      bytes
      joined
      (send (net true) config bytes joined).0
      (send (net true) config bytes joined).1
send-Sent_example = send-Sent (net true) config bytes joined (λ on e. cc)

send_all : (send (net true) config bytes joined).0.net ≡ bytes
unfolding send net
send_all = refl

send_when_down : (send (net false) config bytes joined).0.is_connected ≡ false
unfolding send net
send_when_down = refl

connect-Open_example :
    Open (net true) config (connect (net true) config fresh).0
    × (((connect (net true) config fresh).0.is_connected ≡ true
          → (connect (net true) config fresh).1 ≡ no_error)
        × ((connect (net true) config fresh).1 ≡ no_error
            → (connect (net true) config fresh).0.is_connected ≡ true))
connect-Open_example = connect-Open (net true) config fresh (λ on e. cc)

-- The address is there from the third poll on.
abbrev third_poll : ℕ → Bool
third_poll i = leb 2 i

wait_for_ipv4_address-Waited_example :
    Waited third_poll 1000 0 (wait_for_ipv4_address third_poll 1000)
wait_for_ipv4_address-Waited_example = wait_for_ipv4_address-Waited third_poll 1000 (omega arith)

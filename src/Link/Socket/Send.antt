-- ===== src/Link/Socket/Send.antt =====
-- `send` on every path: all of the payload on the wire, or a connection that is dropped.
use base_platform_zephyr_ble.Prelude.{
  ℕ, zero, suc, ◌+◌, ◌≤◌, ◌<◌, ◌≡◌, ◌≢◌, refl, sym, ap, ◌∙◌, true, false, inl, inr, Option, none,
  some, List, [], ◌∷◌, ◌++◌, length, take, drop, length-drop, take-append-drop, ltb, arith,
  Bool-cases, Option-cases,
}
use mathlib.Core.List.{append_assoc, append-nil}
use base_platform_zephyr_ble.Link.{
  LinkError, no_error, connect_error, payload_too_large, send_error,
}
use base_platform_zephyr_ble.Link.Socket.{
  Net, SocketConfig, SocketLink, close_socket, connect, connect_socket, open_socket, send_loop,
  send,
}

take-drop_add :
    (k j : ℕ) (xs : List ℕ) → k ≤ length xs → take k xs ++ take j (drop k xs) ≡ take (k + j) xs
take-drop_add zero j xs h = ap (λ n. take n xs) (omega arith)
take-drop_add (suc k) j [] h = absurd (omega arith)
take-drop_add (suc k) j (x ∷ xs) h =
    let e : suc k + j ≡ suc (k + j) = omega arith in
    rw e (ap (◌∷◌ x) (take-drop_add k j xs (omega arith)))

module _ {N : Type 0} (os : Net N) (c : SocketConfig) where
  -- A connected transport has a socket.
  abbrev pub Open : SocketLink N → Type 0
  Open l = l.is_connected ≡ true → l.socket ≢ none

  -- What became of bytes that went to the socket: all are on the wire, or the connection broke
  -- after the first `j` of them and is closed.
  pub data Written (bytes : List ℕ) (l l' : SocketLink N) : LinkError → Type 0 where
    complete :
        l'.is_connected ≡ l.is_connected
        → l'.socket ≡ l.socket
        → os.wire l'.net ≡ os.wire l.net ++ bytes
        → Written bytes l l' no_error
    broken :
        (j : ℕ)
        → j < length bytes
        → l'.is_connected ≡ false
        → l'.socket ≡ none
        → os.wire l'.net ≡ os.wire l.net ++ take j bytes
        → Written bytes l l' send_error

  -- The ends of `send`.
  pub data Sent (bytes : List ℕ) (l l' : SocketLink N) : LinkError → Type 0 where
    unconnected : l.is_connected ≡ false → l' ≡ l → Sent bytes l l' connect_error
    too_large :
        l.is_connected ≡ true
        → c.max_fragment < length bytes
        → l' ≡ l
        → Sent bytes l l' payload_too_large
    written :
        (r : LinkError)
        → l.is_connected ≡ true
        → length bytes ≤ c.max_fragment
        → Written bytes l l' r
        → Sent bytes l l' r

  more :
      (k : ℕ) (bytes : List ℕ) (l l' : SocketLink N) (n : N) (r : LinkError)
      → k ≤ length bytes
      → os.wire n ≡ os.wire l.net ++ take k bytes
      → Written (drop k bytes) (record l { net = n }) l' r
      → Written bytes l l' r
  more k bytes l l' n r h w (complete conn sock wire) = complete conn sock (
      wire
      ∙ ap (λ x. x ++ drop k bytes) w
      ∙ append_assoc (os.wire l.net) (take k bytes) (drop k bytes)
      ∙ ap (◌++◌ (os.wire l.net)) (take-append-drop k bytes))
  more k bytes l l' n r h w (broken j below conn sock wire) =
      broken (k + j) (omega (arith, length-drop k bytes)) conn sock (
        wire
        ∙ ap (λ x. x ++ take j (drop k bytes)) w
        ∙ append_assoc (os.wire l.net) (take k bytes) (take j (drop k bytes))
        ∙ ap (◌++◌ (os.wire l.net)) (take-drop_add k j bytes h))

  wire-close_socket : (l : SocketLink N) → os.wire (close_socket os c l).net ≡ os.wire l.net
  unfolding close_socket
  wire-close_socket l = elim (Option-cases l.socket) [
    | inl e ↦ rw (e, close_socket) refl
    | inr (fd, e) ↦ rw (e, close_socket) (os.close_lem fd l.net)
  ]

  socket-close_socket : (l : SocketLink N) → (close_socket os c l).socket ≡ none
  unfolding close_socket
  socket-close_socket l = elim (Option-cases l.socket) [
    | inl e ↦ rw (e, close_socket) e
    | inr (fd, e) ↦ rw (e, close_socket) refl
  ]

  -- The loop comes to an end, with as much fuel as there are bytes.
  abbrev Ends : List ℕ → SocketLink N → Option (SocketLink N × LinkError) → Type 0
  Ends bytes l o = (l' : SocketLink N) × (r : LinkError) × (o ≡ some (l', r)) × Written bytes l l' r

  send_loop-Ends :
      (fuel fd : ℕ) (bytes : List ℕ) (l : SocketLink N)
      → length bytes ≤ fuel
      → Ends bytes l (send_loop os c fuel fd bytes l)
  unfolding send_loop
  send_loop-Ends fuel fd [] l h =
      (l, no_error, refl, complete refl refl (sym (append-nil (os.wire l.net))))
  send_loop-Ends zero fd (b ∷ bs) l h = absurd (omega arith)
  send_loop-Ends (suc fuel) fd (b ∷ bs) l h =
      let (n, result) = os.send fd (b ∷ bs) l.net in
      elim (Option-cases result) [
        | inl e ↦ (
          record (close_socket os c (record l { net = n })) { is_connected = false },
          send_error,
          rw (e, send_loop) refl,
          broken 0 (omega arith) refl (socket-close_socket (record l { net = n })) (
              wire-close_socket (record l { net = n })
              ∙ os.send_failed fd (b ∷ bs) l.net e
              ∙ sym (append-nil (os.wire l.net))),
        )
        | inr (k, e) ↦
            (let (some_taken, within, wire) = os.send_taken fd k (b ∷ bs) l.net e in
              let (l', r, ran, w) =
                send_loop-Ends fuel fd (drop k (b ∷ bs)) (record l { net = n })
                  (omega (arith, length-drop k (b ∷ bs))) in
              (l', r, rw (e, send_loop) ran, more k (b ∷ bs) l l' n r within wire w))
      ]

  -- On a transport that has a socket whenever it is connected, a send is refused with nothing done
  -- when not connected or when the payload is too large; otherwise it ends, either with every byte
  -- of the payload on the wire, or with an error, a proper prefix on the wire, and the connection
  -- closed and marked so.
  pub send-Sent :
      (bytes : List ℕ) (l : SocketLink N)
      → Open l
      → Sent bytes l (send os c bytes l).0 (send os c bytes l).1
  unfolding send
  send-Sent bytes l v = elim (Bool-cases l.is_connected) [
    | inr off ↦ simp (off, send) (unconnected off refl)
    | inl on ↦ elim (Bool-cases (ltb c.max_fragment (length bytes))) [
      | inl big ↦ simp (on, big, send) (too_large on (ground arith) refl)
      | inr fits ↦ elim (Option-cases l.socket) [
        | inl e ↦ absurd (v on e)
        | inr (fd, held) ↦
            (let (l', r, ran, w) = send_loop-Ends (length bytes) fd bytes l (omega arith) in
              simp (on, fits, held, ran, send) (written r on (ground arith) w))
      ]
    ]
  ]

  close_socket-Open : (l : SocketLink N) → l.is_connected ≡ false → Open (close_socket os c l)
  unfolding close_socket
  close_socket-Open l off = elim (Option-cases l.socket) [
    | inl e ↦ rw (e, close_socket) (λ on. cc)
    | inr (fd, e) ↦ rw (e, close_socket) (λ on. cc)
  ]

  -- Whatever the network answers to a connect, the transport is marked connected afterwards exactly
  -- when the connect reported success, and then it has a socket, if that held before.
  pub connect-Open :
      (l : SocketLink N)
      → Open l
      → Open (connect os c l).0
        × (((connect os c l).0.is_connected ≡ true → (connect os c l).1 ≡ no_error)
            × ((connect os c l).1 ≡ no_error → (connect os c l).0.is_connected ≡ true))
  unfolding connect open_socket connect_socket close_socket
  connect-Open l v = ground arith

-- ===== src/Server/Sockets.antt =====
-- `recv_all` and `send_all` of src/network/server.cpp.
use nexus_db_main.Common.{
  ℕ, zero, suc, ◌+◌, ◌-◌, min, [], ◌∷◌, ◌++◌, Bytes, Bool, true, false, Option, none, some, length,
  take, drop, ◌==◌,
}

-- A connection: the bytes that the peer will still send before it closes, those sent to it, and how
-- many bytes the operating system moves in each call. No call fails before the peer closes but a
-- `send` that moves no byte.
pub record Socket : Type 0 where
  pub incoming : Bytes
  pub outgoing : Bytes
  pub received : ℕ → ℕ
  pub accepted : ℕ → ℕ
  pub calls : ℕ

-- `recv` moves one byte at least, and at most `len`, unless the peer has closed.
unfoldable pub recv : ℕ → Socket → Bytes × Socket
recv len s =
    let n = min len (1 + s.received s.calls) in
    (take n s.incoming, record s { incoming = drop n s.incoming; calls = suc s.calls })

-- The loop of `recv_all`, on the bytes still wanted. The fuel is their number, since a call that moves
-- none ends it.
unfoldable pub recv_loop : ℕ → ℕ → Socket → Option (Bytes × Socket)
recv_loop zero len s = some ([], s)
recv_loop (suc f) zero s = some ([], s)
recv_loop (suc f) (suc len) s =
    let (bytes, s₁) = recv (suc len) s in
    elim (length bytes == 0) [
      | true ↦ none
      | false ↦ elim (recv_loop f (suc len - length bytes) s₁) [
        | none ↦ none
        | some (more, s₂) ↦ some (bytes ++ more, s₂)
      ]
    ]

unfoldable pub recv_all : ℕ → Socket → Option (Bytes × Socket)
recv_all len s = recv_loop len len s

-- `send` moves at most what it is given.
unfoldable pub send : Bytes → Socket → ℕ × Socket
send bytes s =
    let n = min (length bytes) (s.accepted s.calls) in
    (n, record s { outgoing = s.outgoing ++ take n bytes; calls = suc s.calls })

unfoldable pub send_loop : ℕ → Bytes → Socket → Bool × Socket
send_loop zero bytes s = (true, s)
send_loop (suc f) [] s = (true, s)
send_loop (suc f) (b ∷ bytes) s =
    let (n, s₁) = send (b ∷ bytes) s in
    elim (n == 0) [ true ↦ (false, s₁) | false ↦ send_loop f (drop n (b ∷ bytes)) s₁ ]

unfoldable pub send_all : Bytes → Socket → Bool × Socket
send_all bytes s = send_loop (length bytes) bytes s

-- ===== src/Socket.antt =====
-- Socket.cpp: the loops of `Socket::Send` and `Socket::Recv` over the bytes of a message.
pub mod Loops
pub mod Server
pub mod Number
use two_phase_commit_protoco.Base.{
  ℕ, zero, suc, ◌-◌, Bool, true, false, Option, none, some, List, [], ◌∷◌, ◌++◌, length, take, drop,
  if◌then◌else◌, ◌==◌,
}

-- The operating system: how many of the bytes that are offered a call of `send` takes, and how many
-- of those that have arrived a call of `recv` hands over, by the number of the call; `none` is an
-- error.
pub record Wire : Type 0 where
  pub takes : ℕ → ℕ → Option ℕ
  pub hands_over : ℕ → ℕ → Option ℕ

module _ (wire : Wire) where
  -- `Send(char *, int, int)` with fuel: the calls made so far, the bytes from `offset` on, and those
  -- that have gone out. The result is 1 or 0, and what has gone out. `none` is the end of the fuel.
  unfoldable pub send_loop : ℕ → ℕ → List ℕ → List ℕ → Option (Bool × List ℕ)
  send_loop zero calls buffer out = none
  send_loop (suc n) calls [] out = some (true, out)
  send_loop (suc n) calls (b ∷ bs) out = elim (wire.takes calls (length (b ∷ bs))) [
    | none ↦ some (false, out)
    | some k ↦ send_loop n (suc calls) (drop k (b ∷ bs)) (out ++ take k (b ∷ bs))
  ]

  -- Each call takes a byte at least.
  unfoldable pub send_all : List ℕ → Option (Bool × List ℕ)
  unfolding send_loop
  send_all buffer = send_loop (suc (length buffer)) 0 buffer []

  -- `Recv(char *, int, int)` with fuel: the calls made so far, the bytes that are still wanted, the
  -- stream from the peer, which has been closed at its end, and the bytes that have been read.
  unfoldable pub recv_loop : ℕ → ℕ → ℕ → List ℕ → List ℕ → Option (Bool × List ℕ × List ℕ)
  recv_loop zero calls size stream buffer = none
  recv_loop (suc n) calls zero stream buffer = some (true, buffer, stream)
  recv_loop (suc n) calls (suc size) [] buffer = some (false, buffer, [])
  recv_loop (suc n) calls (suc size) (b ∷ bs) buffer =
      let available = length (take (suc size) (b ∷ bs)) in
      elim (wire.hands_over calls available) [
        | none ↦ some (false, buffer, b ∷ bs)
        | some k ↦
            recv_loop n (suc calls) (suc size - k) (drop k (b ∷ bs)) (buffer ++ take k (b ∷ bs))
      ]

  unfoldable pub recv_all : ℕ → List ℕ → Option (Bool × List ℕ × List ℕ)
  unfolding recv_loop
  recv_all size stream = recv_loop (suc size) 0 size stream []

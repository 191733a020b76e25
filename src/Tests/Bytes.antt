-- ===== src/Tests/Bytes.antt =====
-- The loops of a socket at concrete inputs.
use mathlib.Core.Option.{some-injective}
use two_phase_commit_protoco.Base.{drop, ℕ, ◌≡◌, refl, Bool, true, some, List, [], ◌∷◌, ◌++◌, arith}
use two_phase_commit_protoco.Messages.Transaction.{marshal}
use two_phase_commit_protoco.Messages.Transaction.RoundTrip.{length-marshal}
use two_phase_commit_protoco.Messages.Transaction.Wire.{marshal-fields}
use two_phase_commit_protoco.ServerStub.Bytes.{receive_txn_bytes, receive_txn_bytes-send_all}
use two_phase_commit_protoco.Tests.Data.{transfer, outdated}
use two_phase_commit_protoco.Tests.Wire.{transfer-IsConsistent}
use two_phase_commit_protoco.Socket.{Wire, send_loop, send_all, recv_all}
use two_phase_commit_protoco.Base.Int.{pos}
use two_phase_commit_protoco.Word.{htonl, ntohl, store_int, load_int}
use two_phase_commit_protoco.Socket.Number.{
  Arrived, write_int, read_int, front_of, read_int-write_int,
}
use two_phase_commit_protoco.Socket.Loops.{
  Takes, HandsOver, WentOut, send_all-WentOut, recv_all-send_all,
}

-- Each call moves one byte.
abbrev byte_by_byte : Wire
byte_by_byte = record { takes = λ n a. some 1; hands_over = λ n a. some 1 }

byte_by_byte-Takes : Takes byte_by_byte
byte_by_byte-Takes n a k e = let one : 1 ≡ k = some-injective 1 k e in (omega arith, omega arith)

byte_by_byte-HandsOver : HandsOver byte_by_byte
byte_by_byte-HandsOver n a = (1, refl, omega arith, omega arith)

abbrev message : List ℕ
message = 84 ∷ 77 ∷ 0 ∷ []

send_all-WentOut_example :
    (ok : Bool) × (sent : List ℕ) × (send_all byte_by_byte message ≡ some (ok, sent))
    × WentOut ok sent message
send_all-WentOut_example = send_all-WentOut byte_by_byte message byte_by_byte-Takes

recv_all-send_all_example :
    recv_all byte_by_byte 3 (message ++ 7 ∷ []) ≡ some (true, message, 7 ∷ [])
unfolding send_all send_loop
recv_all-send_all_example =
    recv_all-send_all byte_by_byte byte_by_byte message message (7 ∷ []) byte_by_byte-Takes
      byte_by_byte-HandsOver refl

-- The other side takes all that has come at once.
abbrev at_once : Wire
at_once = record { takes = λ n a. some a; hands_over = λ n a. some a }

receive_txn_bytes-send_all_example :
    receive_txn_bytes at_once true outdated (0 ∷ 0 ∷ []) (marshal transfer ++ 7 ∷ [])
    ≡ some transfer
unfolding send_all send_loop
receive_txn_bytes-send_all_example =
    receive_txn_bytes-send_all byte_by_byte at_once transfer outdated (0 ∷ 0 ∷ [])
      (marshal transfer) (7 ∷ []) 32 transfer-IsConsistent byte_by_byte-Takes
      (rw (marshal-fields transfer) refl) (rw (marshal-fields transfer) refl)
      (omega (arith, (length-marshal transfer transfer-IsConsistent).0))

-- Only the first two of the bytes of an id are taken, and one of these is read.
abbrev in_parts : Wire
in_parts = record { takes = λ n a. some 2; hands_over = λ n a. some 1 }

read_int-write_int_example :
    (sent : List ℕ) × (write_int in_parts (pos 200) ≡ (pos 2, sent))
    × (read_int in_parts sent ≡ some (front_of 1 (pos 200), drop 1 sent))
    × Arrived 1 (pos 200)
read_int-write_int_example =
    read_int-write_int in_parts in_parts (pos 200) 2 1 (omega arith) refl refl (omega arith)
      (omega arith) (omega arith)

-- All four bytes of an id arrive.
number_arrives :
    (write_int at_once (pos 65539) ≡ (pos 4, 0 ∷ 1 ∷ 0 ∷ 3 ∷ []))
    × (read_int at_once (0 ∷ 1 ∷ 0 ∷ 3 ∷ []) ≡ some (pos 65539, []))
unfolding write_int read_int htonl ntohl store_int load_int
number_arrives = (refl, refl)

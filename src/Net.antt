-- ===== src/Net.antt =====
-- The messages on the wire, and what the operating system answers to the calls of a socket.
-- `Socket.cpp` turns each of these calls into `send`, `recv`, `connect` on bytes; at the level of
-- this file a call hands over one whole message or fails.
use two_phase_commit_protoco.Base.{ℕ, String, Bool}
use two_phase_commit_protoco.Base.Int.{ℤ}
use two_phase_commit_protoco.Base.Text.{Text}
use two_phase_commit_protoco.Messages.Order.{CustomerOrder}
use two_phase_commit_protoco.Messages.Laptop.{LaptopInfo}
use two_phase_commit_protoco.Messages.Record.{CustomerRecord}
use two_phase_commit_protoco.Messages.Replication.{ReplicationRequest}
use two_phase_commit_protoco.Messages.Transaction.{Transaction}

pub data Message : Type 0 where
  text : Text → Message
  order : CustomerOrder → Message
  laptop : LaptopInfo → Message
  customer : CustomerRecord → Message
  replication : ReplicationRequest → Message
  txn : Transaction → Message
  number : ℤ → Message

-- How one `recv` ends: an error (-1), the end of the stream (0), or data.
pub data Answer (A : Type 0) : Type 0 where
  failed : Answer A
  closed : Answer A
  got : A → Answer A

-- The operating system and the peers behind it, which are not in the repository. Every answer
-- depends on the descriptor and on how many calls the socket has made so far.
pub record Net : Type 0 where
  -- `socket` and `connect` to an address: the descriptor, and whether both succeed
  pub connect : String → ℤ → ℕ → ℤ × Bool
  -- whether a send hands over the whole message; one that does not fails with an error other than
  -- EPIPE, whose signal SIGPIPE would end the process
  pub sends : ℤ → ℕ → Bool
  -- what a receive of an answer text, of a record and of a laptop brings
  pub texts : ℤ → ℕ → Answer Text
  pub records : ℤ → ℕ → Answer CustomerRecord
  pub laptops : ℤ → ℕ → Answer LaptopInfo
  -- what the program reads in a buffer that nothing was written to
  pub stray_text : ℕ → Text
  pub stray_record : ℕ → CustomerRecord
  pub stray_laptop : ℕ → LaptopInfo
  -- whether `malloc(200000)` succeeds
  pub mallocs : ℕ → Bool

-- ===== src/ClientStub.antt =====
-- ClientStub.cpp, with ClientSocket.cpp below it: the calling side of a connection.
pub mod Laws
use two_phase_commit_protoco.Base.{
  ℕ, ◌+◌, String, Bool, true, false, not, ◌&&◌, Option, none, some, List, [], ◌∷◌, ◌++◌,
  if◌then◌else◌,
}
use two_phase_commit_protoco.Base.Int.{ℤ, pos, minus_one}
use two_phase_commit_protoco.Base.Text.{Text, codes}
use two_phase_commit_protoco.Messages.Order.{CustomerOrder}
use two_phase_commit_protoco.Messages.Laptop.{LaptopInfo, new_laptop}
use two_phase_commit_protoco.Messages.Record.{CustomerRecord, new_record}
use two_phase_commit_protoco.Messages.Replication.{ReplicationRequest}
use two_phase_commit_protoco.Messages.Transaction.{Transaction}
use two_phase_commit_protoco.Net
use two_phase_commit_protoco.Net.{Net, Message, Answer, failed, closed, got}

-- The socket of a stub: its descriptor and flag, the calls that it has made to the operating
-- system, and the messages that it has handed over.
pub record ClientStub : Type 0 where
  pub fd : ℤ
  pub is_initialized : Bool
  pub calls : ℕ
  pub sent : List Message

abbrev pub new_stub : ClientStub
new_stub = record { fd = minus_one; is_initialized = false; calls = 0; sent = [] }

-- One more call to the operating system; then `Close`; then a message handed over.
abbrev tick : ClientStub → ClientStub
tick s = record s { calls = s.calls + 1 }

abbrev close : ClientStub → ClientStub
close s = record s { is_initialized = false }

abbrev record_sent : Message → ClientStub → ClientStub
record_sent m s = record s { sent = s.sent ++ m ∷ [] }

module _ (net : Net) where
  -- `ClientSocket::Init`: 1 on success. An initialised socket is left alone, with the result 0.
  unfoldable pub init : String → ℤ → ClientStub → ℤ × ClientStub
  init ip port s =
      let (fd, connected) = net.connect ip port s.calls in
      let s1 = record (tick s) { fd = fd } in
      if s.is_initialized
      then (pos 0, s)
      else if connected
      then (pos 1, record s1 { is_initialized = true })
      else (pos 0, s1)

  -- One send of a message: whether it went out, and the socket, closed if it did not.
  unfoldable pub send : Message → ClientStub → Bool × ClientStub
  send m s =
      if net.sends s.fd s.calls then (true, record_sent m (tick s)) else (false, close (tick s))

  -- The result of a receive, and the socket, closed if it was no data.
  unfoldable pub receive : {A : Type 0} → (ℤ → ℕ → Answer A) → ClientStub → Answer A × ClientStub
  receive answers s = elim (answers s.fd s.calls) [
    | failed ↦ (failed, close (tick s))
    | closed ↦ (closed, close (tick s))
    | got a ↦ (got a, tick s)
  ]

  unfoldable pub send_id_msg : Text → ClientStub → Bool × ClientStub
  unfolding send
  send_id_msg message s = send (Net.text message) s

  -- `Send(void*, int)` returns -1 on an error, which the `if` takes for success; `Recv(char*, …)`
  -- returns 1 or 0.
  replication_reply : Answer Text → Text
  replication_reply failed = codes "FAILED"
  replication_reply closed = codes "FAILED"
  replication_reply (got reply) = reply

  unfoldable pub send_replication_req : ReplicationRequest → ClientStub → Text × ClientStub
  unfolding send receive replication_reply
  send_replication_req req s =
      if s.is_initialized
      then (let (_, s1) = send (Net.replication req) s in
          let (answer, s2) = receive net.texts s1 in (replication_reply answer, s2))
      else (codes "FAILED", s)

  -- `Recv(void*, int)` returns -1 on an error, which the `if` takes for success, so that the text
  -- is what lies in the buffer.
  prepare_reply : ℕ → Answer Text → Text
  prepare_reply n failed = net.stray_text n
  prepare_reply n closed = codes "ErrorNo"
  prepare_reply n (got reply) = reply

  unfoldable pub send_txn_prepare_request : Transaction → ClientStub → Text × ClientStub
  unfolding send receive prepare_reply
  send_txn_prepare_request req s =
      if not (net.mallocs s.calls)
      then (codes "malloc failed", s)
      else if not s.is_initialized
      then (codes "error", s)
      else let (sent, s1) = send (Net.txn req) s in
        let (answer, s2) = receive net.texts s1 in
        if sent then (prepare_reply s1.calls answer, s2) else (codes "ErrorNo", s1)

  -- `none`: the function ends without a `return`. `writeInt` returns 4 or -1, never 0.
  txn_id_reply : ℕ → Answer Text → Option Text
  txn_id_reply n failed = some (net.stray_text n)
  txn_id_reply n closed = none
  txn_id_reply n (got reply) = some reply

  -- A failed `writeInt` does not close the socket.
  unfoldable pub send_txn_id : ℤ → ClientStub → Option Text × ClientStub
  unfolding receive txn_id_reply
  send_txn_id id s =
      let s1 = if net.sends s.fd s.calls then record_sent (Net.number id) (tick s) else tick s in
      let (answer, s2) = receive net.texts s1 in (txn_id_reply s1.calls answer, s2)

  laptop_reply : ℕ → Answer LaptopInfo → LaptopInfo
  laptop_reply n failed = net.stray_laptop n
  laptop_reply n closed = new_laptop
  laptop_reply n (got laptop) = laptop

  -- `ClientStub::Order`.
  unfoldable pub order : CustomerOrder → ClientStub → LaptopInfo × ClientStub
  unfolding send receive laptop_reply
  order o s =
      let (_, s1) = send (Net.order o) s in
      let (answer, s2) = receive net.laptops s1 in (laptop_reply s1.calls answer, s2)

  record_reply : ℕ → Answer CustomerRecord → CustomerRecord
  record_reply n failed = net.stray_record n
  record_reply n closed = new_record
  record_reply n (got customer) = customer

  unfoldable pub read_record : CustomerOrder → ClientStub → CustomerRecord × ClientStub
  unfolding send receive record_reply
  read_record o s =
      let (_, s1) = send (Net.order o) s in
      let (answer, s2) = receive net.records s1 in (record_reply s1.calls answer, s2)

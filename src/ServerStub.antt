-- ===== src/ServerStub.antt =====
-- ServerStub.cpp: the answering side of a connection, message by message.
pub mod Bytes
use two_phase_commit_protoco.Base.{
  Bool, if◌then◌else◌, String, Option, none, some, List, [], ◌∷◌, ◌++◌, take,
}
use two_phase_commit_protoco.Base.Int.{ℤ}
use two_phase_commit_protoco.Base.Text.{Text, codes}
use two_phase_commit_protoco.Messages.Order.{CustomerOrder, new_order}
use two_phase_commit_protoco.Messages.Laptop.{LaptopInfo}
use two_phase_commit_protoco.Messages.Record.{CustomerRecord}
use two_phase_commit_protoco.Messages.Replication.{MapOp, ReplicationRequest, empty_request}
use two_phase_commit_protoco.Messages.Transaction.{Transaction, new_transaction}
use two_phase_commit_protoco.Net
use two_phase_commit_protoco.Net.{Message}

-- What is still to arrive, what was sent, and what the program finds in memory that nothing was
-- written to. A receive that finds another kind of message than its own, or nothing, fails.
pub record ServerStub : Type 0 where
  pub input : List Message
  pub replies : List Message
  pub stray_text : Text
  pub stray_op : MapOp
  pub stray_txn : Transaction
  -- whether `malloc(200000)` succeeds
  pub mallocs : Bool

abbrev head_text : Text → List Message → Text
head_text stray (Net.text t ∷ _) = t
head_text stray _ = stray

abbrev head_order : List Message → CustomerOrder
head_order (Net.order o ∷ _) = o
head_order _ = new_order

abbrev head_replication : MapOp → List Message → ReplicationRequest
head_replication stray (Net.replication r ∷ _) = r
head_replication stray _ = empty_request stray

abbrev head_txn : List Message → Option Transaction
head_txn (Net.txn t ∷ _) = some t
head_txn _ = none

abbrev head_number : List Message → Option ℤ
head_number (Net.number n ∷ _) = some n
head_number _ = none

abbrev rest : List Message → List Message
rest [] = []
rest (_ ∷ ms) = ms

abbrev pub identification_msg : ServerStub → Text × ServerStub
identification_msg s = (head_text s.stray_text s.input, record s { input = rest s.input })

-- An order that is not valid stands for the end of the connection.
abbrev pub receive_request : ServerStub → CustomerOrder × ServerStub
receive_request s = (head_order s.input, record s { input = rest s.input })

-- A request of factory -1 stands for the end of the connection.
abbrev pub receive_replication_req : ServerStub → ReplicationRequest × ServerStub
receive_replication_req s = (head_replication s.stray_op s.input, record s { input = rest s.input })

-- `none`: the function ends without a `return`.
abbrev pub receive_txn_request : ServerStub → Option Transaction × ServerStub
receive_txn_request s =
    if s.mallocs
    then (head_txn s.input, record s { input = rest s.input })
    else (some (new_transaction s.stray_txn), s)

abbrev pub receive_txn_id : ServerStub → Option ℤ × ServerStub
receive_txn_id s = (head_number s.input, record s { input = rest s.input })

abbrev reply : Message → ServerStub → ServerStub
reply m s = record s { replies = s.replies ++ m ∷ [] }

abbrev pub send_laptop : LaptopInfo → ServerStub → ServerStub
send_laptop info = reply (Net.laptop info)

abbrev pub return_record : CustomerRecord → ServerStub → ServerStub
return_record customer = reply (Net.customer customer)

-- Ten bytes are sent: a longer text is cut.
abbrev pub send_response : String → ServerStub → ServerStub
send_response msg = reply (Net.text (take 10 (codes msg)))

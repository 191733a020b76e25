-- ===== src/Tests/Data.antt =====
-- Concrete networks, messages and states.
use two_phase_commit_protoco.Base.{ℕ, true, false, none, List, [], ◌∷◌}
use two_phase_commit_protoco.Base.Int.{pos, minus_one}
use two_phase_commit_protoco.Base.Text.{Text, codes}
use two_phase_commit_protoco.Messages.Order.{CustomerOrder}
use two_phase_commit_protoco.Messages.Laptop.{new_laptop}
use two_phase_commit_protoco.Messages.Record.{new_record, make_record}
use two_phase_commit_protoco.Messages.Replication.{MapOp, PeerServersInfo}
use two_phase_commit_protoco.Messages.Transaction.{Transaction}
use two_phase_commit_protoco.Net.{Net, Message, closed, got}
use two_phase_commit_protoco.ServerStub.{ServerStub}
use two_phase_commit_protoco.Factory.State.{Disk, Factory}
use two_phase_commit_protoco.Factory.Start.{new_peer}

-- Every call succeeds, and every answer is `reply`.
abbrev pub answering : Text → Net
answering reply = record {
  connect = λ ip port n. (pos 3, true);
  sends = λ fd n. true;
  texts = λ fd n. got reply;
  records = λ fd n. closed;
  laptops = λ fd n. closed;
  stray_text = λ n. [];
  stray_record = λ n. new_record;
  stray_laptop = λ n. new_laptop;
  mallocs = λ n. true;
}

abbrev pub net_ok : Net
net_ok = answering (codes "Ok")

abbrev pub net_no : Net
net_no = answering (codes "No")

-- Nothing can be reached.
abbrev pub net_down : Net
net_down = record (net_ok) { connect = λ ip port n. (minus_one, false) }

abbrev pub op_at : ℕ → ℕ → MapOp
op_at customer order = record { opcode = pos 1; arg1 = pos customer; arg2 = pos order }

abbrev pub backup_info : PeerServersInfo
backup_info = record {
  id = pos 1;
  ip = "10.0.0.2";
  port = pos 16000;
  backup_ip = "10.0.0.3";
  backup_port = pos 16000;
}

abbrev pub disk : Disk
disk = record { log_file = none; cust_rec_file = none; writable = true }

-- A primary with one customer, and nothing pending.
abbrev pub manager : Factory
manager = record {
  arq = [];
  customer_record = (pos 0, pos 10) ∷ [];
  smr_log = op_at 0 10 ∷ [];
  last_index = pos 0;
  committed_index = pos 0;
  primary_id = pos 0;
  factory_id = pos 0;
  peers = new_peer backup_info ∷ [];
  txn_log = [];
  disk = disk;
}

-- A backup that has just been started.
abbrev pub fresh_backup : Factory
fresh_backup = record manager {
  customer_record = [];
  smr_log = [];
  last_index = minus_one;
  committed_index = minus_one;
  primary_id = minus_one;
  factory_id = pos 1;
}

abbrev pub order_to : ℕ → ℕ → CustomerOrder
order_to customer number = record {
  customer_id = pos customer;
  order_number = pos number;
  request_type = pos 1;
}

-- Customer 0 was read at order 10, and is given order 11.
abbrev pub transfer : Transaction
transfer = record {
  txn_id = pos 0;
  len_read_records = pos 1;
  len_write_records = pos 1;
  read_records = make_record (pos 0) (pos 10) ∷ [];
  write_records = order_to 0 11 ∷ [];
}

-- The same with a read that is out of date.
abbrev pub outdated : Transaction
outdated = record transfer { read_records = make_record (pos 0) (pos 9) ∷ [] }

abbrev pub connection : List Message → ServerStub
connection ms = record {
  input = ms;
  replies = [];
  stray_text = [];
  stray_op = op_at 0 0;
  stray_txn = transfer;
  mallocs = true;
}

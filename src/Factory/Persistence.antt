-- ===== src/Factory/Persistence.antt =====
-- The transaction log and the two files of a resource manager (ServerThread.cpp: `update_value`,
-- `store_txn_log_in_txn_map`, `store_txn_log_record`, `store_cust_record_txn`, `empty_log_file`,
-- `recovery_txn_log`, `recovery_cust_rec`). `none` is `exit(1)`. The two functions of the recovery end
-- without a `return` once they have read their file; the constructor, which calls them, does not use
-- the value, and they are taken to return to it.
pub mod Log
pub mod Filed
use two_phase_commit_protoco.Base.{
  Bool, true, false, Option, none, some, List, [], ◌∷◌, ◌++◌, if◌then◌else◌,
}
use two_phase_commit_protoco.Base.Int.{ℤ, pos}
use two_phase_commit_protoco.Map.{Map, find, put, insert}
use two_phase_commit_protoco.Messages.Order.{CustomerOrder, is_valid}
use two_phase_commit_protoco.Messages.Transaction.{Transaction}
use two_phase_commit_protoco.Factory.State.{TxnLogRequest, Disk, Factory}

-- The result says whether the key was there (1) or not (2).
unfoldable pub update_value :
    Map (List TxnLogRequest) → ℤ → TxnLogRequest → ℤ × Map (List TxnLogRequest)
update_value d key new_val = elim (find key d) [
  | some v ↦ (pos 1, put key (v ++ new_val ∷ []) d)
  | none ↦ (pos 2, insert key (new_val ∷ []) d)
]

abbrev pub rows : Option (List TxnLogRequest) → List TxnLogRequest
rows none = []
rows (some l) = l

-- Appends to logFile.txt.
unfoldable pub store_txn_log_record : List TxnLogRequest → Factory → Option Factory
store_txn_log_record recs f =
    if f.disk.writable
    then some (record f { disk = record f.disk { log_file = some (rows f.disk.log_file ++ recs) } })
    else none

-- Writes custRecFile.txt anew.
unfoldable pub store_cust_record_txn : Factory → Option Factory
store_cust_record_txn f =
    if f.disk.writable
    then some (record f { disk = record f.disk { cust_rec_file = some f.customer_record } })
    else none

-- Nothing calls it.
unfoldable pub empty_log_file : Factory → Factory
empty_log_file f =
    if f.disk.writable then record f { disk = record f.disk { log_file = some [] } } else f

-- The loop of `store_txn_log_in_txn_map`: it ends at the first order that is not valid.
unfoldable pub prepare_records : ℤ → List CustomerOrder → List TxnLogRequest
prepare_records id [] = []
prepare_records id (o ∷ os) =
    let rec : TxnLogRequest = record {
      txn_id = id;
      txn_operation = pos 1;
      customer_id = o.customer_id;
      last_order_num = o.order_number;
      customer_opr = o.request_type;
    } in
    if is_valid o then rec ∷ prepare_records id os else []

-- `insert` leaves an entry of that transaction id that is there.
unfoldable pub store_txn_log_in_txn_map : Transaction → Factory → Option Factory
unfolding store_txn_log_record
store_txn_log_in_txn_map txn f =
    let records = prepare_records txn.txn_id txn.write_records in
    store_txn_log_record records (record f { txn_log = insert txn.txn_id records f.txn_log })

unfoldable pub replay_log : List TxnLogRequest → Map (List TxnLogRequest) → Map (List TxnLogRequest)
unfolding update_value
replay_log [] d = d
replay_log (rec ∷ recs) d = replay_log recs (update_value d rec.txn_id rec).1

unfoldable pub recovery_txn_log : Factory → Factory
unfolding replay_log
recovery_txn_log f = elim f.disk.log_file [
  | none ↦ f
  | some recs ↦ record f { txn_log = replay_log recs f.txn_log }
]

unfoldable pub replay_customers : List (ℤ × ℤ) → Map ℤ → Map ℤ
replay_customers [] d = d
replay_customers ((cust_id, last) ∷ r) d = replay_customers r (insert cust_id last d)

unfoldable pub recovery_cust_rec : Factory → Factory
unfolding replay_customers
recovery_cust_rec f = elim f.disk.cust_rec_file [
  | none ↦ f
  | some r ↦ record f { customer_record = replay_customers r f.customer_record }
]

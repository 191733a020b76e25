-- ===== src/Factory/Manager.antt =====
-- The handlers of two-phase commit (ServerThread.cpp: `TMPrepare`, `TMCommit`, `TMAbort`,
-- `PeerPrepare`, `CopyTranlogReplica`). Each returns the stub and the new state; the call of
-- `ReceiveIDMsgAndInitiateFlow` with which it ends in the source is made in `Serve`. `none` is
-- `exit(1)`, or a receive that ends without a `return`.
pub mod Vote
pub mod Commit
pub mod Forgets
pub mod Copy
pub mod ReusedId
use two_phase_commit_protoco.Base.{
  Bool, true, false, ◌&&◌, not, Option, none, some, List, [], ◌∷◌, ◌++◌, map, ◌>>=◌, if◌then◌else◌,
}
use two_phase_commit_protoco.Base.Int.{ℤ, pos, minus_one, eqb_ℤ}
use two_phase_commit_protoco.Base.Text.{codes}
use two_phase_commit_protoco.Map.{Map, find}
use two_phase_commit_protoco.Messages.Order.{CustomerOrder, new_order, set_order}
use two_phase_commit_protoco.Messages.Record.{CustomerRecord}
use two_phase_commit_protoco.Messages.Transaction.{Transaction}
use two_phase_commit_protoco.Net.{Net}
use two_phase_commit_protoco.ClientStub.{init, send_id_msg, send_txn_prepare_request}
use two_phase_commit_protoco.ServerStub.{
  ServerStub, receive_txn_request, receive_txn_id, send_response,
}
use two_phase_commit_protoco.Factory.State.{TxnLogRequest, Peer, Factory}
use two_phase_commit_protoco.Factory.Persistence.{
  update_value, store_txn_log_record, store_cust_record_txn, store_txn_log_in_txn_map,
}
use two_phase_commit_protoco.Factory.Admin.{create_regular_laptop}

-- A read is stale if its customer is known with another last order.
unfoldable pub is_stale : Map ℤ → CustomerRecord → Bool
is_stale customers r = elim (find r.customer_id customers) [
  | none ↦ false
  | some last ↦ not (eqb_ℤ r.last_order last)
]

-- `allOk` at the end of the loop over the read records.
unfoldable pub all_ok : Map ℤ → List CustomerRecord → Bool
unfolding is_stale
all_ok customers [] = true
all_ok customers (r ∷ rs) = if is_stale customers r then false else all_ok customers rs

abbrev pub abort_record : ℤ → TxnLogRequest
abort_record id = record {
  txn_id = id;
  txn_operation = pos 3;
  customer_id = minus_one;
  last_order_num = minus_one;
  customer_opr = minus_one;
}

abbrev pub commit_record : ℤ → TxnLogRequest → TxnLogRequest
commit_record id rec = record rec { txn_id = id; txn_operation = pos 2 }

-- `order.SetOrder` for a record of the log.
abbrev pub order_of : TxnLogRequest → CustomerOrder
order_of rec = set_order new_order rec.customer_id rec.last_order_num rec.customer_opr

abbrev pub log_or_empty : Option (List TxnLogRequest) → List TxnLogRequest
log_or_empty none = []
log_or_empty (some recs) = recs

module _ (net : Net) where
  unfoldable pub copy_to : Transaction → Peer → Peer
  copy_to txn p =
      let (r, node) = init net p.info.ip p.info.port p.node in
      if eqb_ℤ r (pos 1)
      then record p {
        node = (send_txn_prepare_request net txn (send_id_msg net (codes "PrPrepare") node).1).1;
        live = true;
      }
      else record p { node = node }

  unfoldable pub copy_tranlog_replica : Transaction → Factory → Factory
  unfolding copy_to
  copy_tranlog_replica txn f = record f { peers = map (copy_to txn) f.peers }

  unfoldable pub tm_prepare : ServerStub → Factory → Option (ServerStub × Factory)
  unfolding all_ok store_txn_log_in_txn_map copy_tranlog_replica
  tm_prepare stub f = do
    let (received, s) = receive_txn_request stub
    txn ← received
    let stored = store_txn_log_in_txn_map txn f
    if all_ok f.customer_record txn.read_records
        then (stored >>= λ g. some (send_response "Ok" s, copy_tranlog_replica txn g))
        else some (send_response "No" s, f)

  -- The loop of `TMCommit` over the records of the transaction, with `new_txn_log` and
  -- `txnRecordsCommitted`.
  unfoldable pub commit_loop :
      ℤ
      → ℤ
      → List TxnLogRequest
      → Map (List TxnLogRequest)
      → List TxnLogRequest
      → Factory
      → Option (Map (List TxnLogRequest) × List TxnLogRequest × Factory)
  commit_loop engineer_id id [] new_txn_log committed f = some (new_txn_log, committed, f)
  commit_loop engineer_id id (rec ∷ recs) new_txn_log committed f = do
    let log1 = (update_value new_txn_log rec.txn_id rec).1
    let log2 = (update_value log1 rec.txn_id (commit_record id rec)).1
    (laptop, g) ← create_regular_laptop net (order_of rec) engineer_id f
    commit_loop engineer_id id recs log2 (committed ++ commit_record id rec ∷ []) g

  -- `txn_log` is replaced by the log that the loop has built.
  unfoldable pub commit_txn : ℤ → ℤ → Factory → Option Factory
  unfolding store_txn_log_record store_cust_record_txn
  commit_txn engineer_id id f = do
    (new_txn_log, committed, g) ←
        commit_loop engineer_id id (log_or_empty (find id f.txn_log)) [] [] f
    h ← store_txn_log_record committed (record g { txn_log = new_txn_log })
    store_cust_record_txn h

  unfoldable pub tm_commit : ℤ → ServerStub → Factory → Option (ServerStub × Factory)
  unfolding commit_txn
  tm_commit engineer_id stub f = do
    let (received, s) = receive_txn_id stub
    id ← received
    g ← commit_txn engineer_id id f
    some (send_response "Done commit" s, g)

unfoldable pub peer_prepare : ServerStub → Factory → Option (ServerStub × Factory)
unfolding store_txn_log_in_txn_map
peer_prepare stub f = do
  let (received, s) = receive_txn_request stub
  txn ← received
  g ← store_txn_log_in_txn_map txn f
  some (send_response "Ok" s, g)

unfoldable pub abort_txn : ℤ → Factory → Option Factory
unfolding update_value store_txn_log_record
abort_txn id f =
    store_txn_log_record (abort_record id ∷ [])
      (record f { txn_log = (update_value f.txn_log id (abort_record id)).1 })

unfoldable pub tm_abort : ServerStub → Factory → Option (ServerStub × Factory)
unfolding abort_txn
tm_abort stub f = do
  let (received, s) = receive_txn_id stub
  id ← received
  g ← abort_txn id f
  some (send_response "Done abort" s, g)

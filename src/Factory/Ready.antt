-- ===== src/Factory/Ready.antt =====
-- What holds in every state of a resource manager (ServerThread.cpp) between two messages.
pub mod Steps
pub mod Interleaved
use two_phase_commit_protoco.Base.{
  sym, ◌≡◌, refl, true, none, some, List, [], ◌∷◌, ◌++◌, All, inl, inr, subst, Option-cases,
}
use two_phase_commit_protoco.Base.Int.{ℤ}
use two_phase_commit_protoco.Map.{Map, find, put, insert}
use two_phase_commit_protoco.Map.Laws.{insert_new, insert_old}
use two_phase_commit_protoco.Map.Order.{IsSorted, put-IsSorted}
use two_phase_commit_protoco.Messages.Transaction.{Transaction}
use two_phase_commit_protoco.Messages.Replication.{PeerServersInfo}
use two_phase_commit_protoco.Net.{Net}
use two_phase_commit_protoco.Factory.State.{TxnLogRequest, Peer, Disk, Factory}
use two_phase_commit_protoco.Factory.Persistence.{
  recovery_cust_rec, recovery_txn_log, update_value, prepare_records, replay_log, replay_customers,
}
use two_phase_commit_protoco.Factory.Persistence.Filed.{
  HasId, IsFiled, find-HasId, insert-IsFiled, update_value-IsFiled, replay_log-IsFiled,
  prepare_records-HasId,
}
use two_phase_commit_protoco.Factory.Admin.Settled.{IsSettled}
use two_phase_commit_protoco.Factory.Manager.{abort_record, commit_record, log_or_empty}
use two_phase_commit_protoco.Factory.Manager.Commit.{place, commit_log, Committed}
use two_phase_commit_protoco.Factory.Manager.Vote.{prepared}
use two_phase_commit_protoco.Factory.Serve.Rounds.{aborted}
use two_phase_commit_protoco.Factory.Start.{initial_factory, make_factory}

-- Nothing is pending and no request waits; the files can be opened; the customers are in order;
-- the records of a transaction are under its id.
pub record IsReady (f : Factory) : Type 0 where
  pub settled : IsSettled f
  pub queue : f.arq ≡ []
  pub writable : f.disk.writable ≡ true
  pub sorted : IsSorted f.customer_record
  pub filed : IsFiled f.txn_log

-- What the state may have otherwise.
pub IsReady-with :
    (f : Factory) (customers : Map ℤ) (fid : ℤ) (ps : List Peer) (d : Map (List TxnLogRequest))
    (files : Disk)
    → IsReady f
    → IsSorted customers
    → IsFiled d
    → files.writable ≡ true
    → IsReady (record f {
      customer_record = customers;
      factory_id = fid;
      peers = ps;
      txn_log = d;
      disk = files;
    })
IsReady-with f customers fid ps d files v sorted filed w = record {
  settled = record { at_last = v.settled.at_last; at_committed = v.settled.at_committed };
  queue = v.queue;
  writable = w;
  sorted = sorted;
  filed = filed;
}

-- The state after a vote of "Ok".
pub prepared-IsReady :
    (net : Net) (t : Transaction) (f : Factory) → IsReady f → IsReady (prepared net t f)
prepared-IsReady net t f v =
    let f1 = prepared net t f in
    IsReady-with f f.customer_record f.factory_id f1.peers f1.txn_log f1.disk v v.sorted
      (insert-IsFiled t.txn_id (prepare_records t.txn_id t.write_records) f.txn_log
        (prepare_records-HasId t.txn_id t.write_records) v.filed)
      v.writable

-- The state after an abort.
pub aborted-IsReady : (id : ℤ) (f : Factory) → IsReady f → IsReady (aborted id f)
aborted-IsReady id f v =
    let g = aborted id f in
    IsReady-with f f.customer_record f.factory_id f.peers g.txn_log g.disk v v.sorted
      (update_value-IsFiled id (abort_record id) f.txn_log refl v.filed) v.writable

place-IsSorted : (recs : List TxnLogRequest) (m : Map ℤ) → IsSorted m → IsSorted (place recs m)
place-IsSorted [] m h = h
place-IsSorted (r ∷ rs) m h =
    place-IsSorted rs (put r.customer_id r.last_order_num m)
      (put-IsSorted r.customer_id r.last_order_num m h)

commit_log-IsFiled :
    (id : ℤ) (recs : List TxnLogRequest) (d : Map (List TxnLogRequest))
    → All (HasId id) recs
    → IsFiled d
    → IsFiled (commit_log id recs d)
unfolding commit_log
commit_log-IsFiled id [] d h f = f
commit_log-IsFiled id (r ∷ rs) d (h, hs) f = commit_log-IsFiled id rs _ hs (
    update_value-IsFiled r.txn_id (commit_record id r) (update_value d r.txn_id r).1 (sym h)
      (update_value-IsFiled r.txn_id r d refl f))

pub found-HasId :
    (id : ℤ) (d : Map (List TxnLogRequest)) → IsFiled d → All (HasId id) (log_or_empty (find id d))
found-HasId id d f = elim (Option-cases (find id d)) [
  | inl e ↦ rw e tt
  | inr (v, e) ↦ rw e (find-HasId id v d e f)
]

-- The state after a commit.
pub Committed-IsReady :
    (id : ℤ) (f g : Factory)
    → IsReady f
    → Committed id (log_or_empty (find id f.txn_log)) f g
    → IsReady g
Committed-IsReady id f g v c = record {
  settled = c.settled;
  queue = c.queue;
  writable = c.writable;
  sorted =
      subst IsSorted (sym c.customers)
        (place-IsSorted (log_or_empty (find id f.txn_log)) f.customer_record v.sorted);
  filed = subst IsFiled (sym c.txn_log) (
      commit_log-IsFiled id (log_or_empty (find id f.txn_log)) [] (found-HasId id f.txn_log v.filed)
        tt);
}

replay_customers-IsSorted :
    (r : List (ℤ × ℤ)) (m : Map ℤ) → IsSorted m → IsSorted (replay_customers r m)
unfolding replay_customers
replay_customers-IsSorted [] m h = h
replay_customers-IsSorted ((k, v) ∷ r) m h =
    replay_customers-IsSorted r (insert k v m) (elim (Option-cases (find k m)) [
      | inl e ↦ rw (insert_new k v m e) (put-IsSorted k v m h)
      | inr (w, e) ↦ rw (insert_old k v m e) h
    ])

recovery_cust_rec-IsReady : (f : Factory) → IsReady f → IsReady (recovery_cust_rec f)
unfolding recovery_cust_rec
recovery_cust_rec-IsReady f v = elim (Option-cases f.disk.cust_rec_file) [
  | inl e ↦ rw (recovery_cust_rec, e) v
  | inr (r, e) ↦
      rw (recovery_cust_rec, e)
        (IsReady-with f (replay_customers r f.customer_record) f.factory_id f.peers f.txn_log f.disk
          v (replay_customers-IsSorted r f.customer_record v.sorted) v.filed v.writable)
]

recovery_txn_log-IsReady : (f : Factory) → IsReady f → IsReady (recovery_txn_log f)
unfolding recovery_txn_log
recovery_txn_log-IsReady f v = elim (Option-cases f.disk.log_file) [
  | inl e ↦ rw (recovery_txn_log, e) v
  | inr (recs, e) ↦
      rw (recovery_txn_log, e)
        (IsReady-with f f.customer_record f.factory_id f.peers (replay_log recs f.txn_log) f.disk v
          v.sorted (replay_log-IsFiled recs f.txn_log v.filed) v.writable)
]

-- A resource manager is ready when it starts, whatever is in its files, as long as they can be
-- opened.
pub make_factory-IsReady :
    (peers : List PeerServersInfo) (d : Disk) → d.writable ≡ true → IsReady (make_factory peers d)
unfolding make_factory
make_factory-IsReady peers d w =
    recovery_txn_log-IsReady (recovery_cust_rec (initial_factory peers d)) (
      recovery_cust_rec-IsReady (initial_factory peers d) (record {
        settled = record { at_last = refl; at_committed = refl };
        queue = refl;
        writable = w;
        sorted = tt;
        filed = tt;
      }))

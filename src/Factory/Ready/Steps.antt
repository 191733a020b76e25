-- ===== src/Factory/Ready/Steps.antt =====
-- The messages that a resource manager takes (ServerThread.cpp), as the steps of a relation: in
-- which order the connections bring them is open.
use two_phase_commit_protoco.Base.{
  ◌+◌, ◌^◌, ◌≤◌, ◌<◌, ◌≡◌, refl, sym, ◌∙◌, inl, inr, true, Option, none, some, List, [], ◌∷◌, ◌++◌,
  length, subst, Bool-cases, Option-cases,
}
use mathlib.Core.Option.{some-injective}
use two_phase_commit_protoco.Base.Int.{ℤ, pos}
use two_phase_commit_protoco.Map.{find, insert}
use two_phase_commit_protoco.Map.Order.{put-IsSorted}
use two_phase_commit_protoco.Messages.Replication.{MapOp, make_request}
use two_phase_commit_protoco.Messages.Transaction.{Transaction}
use two_phase_commit_protoco.Net.{Net}
use two_phase_commit_protoco.ServerStub.{receive_txn_id, receive_txn_request, ServerStub}
use two_phase_commit_protoco.Factory.State.{Disk, Factory}
use two_phase_commit_protoco.Factory.Persistence.{
  store_txn_log_in_txn_map, store_txn_log_record, update_value, prepare_records, rows,
}
use two_phase_commit_protoco.Factory.Persistence.Filed.{
  insert-IsFiled, update_value-IsFiled, prepare_records-HasId,
}
use two_phase_commit_protoco.Factory.Admin.{update_customer_record}
use two_phase_commit_protoco.Factory.Backup.{append_request, follow}
use two_phase_commit_protoco.Factory.Backup.Replica.{followed, follow_live, followed-IsSettled}
use two_phase_commit_protoco.Factory.Manager.{
  tm_commit, tm_abort, abort_record, log_or_empty, all_ok, copy_tranlog_replica, tm_prepare,
  commit_txn, abort_txn, peer_prepare,
}
use two_phase_commit_protoco.Factory.Start.{make_factory, set_factory_id}
use two_phase_commit_protoco.Messages.Replication.{PeerServersInfo}
use two_phase_commit_protoco.Factory.Manager.Commit.{Committed, commit_txn_applies}
use two_phase_commit_protoco.Factory.Ready.{
  IsReady, IsReady-with, Committed-IsReady, make_factory-IsReady,
}

-- Whether the log has room for the records of a transaction: its indices are `int`s.
abbrev pub HasRoom : ℤ → Factory → Type 0
HasRoom id f = length f.smr_log + length (log_or_empty (find id f.txn_log)) ≤ 2 ^ 31

-- One message: a request to prepare, from the transaction manager or a primary, a commit or an
-- abort, or a request of a live primary for the entry after the last one of the log.
pub data Step (net : Net) (eng : ℤ) : Factory → Factory → Type 0 where
  prepare : (s t : ServerStub) (f g : Factory) → tm_prepare net s f ≡ some (t, g) → Step net eng f g
  copy : (s t : ServerStub) (f g : Factory) → peer_prepare s f ≡ some (t, g) → Step net eng f g
  abort : (s t : ServerStub) (f g : Factory) → tm_abort s f ≡ some (t, g) → Step net eng f g
  commit :
      (id : ℤ) (s t : ServerStub) (f g : Factory)
      → (receive_txn_id s).0 ≡ some id
      → HasRoom id f
      → tm_commit net eng s f ≡ some (t, g)
      → Step net eng f g
  replicate :
      (fid : ℤ) (op : MapOp) (f g : Factory)
      → length f.smr_log < 2 ^ 31
      → follow (make_request fid (pos (length f.smr_log)) (pos (length f.smr_log)) op) f ≡ some g
      → Step net eng f g

pub data Reachable (net : Net) (eng : ℤ) : Factory → Factory → Type 0 where
  here : (f : Factory) → Reachable net eng f f
  next : (f g h : Factory) → Reachable net eng f g → Step net eng g h → Reachable net eng f h

abbrev ReadyAfter : Option (ServerStub × Factory) → Type 0
ReadyAfter none = Unit
ReadyAfter (some (t, g)) = IsReady g

-- The state with the orders of a transaction in the log.
store-IsReady :
    (t : Transaction) (f : Factory)
    → IsReady f
    → (g : Factory) × (store_txn_log_in_txn_map t f ≡ some g) × IsReady g
unfolding store_txn_log_in_txn_map store_txn_log_record
store-IsReady t f v =
    let records = prepare_records t.txn_id t.write_records in
    let files : Disk = record f.disk { log_file = some (rows f.disk.log_file ++ records) } in
    let d = insert t.txn_id records f.txn_log in
    (
      record f { txn_log = d; disk = files },
      rw (v.writable) refl,
      IsReady-with f f.customer_record f.factory_id f.peers d files v v.sorted
          (insert-IsFiled t.txn_id records f.txn_log
            (prepare_records-HasId t.txn_id t.write_records) v.filed)
          v.writable,
    )

copy-IsReady :
    (net : Net) (t : Transaction) (f : Factory) → IsReady f → IsReady (copy_tranlog_replica net t f)
unfolding copy_tranlog_replica
copy-IsReady net t f v =
    IsReady-with f f.customer_record f.factory_id (copy_tranlog_replica net t f).peers f.txn_log
      f.disk v v.sorted v.filed v.writable

tm_prepare-ReadyAfter :
    (net : Net) (s : ServerStub) (f : Factory) → IsReady f → ReadyAfter (tm_prepare net s f)
unfolding tm_prepare
tm_prepare-ReadyAfter net s f v = elim (Option-cases (receive_txn_request s).0) [
  | inl e ↦ rw e tt
  | inr (t, e) ↦
      let (g, runs, ready) = store-IsReady t f v in
      elim (Bool-cases (all_ok f.customer_record t.read_records)) [
        | inl ok ↦ rw (e, ok, runs) (copy-IsReady net t g ready)
        | inr no_vote ↦ rw (e, no_vote) v
      ]
]

peer_prepare-ReadyAfter : (s : ServerStub) (f : Factory) → IsReady f → ReadyAfter (peer_prepare s f)
unfolding peer_prepare
peer_prepare-ReadyAfter s f v = elim (Option-cases (receive_txn_request s).0) [
  | inl e ↦ rw e tt
  | inr (t, e) ↦ let (g, runs, ready) = store-IsReady t f v in rw (e, runs) ready
]

abort_txn-IsReady :
    (id : ℤ) (f : Factory) → IsReady f → (g : Factory) × (abort_txn id f ≡ some g) × IsReady g
unfolding abort_txn store_txn_log_record
abort_txn-IsReady id f v =
    let files : Disk = record f.disk {
      log_file = some (rows f.disk.log_file ++ abort_record id ∷ []);
    } in
    let d = (update_value f.txn_log id (abort_record id)).1 in
    (
      record f { txn_log = d; disk = files },
      rw (v.writable) refl,
      IsReady-with f f.customer_record f.factory_id f.peers d files v v.sorted
          (update_value-IsFiled id (abort_record id) f.txn_log refl v.filed) v.writable,
    )

tm_abort-ReadyAfter : (s : ServerStub) (f : Factory) → IsReady f → ReadyAfter (tm_abort s f)
unfolding tm_abort
tm_abort-ReadyAfter s f v = elim (Option-cases (receive_txn_id s).0) [
  | inl e ↦ rw e tt
  | inr (id, e) ↦ let (g, runs, ready) = abort_txn-IsReady id f v in rw (e, runs) ready
]

followed-IsReady :
    (fid : ℤ) (op : MapOp) (f : Factory)
    → length f.smr_log < 2 ^ 31
    → IsReady f
    → IsReady (followed fid op f)
unfolding append_request update_customer_record
followed-IsReady fid op f room v = record {
  settled = followed-IsSettled fid op f room v.settled;
  queue = v.queue;
  writable = v.writable;
  sorted = put-IsSorted op.arg1 op.arg2 f.customer_record v.sorted;
  filed = v.filed;
}

module _ (net : Net) (eng : ℤ) where
  commits :
      (id : ℤ) (f : Factory)
      → IsReady f
      → HasRoom id f
      → (g : Factory) × (commit_txn net eng id f ≡ some g)
        × Committed id (log_or_empty (find id f.txn_log)) f g
  commits id f v room = commit_txn_applies net eng id f v.queue v.settled v.writable room

  tm_commit-ReadyAfter :
      (id : ℤ) (s : ServerStub) (f : Factory)
      → IsReady f
      → (receive_txn_id s).0 ≡ some id
      → HasRoom id f
      → ReadyAfter (tm_commit net eng s f)
  unfolding tm_commit
  tm_commit-ReadyAfter id s f v e room =
      let (g, runs, c) = commits id f v room in rw (e, runs) (Committed-IsReady id f g v c)

  Step-IsReady : (f g : Factory) → Step net eng f g → IsReady f → IsReady g
  Step-IsReady f g (prepare s t _ _ e) v = subst ReadyAfter e (tm_prepare-ReadyAfter net s f v)
  Step-IsReady f g (copy s t _ _ e) v = subst ReadyAfter e (peer_prepare-ReadyAfter s f v)
  Step-IsReady f g (abort s t _ _ e) v = subst ReadyAfter e (tm_abort-ReadyAfter s f v)
  Step-IsReady f g (commit id s t _ _ sent room e) v =
      subst ReadyAfter e (tm_commit-ReadyAfter id s f v sent room)
  Step-IsReady f g (replicate fid op _ _ room e) v =
      subst IsReady (some-injective (followed fid op f) g (sym (follow_live fid op f) ∙ e))
        (followed-IsReady fid op f room v)

  Reachable-IsReady : (f g : Factory) → IsReady f → Reachable net eng f g → IsReady g
  Reachable-IsReady f g v (here _) = v
  Reachable-IsReady f g v (next _ h _ r st) = Step-IsReady h g st (Reachable-IsReady f h v r)

  -- Whatever steps a resource manager has made since it was started on files that can be opened, in
  -- whatever order (requests to prepare, copies, aborts, commits for which the log has room, and
  -- requests of a live primary for the next entry of the log), nothing is pending in it, no request
  -- waits, its customers are in order and every record of its transaction log is under its own id.
  pub started-IsReady :
      (peers : List PeerServersInfo) (d : Disk) (fid : ℤ) (g : Factory)
      → d.writable ≡ true
      → Reachable net eng (set_factory_id (make_factory peers d) fid) g
      → IsReady g
  started-IsReady peers d fid g w r =
      let f0 = make_factory peers d in
      let v = make_factory-IsReady peers d w in
      Reachable-IsReady (set_factory_id (make_factory peers d) fid) g
        (IsReady-with f0 f0.customer_record fid f0.peers f0.txn_log f0.disk v v.sorted v.filed
          v.writable)
        r

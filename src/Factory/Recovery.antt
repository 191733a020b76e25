-- ===== src/Factory/Recovery.antt =====
-- The files of a resource manager after a restart (ServerThread.cpp: `recovery_cust_rec` after
-- `store_cust_record_txn`, `recovery_txn_log` after `store_txn_log_record`).
use two_phase_commit_protoco.Base.{
  subst, ◌≡◌, refl, sym, ap, ◌∙◌, some, List, [], ◌∷◌, ◌++◌, append-nil, append_assoc, arith, All,
}
use two_phase_commit_protoco.Base.Int.{ℤ, ◌<ℤ◌}
use two_phase_commit_protoco.Map.{Map}
use two_phase_commit_protoco.Map.Laws.{insert_new}
use two_phase_commit_protoco.Messages.Replication.{PeerServersInfo}
use two_phase_commit_protoco.Factory.State.{TxnLogRequest, Disk}
use two_phase_commit_protoco.Factory.Persistence.{update_value, replay_log, replay_customers}
use two_phase_commit_protoco.Map.Order.{IsSorted, Above, put_last}
use two_phase_commit_protoco.Factory.Start.{make_factory}

sorted_below : (acc r : Map ℤ) (k v : ℤ) → IsSorted (acc ++ (k, v) ∷ r) → All (λ e. e.0 <ℤ k) acc
sorted_below [] r k v h = tt
sorted_below (e ∷ acc) r k v (h, hs) = (above_middle e.0 acc h, sorted_below acc r k v hs)
  where
    above_middle : (j : ℤ) (l : Map ℤ) → Above j (l ++ (k, v) ∷ r) → j <ℤ k
    above_middle j [] a = a.0
    above_middle j (x ∷ l) a = above_middle j l a.1

-- Inserting the rows of a map in their order rebuilds it.
pub replay_customers-sorted :
    (r acc : Map ℤ) → IsSorted (acc ++ r) → replay_customers r acc ≡ acc ++ r
unfolding replay_customers
replay_customers-sorted [] acc h = sym (append-nil acc)
replay_customers-sorted ((k, v) ∷ r) acc h =
    let (last, absent) = put_last k v acc (sorted_below acc r k v h) in
    ap (replay_customers r) (insert_new k v acc absent ∙ last)
    ∙ replay_customers-sorted r (acc ++ (k, v) ∷ [])
        (subst IsSorted (sym (append_assoc acc ((k, v) ∷ []) r)) h)
    ∙ append_assoc acc ((k, v) ∷ []) r

pub started_customers :
    (peers : List PeerServersInfo) (d : Disk) (r : List (ℤ × ℤ))
    → d.cust_rec_file ≡ some r
    → (make_factory peers d).customer_record ≡ replay_customers r []
unfolding make_factory
started_customers peers d r e = ground arith

pub started_log :
    (peers : List PeerServersInfo) (d : Disk) (l : List TxnLogRequest)
    → d.log_file ≡ some l
    → (make_factory peers d).txn_log ≡ replay_log l []
unfolding make_factory
started_log peers d l e = ground arith

pub replay_log-append :
    (a b : List TxnLogRequest) (d : Map (List TxnLogRequest))
    → replay_log (a ++ b) d ≡ replay_log b (replay_log a d)
unfolding replay_log
replay_log-append [] b d = refl
replay_log-append (x ∷ a) b d = replay_log-append a b (update_value d x.txn_id x).1

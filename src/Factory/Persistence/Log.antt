-- ===== src/Factory/Persistence/Log.antt =====
-- The transaction log as a map (ServerThread.cpp: `update_value`, `store_txn_log_in_txn_map`).
use two_phase_commit_protoco.Base.{◌≡◌, ◌≢◌, inl, inr, some, List, [], ◌∷◌, ◌++◌, Option-cases}
use two_phase_commit_protoco.Base.Int.{ℤ}
use two_phase_commit_protoco.Map.{Map, find}
use two_phase_commit_protoco.Map.Laws.{find-put_self, find-put_ne, find-insert_new, find-insert_ne}
use two_phase_commit_protoco.Factory.State.{TxnLogRequest}
use two_phase_commit_protoco.Factory.Persistence.{update_value, rows}

pub find-update_value_ne :
    (j k : ℤ) (v : TxnLogRequest) (d : Map (List TxnLogRequest))
    → k ≢ j
    → find j (update_value d k v).1 ≡ find j d
unfolding update_value
find-update_value_ne j k v d h = elim (Option-cases (find k d)) [
  | inl e ↦ rw (e, update_value) (find-insert_ne j k (v ∷ []) d h)
  | inr (old, e) ↦ rw (e, update_value) (find-put_ne j k (old ++ v ∷ []) d h)
]

-- Adding a record under a key puts it at the end of the records of that key.
pub find-update_value_self :
    (k : ℤ) (v : TxnLogRequest) (d : Map (List TxnLogRequest))
    → find k (update_value d k v).1 ≡ some (rows (find k d) ++ v ∷ [])
unfolding update_value
find-update_value_self k v d = elim (Option-cases (find k d)) [
  | inl e ↦ rw (e, update_value) (find-insert_new k (v ∷ []) d e)
  | inr (old, e) ↦ rw (e, update_value) (find-put_self k (old ++ v ∷ []) d)
]

-- ===== src/Factory/Persistence/Filed.antt =====
-- The ids of the records in the transaction log (ServerThread.cpp: `update_value`,
-- `store_txn_log_in_txn_map`, `recovery_txn_log`).
use mathlib.Core.Option.{some-injective}
use two_phase_commit_protoco.Base.{
  subst, ◌≡◌, refl, inl, inr, some, List, [], ◌∷◌, ◌++◌, All, Bool-cases, Option-cases,
}
use two_phase_commit_protoco.Base.Int.{ℤ, eqb_ℤ, eqb_ℤ_iff, ltb_ℤ}
use two_phase_commit_protoco.Map.{Map, find, put, insert}
use two_phase_commit_protoco.Map.Laws.{insert_new, insert_old}
use two_phase_commit_protoco.Messages.Order.{CustomerOrder, is_valid}
use two_phase_commit_protoco.Factory.State.{TxnLogRequest}
use two_phase_commit_protoco.Factory.Persistence.{update_value, prepare_records, replay_log}

abbrev pub HasId : ℤ → TxnLogRequest → Type 0
HasId id r = r.txn_id ≡ id

abbrev pub IsFiled : Map (List TxnLogRequest) → Type 0
IsFiled d = All (λ e. All (HasId e.0) e.1) d

All-snoc :
    (id : ℤ) (rs : List TxnLogRequest) (r : TxnLogRequest)
    → All (HasId id) rs
    → HasId id r
    → All (HasId id) (rs ++ r ∷ [])
All-snoc id [] r h g = (g, tt)
All-snoc id (x ∷ rs) r (h, hs) g = (h, All-snoc id rs r hs g)

put-IsFiled :
    (k : ℤ) (v : List TxnLogRequest) (d : Map (List TxnLogRequest))
    → All (HasId k) v
    → IsFiled d
    → IsFiled (put k v d)
unfolding put
put-IsFiled k v [] h f = (h, tt)
put-IsFiled k v ((i, w) ∷ d) h (f, fs) = elim (Bool-cases (eqb_ℤ i k)) [
  | inl e ↦ rw e (h, fs)
  | inr e ↦ elim (Bool-cases (ltb_ℤ k i)) [
    | inl lt ↦ rw (e, lt) (h, (f, fs))
    | inr ge ↦ rw (e, ge) (f, put-IsFiled k v d h fs)
  ]
]

pub find-HasId :
    (k : ℤ) (v : List TxnLogRequest) (d : Map (List TxnLogRequest))
    → find k d ≡ some v
    → IsFiled d
    → All (HasId k) v
unfolding find
find-HasId k v [] e f = cc
find-HasId k v ((i, w) ∷ d) e (f, fs) = elim (Bool-cases (eqb_ℤ i k)) [
  | inl same ↦
      subst (All (HasId k)) (some-injective w v (rw same at e))
        (subst (λ j. All (HasId j) w) ((eqb_ℤ_iff i k).0 same) f)
  | inr ne ↦ find-HasId k v d (rw ne at e) fs
]

pub insert-IsFiled :
    (k : ℤ) (v : List TxnLogRequest) (d : Map (List TxnLogRequest))
    → All (HasId k) v
    → IsFiled d
    → IsFiled (insert k v d)
insert-IsFiled k v d h f = elim (Option-cases (find k d)) [
  | inl e ↦ rw (insert_new k v d e) (put-IsFiled k v d h f)
  | inr (w, e) ↦ rw (insert_old k v d e) f
]

pub update_value-IsFiled :
    (k : ℤ) (r : TxnLogRequest) (d : Map (List TxnLogRequest))
    → HasId k r
    → IsFiled d
    → IsFiled (update_value d k r).1
unfolding update_value
update_value-IsFiled k r d h f = elim (Option-cases (find k d)) [
  | inl e ↦ rw (e, update_value) (insert-IsFiled k (r ∷ []) d (h, tt) f)
  | inr (old, e) ↦
      rw (e, update_value)
        (put-IsFiled k (old ++ r ∷ []) d (All-snoc k old r (find-HasId k old d e f) h) f)
]

pub replay_log-IsFiled :
    (rs : List TxnLogRequest) (d : Map (List TxnLogRequest)) → IsFiled d → IsFiled (replay_log rs d)
unfolding replay_log
replay_log-IsFiled [] d f = f
replay_log-IsFiled (r ∷ rs) d f =
    replay_log-IsFiled rs (update_value d r.txn_id r).1 (update_value-IsFiled r.txn_id r d refl f)

pub prepare_records-HasId :
    (id : ℤ) (os : List CustomerOrder) → All (HasId id) (prepare_records id os)
unfolding prepare_records
prepare_records-HasId id [] = tt
prepare_records-HasId id (o ∷ os) = elim (Bool-cases (is_valid o)) [
  | inl e ↦ rw e (refl, prepare_records-HasId id os)
  | inr e ↦ rw e tt
]

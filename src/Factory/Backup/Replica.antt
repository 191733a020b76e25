-- ===== src/Factory/Backup/Replica.antt =====
-- A backup on the stream of its primary (ServerThread.cpp: `IFAFlow` on what `AdminThread` and
-- `sendAllRequests` send).
use two_phase_commit_protoco.Base.{
  subst, ℕ, suc, ◌+◌, ◌^◌, ◌≤◌, ◌<◌, ◌≡◌, refl, sym, ◌∙◌, Option, some, List, [], ◌∷◌, ◌++◌,
  append-nil, append_assoc, length, length-append, get_elem?, arith, ◌>>=◌,
}
use two_phase_commit_protoco.Base.Int.{ℤ, pos, dec}
use two_phase_commit_protoco.Map.{Map, put}
use two_phase_commit_protoco.Messages.Replication.{MapOp, ReplicationRequest, make_request}
use two_phase_commit_protoco.Factory.State.{Factory}
use two_phase_commit_protoco.Factory.Admin.{update_customer_record}
use two_phase_commit_protoco.Factory.Backup.{append_request, follow}
use two_phase_commit_protoco.Factory.Admin.Settled.{IsSettled, index_of-append}

-- The customers after a list of operations.
abbrev pub replay : List MapOp → Map ℤ → Map ℤ
replay [] m = m
replay (op ∷ ops) m = replay ops (put op.arg1 op.arg2 m)

-- The requests that a live backup is sent, the first operation having the index `n`.
abbrev pub live_requests : ℤ → ℕ → List MapOp → List ReplicationRequest
live_requests fid n [] = []
live_requests fid n (op ∷ ops) = make_request fid (pos n) (pos n) op ∷ live_requests fid (suc n) ops

-- The requests of `sendAllRequests`.
abbrev pub all_requests : ℤ → ℕ → List MapOp → List ReplicationRequest
all_requests fid n [] = []
all_requests fid n (op ∷ ops) =
    make_request fid (dec (pos n)) (pos n) op ∷ all_requests fid (suc n) ops

abbrev pub follow_all : List ReplicationRequest → Factory → Option Factory
follow_all [] f = some f
follow_all (r ∷ rs) f = do g ← follow r f; follow_all rs g

get_elem?-append : (l : List MapOp) (op : MapOp) → get_elem? (l ++ op ∷ []) (length l) ≡ some op
get_elem?-append [] op = refl
get_elem?-append (x ∷ l) op = get_elem?-append l op

-- What a request of a live primary does to a backup that is up to date.
abbrev pub followed : ℤ → MapOp → Factory → Factory
followed fid op f =
    update_customer_record op (append_request (make_request fid (pos 0) (pos 0) op) f)

pub follow_live :
    (fid : ℤ) (op : MapOp) (f : Factory)
    → follow (make_request fid (pos (length f.smr_log)) (pos (length f.smr_log)) op) f
      ≡ some (followed fid op f)
unfolding follow
follow_live fid op f = ground (arith, get_elem?-append f.smr_log op)

pub followed-IsSettled :
    (fid : ℤ) (op : MapOp) (f : Factory)
    → length f.smr_log < 2 ^ 31
    → IsSettled f
    → IsSettled (followed fid op f)
unfolding append_request update_customer_record
followed-IsSettled fid op f room v = record {
  at_last = index_of-append f.last_index f.smr_log op room v.at_last;
  at_committed = index_of-append f.committed_index f.smr_log op room v.at_committed;
}

-- A backup that has the whole log and has applied it stays so on the requests of a live primary.
pub follow_all_live :
    (fid : ℤ) (ops : List MapOp) (f : Factory) (n : ℕ)
    → n ≡ length f.smr_log
    → IsSettled f
    → n + length ops ≤ 2 ^ 31
    → (g : Factory) × (follow_all (live_requests fid n ops) f ≡ some g)
      × IsSettled g
      × (g.smr_log ≡ f.smr_log ++ ops)
      × (g.customer_record ≡ replay ops f.customer_record)
unfolding append_request update_customer_record
follow_all_live fid [] f n e v room = (f, refl, v, sym (append-nil f.smr_log), refl)
follow_all_live fid (op ∷ ops) f n e v room =
    let f1 = followed fid op f in
    let grown : suc n ≡ length f1.smr_log = omega (arith, length-append f.smr_log (op ∷ [])) in
    let v1 = followed-IsSettled fid op f (omega arith) v in
    let (g, runs, settled, log, customers) =
      follow_all_live fid ops f1 (suc n) grown v1 (omega arith) in
    (
      g,
      subst
          (λ (k : ℕ).
            follow_all (make_request fid (pos k) (pos k) op ∷ live_requests fid (suc n) ops) f
            ≡ some g)
          (sym e) (rw (follow_live fid op f) runs),
      settled,
      log ∙ append_assoc f.smr_log (op ∷ []) ops,
      customers,
    )

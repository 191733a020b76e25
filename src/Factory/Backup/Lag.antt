-- ===== src/Factory/Backup/Lag.antt =====
-- A backup that connects late (ServerThread.cpp: `sendAllRequests`, `AdminThread`, `IFAFlow`).
use two_phase_commit_protoco.Base.{
  subst, ℕ, suc, ◌+◌, ◌^◌, ◌<◌, ◌≡◌, refl, sym, ap, ◌∙◌, some, List, [], ◌∷◌, ◌++◌, append_assoc,
  length, length-append, get_elem?, arith, ◌>>=◌,
}
use two_phase_commit_protoco.Base.Int.{ℤ, pos, dec, dec-zero, dec-suc, index_of}
use two_phase_commit_protoco.Map.{Map, put}
use two_phase_commit_protoco.Messages.Replication.{MapOp, make_request}
use two_phase_commit_protoco.Factory.State.{Factory}
use two_phase_commit_protoco.Factory.Admin.{update_customer_record}
use two_phase_commit_protoco.Factory.Backup.{append_request, follow}
use two_phase_commit_protoco.Factory.Admin.Settled.{IsSettled, index_of-append}
use two_phase_commit_protoco.Factory.Backup.Replica.{
  replay, all_requests, follow_all, followed, follow_live,
}

-- The first request of `sendAllRequests`, at a backup with an empty log.
abbrev pub appended : ℤ → MapOp → Factory → Factory
appended fid op f = append_request (make_request fid (pos 0) (pos 0) op) f

follow_first :
    (fid : ℤ) (op : MapOp) (f : Factory)
    → follow (make_request fid (dec (pos 0)) (pos 0) op) f ≡ some (appended fid op f)
unfolding follow
follow_first fid op f = rw dec-zero

get_elem?-before :
    (log : List MapOp) (old op : MapOp)
    → get_elem? ((log ++ old ∷ []) ++ op ∷ []) (length log) ≡ some old
get_elem?-before [] old op = refl
get_elem?-before (x ∷ log) old op = get_elem?-before log old op

-- Each later one applies the entry before it.
follow_next :
    (fid : ℤ) (old op : MapOp) (log : List MapOp) (f : Factory) (n : ℕ)
    → f.smr_log ≡ log ++ old ∷ []
    → n ≡ length log
    → n + 1 < 2 ^ 31
    → follow (make_request fid (dec (pos (suc n))) (pos (suc n)) op) f
      ≡ some (update_customer_record old (appended fid op f))
unfolding follow
follow_next fid old op log f n e len room =
    let held : get_elem? (f.smr_log ++ op ∷ []) n ≡ some old =
      rw (e, len) (get_elem?-before log old op) in
    ground (arith, dec-suc n room, held)

-- The state of a backup that has a log whose last entry is `old` and has applied all before it.
pub record IsBehind (log : List MapOp) (old : MapOp) (base : Map ℤ) (f : Factory) : Type 0 where
  pub holds : f.smr_log ≡ log ++ old ∷ []
  pub customers : f.customer_record ≡ replay log base
  pub at_last : f.last_index ≡ index_of (length f.smr_log)
  pub at_committed : f.committed_index ≡ index_of (length log)

replay-append :
    (l : List MapOp) (op : MapOp) (m : Map ℤ)
    → replay (l ++ op ∷ []) m ≡ put op.arg1 op.arg2 (replay l m)
replay-append [] op m = refl
replay-append (x ∷ l) op m = replay-append l op (put x.arg1 x.arg2 m)

IsBehind-next :
    (fid : ℤ) (old op : MapOp) (log : List MapOp) (base : Map ℤ) (f : Factory) (n : ℕ)
    → IsBehind log old base f
    → n ≡ length log
    → n + 1 < 2 ^ 31
    → IsBehind (log ++ old ∷ []) op base (update_customer_record old (appended fid op f))
unfolding append_request update_customer_record
IsBehind-next fid old op log base f n v e room = record {
  holds = ap (λ l. l ++ op ∷ []) v.holds;
  customers = ap (put old.arg1 old.arg2) v.customers ∙ sym (replay-append log old base);
  at_last =
      index_of-append f.last_index f.smr_log op
        (omega (arith, ap length v.holds, length-append log (old ∷ []))) v.at_last;
  at_committed = index_of-append f.committed_index log old (omega arith) v.at_committed;
}

-- From there the rest of `sendAllRequests` leads to such a state again.
follow_rest-IsBehind :
    (fid : ℤ) (ops log : List MapOp) (old : MapOp) (base : Map ℤ) (f : Factory) (n : ℕ)
    → IsBehind log old base f
    → n ≡ length log
    → n + 1 + length ops < 2 ^ 31
    → (g : Factory) × (log1 : List MapOp) × (last : MapOp) × (follow_all
          (all_requests fid (suc n) ops)
          f
        ≡ some g)
      × (log ++ old ∷ ops ≡ log1 ++ last ∷ [])
      × IsBehind log1 last base g
unfolding append_request update_customer_record
follow_rest-IsBehind fid [] log old base f n v e room = (f, log, old, refl, refl, v)
follow_rest-IsBehind fid (op ∷ ops) log old base f n v e room =
    let f1 = update_customer_record old (appended fid op f) in
    let v1 : IsBehind (log ++ old ∷ []) op base f1 =
      IsBehind-next fid old op log base f n v e (omega arith) in
    let (g, log1, last, runs, whole, behind) =
      follow_rest-IsBehind fid ops (log ++ old ∷ []) op base f1 (suc n) v1
        (omega (arith, length-append log (old ∷ []))) (omega arith) in
    (
      g,
      log1,
      last,
      rw (follow_next fid old op log f n v.holds e (omega arith)) runs,
      sym (append_assoc log (old ∷ []) (op ∷ ops)) ∙ whole,
      behind,
    )

-- A backup with an empty log that is sent all of a log that is not empty has the whole log, and has
-- applied all but its last operation.
late_backup_lags :
    (fid : ℤ) (op : MapOp) (ops : List MapOp) (f : Factory)
    → IsSettled f
    → f.smr_log ≡ []
    → 1 + length ops < 2 ^ 31
    → (g : Factory) × (log : List MapOp) × (last : MapOp) × (follow_all
          (all_requests fid 0 (op ∷ ops))
          f
        ≡ some g)
      × (op ∷ ops ≡ log ++ last ∷ [])
      × IsBehind log last f.customer_record g
unfolding append_request
late_backup_lags fid op ops f v empty room =
    let f1 = appended fid op f in
    let v1 : IsBehind [] op f.customer_record f1 = record {
      holds = ap (λ l. l ++ op ∷ []) empty;
      customers = refl;
      at_last =
          index_of-append f.last_index f.smr_log op (omega (arith, ap length empty)) v.at_last;
      at_committed = rw (empty) at v.at_committed;
    } in
    let (g, log, last, runs, whole, behind) =
      follow_rest-IsBehind fid ops [] op f.customer_record f1 0 v1 refl (omega arith) in
    (g, log, last, rw (follow_first fid op f) runs, whole, behind)

-- The next request of the live primary, for the operation `new`, makes such a backup apply that one
-- and pass over the last operation of the log it was sent.
pub late_backup_goes_on :
    (fid : ℤ) (op new : MapOp) (ops : List MapOp) (f : Factory)
    → IsSettled f
    → f.smr_log ≡ []
    → 1 + length ops < 2 ^ 31
    → let n = length (op ∷ ops) in
      (h : Factory) × (log : List MapOp) × (last : MapOp) × (op ∷ ops ≡ log ++ last ∷ [])
      × ((follow_all (all_requests fid 0 (op ∷ ops)) f >>= λ g.
            follow (make_request fid (pos n) (pos n) new) g)
          ≡ some h)
      × (h.smr_log ≡ op ∷ ops ++ new ∷ [])
      × (h.customer_record ≡ replay (log ++ new ∷ []) f.customer_record)
unfolding append_request update_customer_record
late_backup_goes_on fid op new ops f v empty room =
    let (g, log, last, runs, whole, behind) = late_backup_lags fid op ops f v empty room in
    let held : g.smr_log ≡ op ∷ ops = behind.holds ∙ sym whole in
    (
      followed fid new g,
      log,
      last,
      whole,
      rw runs (
          subst
            (λ (k : ℕ). follow (make_request fid (pos k) (pos k) new) g ≡ some (followed fid new g))
            (ap length held) (follow_live fid new g)),
      ap (λ l. l ++ new ∷ []) held,
      ap (put new.arg1 new.arg2) behind.customers ∙ sym (replay-append log new f.customer_record),
    )

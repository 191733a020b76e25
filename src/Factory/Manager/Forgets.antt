-- ===== src/Factory/Manager/Forgets.antt =====
-- `TMCommit` (ServerThread.cpp) and the other transactions of the log.
use two_phase_commit_protoco.Base.{
  ◌+◌, ◌^◌, ◌≤◌, ◌≡◌, ◌≢◌, refl, sym, ap, ◌∙◌, true, none, some, List, [], ◌∷◌, map, length,
  length-append, length-map, arith, All,
}
use two_phase_commit_protoco.Base.Int.{ℤ}
use two_phase_commit_protoco.Map.{Map, find}
use two_phase_commit_protoco.Net.{Net}
use two_phase_commit_protoco.Factory.State.{TxnLogRequest, Factory}
use two_phase_commit_protoco.Factory.Persistence.{update_value}
use two_phase_commit_protoco.Factory.Manager.{commit_record, log_or_empty, commit_txn}
use two_phase_commit_protoco.Factory.Persistence.Log.{find-update_value_ne}
use two_phase_commit_protoco.Factory.Admin.Settled.{IsSettled}
use two_phase_commit_protoco.Factory.Persistence.Filed.{HasId}
use two_phase_commit_protoco.Factory.Manager.Commit.{place, log_op, commit_log, commit_txn_applies}

pub find-commit_log :
    (id j : ℤ) (recs : List TxnLogRequest) (d : Map (List TxnLogRequest))
    → id ≢ j
    → All (HasId id) recs
    → find j (commit_log id recs d) ≡ find j d
unfolding commit_log
find-commit_log id j [] d ne h = refl
find-commit_log id j (r ∷ rs) d ne (h, hs) =
    let d1 = (update_value d r.txn_id r).1 in
    let ne_r : r.txn_id ≢ j = λ e. ne (sym h ∙ e) in
    find-commit_log id j rs (update_value d1 r.txn_id (commit_record id r)).1 ne hs
    ∙ find-update_value_ne j r.txn_id (commit_record id r) d1 ne_r
    ∙ find-update_value_ne j r.txn_id r d ne_r

module _ (net : Net) (eng : ℤ) where
  -- The commit of one transaction drops every other one that is prepared: where the log holds the
  -- records of `id` under `id`, the commit of any other transaction `j` afterwards ends too, and
  -- leaves the customers as they are, whatever `j` had prepared.
  pub commit_txn_forgets :
      (id j : ℤ) (f : Factory)
      → id ≢ j
      → All (HasId id) (log_or_empty (find id f.txn_log))
      → f.arq ≡ []
      → IsSettled f
      → f.disk.writable ≡ true
      → length f.smr_log + length (log_or_empty (find id f.txn_log)) ≤ 2 ^ 31
      → (g h : Factory) × (commit_txn net eng id f ≡ some g)
        × (find j g.txn_log ≡ none)
        × (commit_txn net eng j g ≡ some h)
        × (h.customer_record ≡ g.customer_record)
  commit_txn_forgets id j f ne own q v w room =
      let recs = log_or_empty (find id f.txn_log) in
      let (g, runs, c) = commit_txn_applies net eng id f q v w room in
      let lost : find j g.txn_log ≡ none =
        ap (find j) c.txn_log ∙ find-commit_log id j recs [] ne own ∙ (unfold find in refl) in
      let none_left : log_or_empty (find j g.txn_log) ≡ [] = ap log_or_empty lost in
      let room1 : length g.smr_log + length (log_or_empty (find j g.txn_log)) ≤ 2 ^ 31 = omega (
        arith,
        ap length none_left,
        ap length c.logged,
        length-append f.smr_log (map log_op recs),
        length-map recs log_op,
      ) in
      let (h, runs1, c1) = commit_txn_applies net eng j g c.queue c.settled c.writable room1 in
      (g, h, runs, lost, runs1, c1.customers ∙ ap (λ l. place l g.customer_record) none_left)

-- ===== src/Factory/Manager/ReusedId.antt =====
-- `TMPrepare` and `TMCommit` (ServerThread.cpp) for a transaction id that is in the log already, as
-- after a restart of the transaction manager (TransactionManager.cpp), whose ids start at 0 again.
use two_phase_commit_protoco.Base.{
  ◌+◌, ◌^◌, ◌≤◌, ◌≡◌, ap, ◌∙◌, true, some, List, [], ◌∷◌, length, All,
}
use two_phase_commit_protoco.Base.Int.{ℤ}
use two_phase_commit_protoco.Map.{find}
use two_phase_commit_protoco.Map.Laws.{insert_old}
use two_phase_commit_protoco.Messages.Transaction.{Transaction}
use two_phase_commit_protoco.Net
use two_phase_commit_protoco.Net.{Net, Message, Answer, failed, closed, got}
use two_phase_commit_protoco.ServerStub.{ServerStub, send_response}
use two_phase_commit_protoco.Factory.State.{TxnLogRequest, Factory}
use two_phase_commit_protoco.Factory.Manager.{log_or_empty, tm_prepare, commit_txn}
use two_phase_commit_protoco.Factory.Admin.Settled.{IsSettled}
use two_phase_commit_protoco.Factory.Manager.Commit.{place, commit_txn_applies}
use two_phase_commit_protoco.Factory.Manager.Vote.{Current, prepared, tm_prepare_ok}

module _ (net : Net) (eng : ℤ) where
  -- At a resource manager with nothing pending, no request waiting, files that can be opened, memory
  -- for the transaction and room in its log, a transaction with current reads whose id is in the log
  -- already is voted "Ok" too, but the commit applies the records that were there.
  pub prepare_reused_id :
      (s : ServerStub) (f : Factory) (t : Transaction) (ms : List Message)
      (old : List TxnLogRequest)
      → s.input ≡ Net.txn t ∷ ms
      → s.mallocs ≡ true
      → f.disk.writable ≡ true
      → f.arq ≡ []
      → IsSettled f
      → All (Current f.customer_record) t.read_records
      → find t.txn_id f.txn_log ≡ some old
      → length f.smr_log + length old ≤ 2 ^ 31
      → (f1 g : Factory) × (tm_prepare net s f
          ≡ some (send_response "Ok" (record s { input = ms }), f1))
        × (commit_txn net eng t.txn_id f1 ≡ some g)
        × (g.customer_record ≡ place old f.customer_record)
  prepare_reused_id s f t ms old e m w q v cur known room =
      let f1 = prepared net t f in
      let same : f1.txn_log ≡ f.txn_log = insert_old t.txn_id _ f.txn_log known in
      let held : log_or_empty (find t.txn_id f1.txn_log) ≡ old =
        ap (λ d. log_or_empty (find t.txn_id d)) same ∙ ap log_or_empty known in
      let v1 : IsSettled f1 = record { at_last = v.at_last; at_committed = v.at_committed } in
      let (g, runs, c) = commit_txn_applies net eng t.txn_id f1 q v1 w (rw held room) in
      (
        f1,
        g,
        tm_prepare_ok net s f t ms e m w cur,
        runs,
        c.customers ∙ ap (λ l. place l f.customer_record) held,
      )

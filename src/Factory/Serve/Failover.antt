-- ===== src/Factory/Serve/Failover.antt =====
-- A commit that is handled by the backup (ServerThread.cpp: `PeerPrepare`, then `TMCommit`), after
-- the primary has prepared the transaction, copied it and failed.
use two_phase_commit_protoco.Base.{
  ℕ, suc, ◌+◌, ◌^◌, ◌≤◌, ◌≡◌, refl, ap, ◌∙◌, true, none, some, [], ◌∷◌, length,
}
use two_phase_commit_protoco.Base.Int.{ℤ}
use two_phase_commit_protoco.Base.Text.{codes}
use two_phase_commit_protoco.Map.{find}
use two_phase_commit_protoco.Map.Laws.{find-insert_new}
use two_phase_commit_protoco.Messages.Transaction.{Transaction}
use two_phase_commit_protoco.Net
use two_phase_commit_protoco.Net.{Net, Message, Answer, failed, closed, got}
use two_phase_commit_protoco.ServerStub.{ServerStub, send_response}
use two_phase_commit_protoco.Factory.State.{Factory}
use two_phase_commit_protoco.Factory.Persistence.{prepare_records}
use two_phase_commit_protoco.Factory.Manager.{log_or_empty}
use two_phase_commit_protoco.Factory.Serve.{
  pr_prepare, commit, unknown, role_of, receive_id_msg_and_initiate_flow, engineer_ifa_thread,
}
use two_phase_commit_protoco.Factory.Admin.Settled.{IsSettled}
use two_phase_commit_protoco.Factory.Serve.Rounds.{
  goes_on, ends, flow_commit, flow_pr_prepare, replicated,
}
use two_phase_commit_protoco.Factory.Manager.Commit.{place, commit_txn_applies}

module _ (net : Net) (eng : ℤ) where
  -- A backup with nothing pending, no request waiting, files that can be opened, memory to receive a
  -- transaction and room in its log for the orders that is handed a
  -- transaction of a new id over the connection `s`, and the commit over the connection `u`, whose
  -- ends leave no command in the buffer, answers both; its customers, in memory and on disk, are
  -- those before with the transaction's orders applied in order.
  pub backup_commits :
      (s u : ServerStub) (f : Factory) (t : Transaction)
      → s.input ≡ Net.text (codes "PrPrepare") ∷ Net.txn t ∷ []
      → u.input ≡ Net.text (codes "TMCommit") ∷ Net.number t.txn_id ∷ []
      → s.mallocs ≡ true
      → role_of s.stray_text ≡ unknown
      → role_of u.stray_text ≡ unknown
      → f.disk.writable ≡ true
      → f.arq ≡ []
      → IsSettled f
      → find t.txn_id f.txn_log ≡ none
      → length f.smr_log + length (prepare_records t.txn_id t.write_records) ≤ 2 ^ 31
      → let recs = prepare_records t.txn_id t.write_records in
        (f1 g : Factory) × (engineer_ifa_thread net eng s f
          ≡ some (send_response "Ok" (record s { input = [] }), f1))
        × (engineer_ifa_thread net eng u f1
            ≡ some (send_response "Done commit" (record u { input = [] }), g))
        × (g.customer_record ≡ place recs f.customer_record)
        × (g.disk.cust_rec_file ≡ some (place recs f.customer_record))
  unfolding engineer_ifa_thread
  backup_commits s u f t e e1 m stray stray1 w q v fresh room =
      let recs = prepare_records t.txn_id t.write_records in
      let f1 = replicated t f in
      let held : log_or_empty (find t.txn_id f1.txn_log) ≡ recs =
        ap log_or_empty (find-insert_new t.txn_id recs f.txn_log fresh) in
      let v1 : IsSettled f1 = record { at_last = v.at_last; at_committed = v.at_committed } in
      let (g, runs, c) = commit_txn_applies net eng t.txn_id f1 q v1 w (rw held room) in
      let s1 = send_response "Ok" (record s { input = [] }) in
      let u1 = send_response "Done commit" (record u { input = [] }) in
      (
        f1,
        g,
        ap (λ (n : ℕ). receive_id_msg_and_initiate_flow net (suc n) eng s f) (ap length e)
            ∙ goes_on net eng 2 (codes "PrPrepare") _ pr_prepare s s1 f f1 e
                (unfold role_of in refl) (flow_pr_prepare net eng _ f t [] refl m w)
            ∙ ends net eng 1 s1 f1 refl stray,
        ap (λ (n : ℕ). receive_id_msg_and_initiate_flow net (suc n) eng u f1) (ap length e1)
            ∙ goes_on net eng 2 (codes "TMCommit") _ commit u u1 f1 g e1 (unfold role_of in refl)
                (flow_commit net eng _ f1 g t.txn_id [] refl runs)
            ∙ ends net eng 1 u1 g refl stray1,
        c.customers ∙ ap (λ l. place l f.customer_record) held,
        c.cust_rec_file ∙ ap (λ l. some (place l f.customer_record)) held,
      )

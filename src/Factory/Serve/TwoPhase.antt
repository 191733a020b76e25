-- ===== src/Factory/Serve/TwoPhase.antt =====
-- A transaction over one connection (ServerThread.cpp: `ReceiveIDMsgAndInitiateFlow`, `TMPrepare`,
-- `TMCommit`, `TMAbort`).
use two_phase_commit_protoco.Base.{
  ℕ, suc, ◌+◌, ◌^◌, ◌≤◌, ◌≡◌, refl, ap, ◌∙◌, true, none, some, [], ◌∷◌, length, All,
}
use two_phase_commit_protoco.Base.Int.{ℤ}
use two_phase_commit_protoco.Base.Text.{codes}
use two_phase_commit_protoco.Map.{find}
use two_phase_commit_protoco.Map.Laws.{find-insert_new}
use two_phase_commit_protoco.Messages.Transaction.{Transaction}
use two_phase_commit_protoco.Net
use two_phase_commit_protoco.Net.{Net, Message, Answer, failed, closed, got}
use two_phase_commit_protoco.ServerStub.{ServerStub, send_response}
use two_phase_commit_protoco.Factory.State.{Factory}
use two_phase_commit_protoco.Factory.Persistence.{prepare_records}
use two_phase_commit_protoco.Factory.Manager.{log_or_empty}
use two_phase_commit_protoco.Factory.Serve.{
  prepare, commit, abort, unknown, role_of, receive_id_msg_and_initiate_flow, engineer_ifa_thread,
}
use two_phase_commit_protoco.Factory.Admin.Settled.{IsSettled}
use two_phase_commit_protoco.Factory.Serve.Rounds.{
  aborted, abort_txn_lem, goes_on, ends, flow_prepare_ok, flow_commit, flow_abort,
}
use two_phase_commit_protoco.Factory.Manager.Commit.{place, Committed, commit_txn_applies}
use two_phase_commit_protoco.Factory.Manager.Vote.{Current, prepared}

-- The records that a vote of "Ok" for a new id leaves under it.
pub prepared_held :
    (net : Net) (t : Transaction) (f : Factory)
    → find t.txn_id f.txn_log ≡ none
    → log_or_empty (find t.txn_id (prepared net t f).txn_log)
      ≡ prepare_records t.txn_id t.write_records
prepared_held net t f fresh =
    ap log_or_empty
      (find-insert_new t.txn_id (prepare_records t.txn_id t.write_records) f.txn_log fresh)

module _ (net : Net) (eng : ℤ) where
  pub prepare_commit-Committed :
      (s : ServerStub) (f : Factory) (t : Transaction)
      → s.input
        ≡ Net.text (codes "TMPrepare")
          ∷ Net.txn t
          ∷ Net.text (codes "TMCommit")
          ∷ Net.number t.txn_id
          ∷ []
      → s.mallocs ≡ true
      → role_of s.stray_text ≡ unknown
      → f.disk.writable ≡ true
      → f.arq ≡ []
      → IsSettled f
      → All (Current f.customer_record) t.read_records
      → find t.txn_id f.txn_log ≡ none
      → length f.smr_log + length (prepare_records t.txn_id t.write_records) ≤ 2 ^ 31
      → (g : Factory) × (engineer_ifa_thread net eng s f
          ≡ some (send_response "Done commit" (send_response "Ok" (record s { input = [] })), g))
        × Committed t.txn_id
            (log_or_empty (find t.txn_id (prepared net t f).txn_log))
            (prepared net t f)
            g
  unfolding engineer_ifa_thread
  prepare_commit-Committed s f t e m stray w q v cur fresh room =
      let f1 = prepared net t f in
      let held = prepared_held net t f fresh in
      let v1 : IsSettled f1 = record { at_last = v.at_last; at_committed = v.at_committed } in
      let (g, runs, c) = commit_txn_applies net eng t.txn_id f1 q v1 w (rw held room) in
      let s1 =
        send_response "Ok"
          (record s { input = Net.text (codes "TMCommit") ∷ Net.number t.txn_id ∷ [] }) in
      let s2 = send_response "Done commit" (send_response "Ok" (record s { input = [] })) in
      (
        g,
        ap (λ (n : ℕ). receive_id_msg_and_initiate_flow net (suc n) eng s f) (ap length e)
            ∙ goes_on net eng 4 (codes "TMPrepare") _ prepare s s1 f f1 e (unfold role_of in refl)
                (flow_prepare_ok net eng _ f t _ refl m w cur)
            ∙ goes_on net eng 3 (codes "TMCommit") _ commit s1 s2 f1 g refl (unfold role_of in refl)
                (flow_commit net eng _ f1 g t.txn_id [] refl runs)
            ∙ ends net eng 2 s2 g refl stray,
        c,
      )

  -- The whole of a committed transaction at a resource manager with nothing pending, no request
  -- waiting, memory to receive it, files that can be opened, room in its log for the orders, and no
  -- command left in the buffer at the end: if what the client has read is current and the id is not
  -- in the log, then on the messages of the transaction manager, in their order, the connection
  -- ends with the votes "Ok" and "Done commit" (of which ten bytes are sent), and the customers, in
  -- memory and on disk, are those before with the transaction's orders applied in order.
  pub prepare_then_commit :
      (s : ServerStub) (f : Factory) (t : Transaction)
      → s.input
        ≡ Net.text (codes "TMPrepare")
          ∷ Net.txn t
          ∷ Net.text (codes "TMCommit")
          ∷ Net.number t.txn_id
          ∷ []
      → s.mallocs ≡ true
      → role_of s.stray_text ≡ unknown
      → f.disk.writable ≡ true
      → f.arq ≡ []
      → IsSettled f
      → All (Current f.customer_record) t.read_records
      → find t.txn_id f.txn_log ≡ none
      → length f.smr_log + length (prepare_records t.txn_id t.write_records) ≤ 2 ^ 31
      → let recs = prepare_records t.txn_id t.write_records in
        (g : Factory) × (engineer_ifa_thread net eng s f
          ≡ some (send_response "Done commit" (send_response "Ok" (record s { input = [] })), g))
        × (g.customer_record ≡ place recs f.customer_record)
        × (g.disk.cust_rec_file ≡ some (place recs f.customer_record))
  prepare_then_commit s f t e m stray w q v cur fresh room =
      let (g, runs, c) = prepare_commit-Committed s f t e m stray w q v cur fresh room in
      let held = prepared_held net t f fresh in
      (
        g,
        runs,
        c.customers ∙ ap (λ l. place l f.customer_record) held,
        c.cust_rec_file ∙ ap (λ l. some (place l f.customer_record)) held,
      )

  pub prepare_abort-aborted :
      (s : ServerStub) (f : Factory) (t : Transaction)
      → s.input
        ≡ Net.text (codes "TMPrepare")
          ∷ Net.txn t
          ∷ Net.text (codes "TMAbort")
          ∷ Net.number t.txn_id
          ∷ []
      → s.mallocs ≡ true
      → role_of s.stray_text ≡ unknown
      → f.disk.writable ≡ true
      → All (Current f.customer_record) t.read_records
      → engineer_ifa_thread net eng s f
        ≡ some (
          send_response "Done abort" (send_response "Ok" (record s { input = [] })),
          aborted t.txn_id (prepared net t f),
        )
  unfolding engineer_ifa_thread
  prepare_abort-aborted s f t e m stray w cur =
      let f1 = prepared net t f in
      let g = aborted t.txn_id f1 in
      let s1 =
        send_response "Ok"
          (record s { input = Net.text (codes "TMAbort") ∷ Net.number t.txn_id ∷ [] }) in
      let s2 = send_response "Done abort" (send_response "Ok" (record s { input = [] })) in
      ap (λ (n : ℕ). receive_id_msg_and_initiate_flow net (suc n) eng s f) (ap length e)
      ∙ goes_on net eng 4 (codes "TMPrepare") _ prepare s s1 f f1 e (unfold role_of in refl)
          (flow_prepare_ok net eng _ f t _ refl m w cur)
      ∙ goes_on net eng 3 (codes "TMAbort") _ abort s1 s2 f1 g refl (unfold role_of in refl)
          (flow_abort net eng _ f1 g t.txn_id [] refl (abort_txn_lem t.txn_id f1 w))
      ∙ ends net eng 2 s2 g refl stray

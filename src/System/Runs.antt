-- ===== src/System/Runs.antt =====
-- A resource manager on the messages that the transaction manager may send it over one connection
-- (ServerThread.cpp: `ReceiveIDMsgAndInitiateFlow`, `TMPrepare`, `TMCommit`, `TMAbort`).
use two_phase_commit_protoco.Base.{
  ◌+◌, ap, sym, subst, map, length, length-append, length-map, ◌≡◌, refl, ◌∙◌, inl, inr, true, some,
  List, [], ◌∷◌, All, Bool-cases,
}
use two_phase_commit_protoco.Base.Text.{codes}
use two_phase_commit_protoco.Messages.Transaction.{Transaction}
use two_phase_commit_protoco.Net
use two_phase_commit_protoco.Net.{Net, Message, Answer, failed, closed, got}
use two_phase_commit_protoco.ServerStub.{ServerStub, send_response}
use two_phase_commit_protoco.Factory.State.{Factory}
use two_phase_commit_protoco.Factory.Manager.{all_ok}
use two_phase_commit_protoco.Factory.Manager.Vote.{Current, all_ok-Current, prepared, tm_prepare_no}
use two_phase_commit_protoco.Factory.Serve.{
  prepare, abort, unknown, role_of, flow, engineer_ifa_thread,
}
use two_phase_commit_protoco.Factory.Serve.Rounds.{
  aborted, abort_txn_lem, goes_on, ends, flow_prepare_ok, flow_abort,
}
use two_phase_commit_protoco.Factory.Serve.TwoPhase.{
  prepared_held, prepare_commit-Committed, prepare_abort-aborted,
}
use two_phase_commit_protoco.Map.{find}
use two_phase_commit_protoco.Map.Laws.{find-insert_ne}
use two_phase_commit_protoco.Factory.Persistence.{prepare_records}
use two_phase_commit_protoco.Factory.Persistence.Log.{find-update_value_ne}
use two_phase_commit_protoco.Factory.Persistence.Filed.{HasId, prepare_records-HasId}
use two_phase_commit_protoco.Factory.Manager.{abort_record, log_or_empty}
use two_phase_commit_protoco.Factory.Manager.Commit.{place, log_op}
use two_phase_commit_protoco.Factory.Manager.Forgets.{find-commit_log}
use two_phase_commit_protoco.Factory.Ready.{aborted-IsReady, prepared-IsReady, Committed-IsReady}
use two_phase_commit_protoco.System.{
  Kept, Site, arriving, run_site, CanTake, IsApplied, IsUnchanged,
}

module _ (txn : Transaction) (c : Site) (m : c.link.mallocs ≡ true)
    (quiet : role_of c.link.stray_text ≡ unknown) (can : CanTake txn c.manager) where
  abbrev at_end : ServerStub
  at_end = arriving [] c.link

  abbrev pub IsCurrent : Type 0
  IsCurrent = All (Current c.manager.customer_record) txn.read_records

  flow_prepare_no :
      (s : ServerStub) (ms : List Message)
      → s.input ≡ Net.txn txn ∷ ms
      → s.mallocs ≡ true
      → ¬ IsCurrent
      → flow c.world c.thread prepare s c.manager
        ≡ some (true, send_response "No" (record s { input = ms }), c.manager)
  unfolding flow
  flow_prepare_no s ms e mem h = rw (tm_prepare_no c.world s c.manager txn ms e mem h) refl

  -- The vote of the manager.
  pub run_prepare_ok :
      IsCurrent
      → run_site c (Net.text (codes "TMPrepare") ∷ Net.txn txn ∷ [])
        ≡ some (send_response "Ok" at_end, prepared c.world txn c.manager)
  unfolding engineer_ifa_thread
  run_prepare_ok cur =
      goes_on c.world c.thread 2 (codes "TMPrepare") _ prepare _ (send_response "Ok" at_end)
        c.manager (prepared c.world txn c.manager) refl (unfold role_of in refl)
        (flow_prepare_ok c.world c.thread _ c.manager txn [] refl m can.ready.writable cur)
      ∙ ends c.world c.thread 1 (send_response "Ok" at_end) _ refl quiet

  pub run_prepare_no :
      ¬ IsCurrent
      → run_site c (Net.text (codes "TMPrepare") ∷ Net.txn txn ∷ [])
        ≡ some (send_response "No" at_end, c.manager)
  unfolding engineer_ifa_thread
  run_prepare_no stale =
      goes_on c.world c.thread 2 (codes "TMPrepare") _ prepare _ (send_response "No" at_end)
        c.manager c.manager refl (unfold role_of in refl) (flow_prepare_no _ [] refl m stale)
      ∙ ends c.world c.thread 1 (send_response "No" at_end) _ refl quiet

  -- A manager that has voted "Ok" and is told to commit applies the transaction.
  pub run_commit :
      IsCurrent
      → (last : ServerStub) × (g : Factory) × (run_site c (
            Net.text (codes "TMPrepare")
            ∷ Net.txn txn
            ∷ Net.text (codes "TMCommit")
            ∷ Net.number txn.txn_id
            ∷ [])
          ≡ some (last, g))
        × IsApplied txn c.manager g
  run_commit cur =
      let f = c.manager in
      let f1 = prepared c.world txn f in
      let held = prepared_held c.world txn f can.fresh in
      let recs = log_or_empty (find txn.txn_id f1.txn_log) in
      let (g, runs, d) =
        prepare_commit-Committed c.world c.thread (arriving _ c.link) f txn refl m quiet
          can.ready.writable can.ready.queue can.ready.settled cur can.fresh can.room in
      (
        _,
        g,
        runs,
        (
          d.customers ∙ ap (λ l. place l f.customer_record) held,
          d.cust_rec_file ∙ ap (λ l. some (place l f.customer_record)) held,
          ap length d.logged
              ∙ length-append f.smr_log (map log_op recs)
              ∙ ap (λ n. length f.smr_log + n) (length-map recs log_op ∙ ap length held),
          record {
            ready = Committed-IsReady txn.txn_id f1 g (prepared-IsReady c.world txn f can.ready) d;
            unseen = λ j ne e.
                ap (find j) d.txn_log
                ∙ find-commit_log txn.txn_id j recs [] ne (
                    subst (All (HasId txn.txn_id)) (sym held)
                      (prepare_records-HasId txn.txn_id txn.write_records))
                ∙ (unfold find in refl);
          },
        ),
      )

  -- What an abort leaves, without and with a vote of "Ok" before it.
  aborted-Kept : Kept txn.txn_id c.manager (aborted txn.txn_id c.manager)
  aborted-Kept = record {
    ready = aborted-IsReady txn.txn_id c.manager can.ready;
    unseen = λ j ne e.
        find-update_value_ne j txn.txn_id (abort_record txn.txn_id) c.manager.txn_log ne ∙ e;
  }

  prepared-aborted-Kept :
      Kept txn.txn_id c.manager (aborted txn.txn_id (prepared c.world txn c.manager))
  prepared-aborted-Kept =
      let f1 = prepared c.world txn c.manager in
      record {
        ready = aborted-IsReady txn.txn_id f1 (prepared-IsReady c.world txn c.manager can.ready);
        unseen = λ j ne e.
            find-update_value_ne j txn.txn_id (abort_record txn.txn_id) f1.txn_log ne
            ∙ find-insert_ne j txn.txn_id (prepare_records txn.txn_id txn.write_records)
                c.manager.txn_log ne
            ∙ e;
      }

  -- One that is told to abort, whatever its vote was, or without having been asked, stays as it was.
  pub run_abort :
      (last : ServerStub) × (g : Factory) × (run_site c
          (Net.text (codes "TMAbort") ∷ Net.number txn.txn_id ∷ [])
        ≡ some (last, g))
      × IsUnchanged txn c.manager g
  unfolding engineer_ifa_thread
  run_abort =
      let w = can.ready.writable in
      let s = send_response "Done abort" at_end in
      (
        s,
        aborted txn.txn_id c.manager,
        goes_on c.world c.thread 2 (codes "TMAbort") _ abort _ s c.manager
              (aborted txn.txn_id c.manager) refl (unfold role_of in refl)
              (flow_abort c.world c.thread _ c.manager _ txn.txn_id [] refl
                (abort_txn_lem txn.txn_id c.manager w))
            ∙ ends c.world c.thread 1 s _ refl quiet,
        (refl, refl, refl, aborted-Kept),
      )

  run_no_abort :
      ¬ IsCurrent
      → (last : ServerStub) × (g : Factory) × (run_site c (
            Net.text (codes "TMPrepare")
            ∷ Net.txn txn
            ∷ Net.text (codes "TMAbort")
            ∷ Net.number txn.txn_id
            ∷ [])
          ≡ some (last, g))
        × IsUnchanged txn c.manager g
  unfolding engineer_ifa_thread
  run_no_abort stale =
      let w = can.ready.writable in
      let rest = Net.text (codes "TMAbort") ∷ Net.number txn.txn_id ∷ [] in
      let s1 = send_response "No" (arriving rest c.link) in
      let s = send_response "Done abort" (send_response "No" at_end) in
      (
        s,
        aborted txn.txn_id c.manager,
        goes_on c.world c.thread 4 (codes "TMPrepare") _ prepare _ s1 c.manager c.manager refl
              (unfold role_of in refl) (flow_prepare_no _ rest refl m stale)
            ∙ goes_on c.world c.thread 3 (codes "TMAbort") _ abort s1 s c.manager
                (aborted txn.txn_id c.manager) refl (unfold role_of in refl)
                (flow_abort c.world c.thread _ c.manager _ txn.txn_id [] refl
                  (abort_txn_lem txn.txn_id c.manager w))
            ∙ ends c.world c.thread 2 s _ refl quiet,
        (refl, refl, refl, aborted-Kept),
      )

  pub run_prepare_abort :
      (last : ServerStub) × (g : Factory) × (run_site c (
          Net.text (codes "TMPrepare")
          ∷ Net.txn txn
          ∷ Net.text (codes "TMAbort")
          ∷ Net.number txn.txn_id
          ∷ [])
        ≡ some (last, g))
      × IsUnchanged txn c.manager g
  run_prepare_abort =
      let f = c.manager in
      let (to, from) = all_ok-Current f.customer_record txn.read_records in
      elim (Bool-cases (all_ok f.customer_record txn.read_records)) [
        | inl ok ↦ (
          _,
          aborted txn.txn_id (prepared c.world txn f),
          prepare_abort-aborted c.world c.thread (arriving _ c.link) f txn refl m quiet
              can.ready.writable (to ok),
          (refl, refl, refl, prepared-aborted-Kept),
        )
        | inr no_vote ↦ run_no_abort (λ cur. cc (from cur, no_vote))
      ]

-- ===== src/Factory/Ready/Interleaved.antt =====
-- Two transactions whose votes come before either commit (ServerThread.cpp: `TMPrepare`,
-- `TMCommit`), as two connections may have it.
use mathlib.Core.Option.{some-injective}
use two_phase_commit_protoco.Base.{
  ◌+◌, ◌^◌, ◌≤◌, ◌≡◌, ◌≢◌, sym, ap, ◌∙◌, true, none, some, List, ◌∷◌, length, All,
}
use two_phase_commit_protoco.Base.Int.{ℤ}
use two_phase_commit_protoco.Map.{find}
use two_phase_commit_protoco.Map.Laws.{find-insert_ne}
use two_phase_commit_protoco.Messages.Transaction.{Transaction}
use two_phase_commit_protoco.Net
use two_phase_commit_protoco.Net.{Net, Message, Answer, failed, closed, got}
use two_phase_commit_protoco.ServerStub.{ServerStub, send_response}
use two_phase_commit_protoco.Factory.State.{Factory}
use two_phase_commit_protoco.Factory.Persistence.{prepare_records}
use two_phase_commit_protoco.Factory.Manager.{log_or_empty, commit_txn, tm_prepare}
use two_phase_commit_protoco.Factory.Manager.Commit.{place, commit_txn_applies}
use two_phase_commit_protoco.Factory.Manager.Vote.{Current, prepared, tm_prepare_ok}
use two_phase_commit_protoco.Factory.Manager.Forgets.{commit_txn_forgets}
use two_phase_commit_protoco.Factory.Serve.TwoPhase.{prepared_held}
use two_phase_commit_protoco.Factory.Ready.{IsReady, prepared-IsReady, found-HasId}

module _ (net : Net) (eng : ℤ) where
  -- A vote locks nothing: of two transactions with different new ids whose reads are current at a
  -- resource manager with nothing pending and room in its log, both are voted "Ok", the second one
  -- after the first, whatever customers they have in common. Both commits end then, but the orders
  -- of the transaction that is committed second are not applied: the customers are those that the
  -- first one has left.
  pub both_voted :
      (s s' : ServerStub) (f : Factory) (t u : Transaction) (ms ms' : List Message)
      → s.input ≡ Net.txn t ∷ ms
      → s.mallocs ≡ true
      → s'.input ≡ Net.txn u ∷ ms'
      → s'.mallocs ≡ true
      → IsReady f
      → All (Current f.customer_record) t.read_records
      → All (Current f.customer_record) u.read_records
      → find t.txn_id f.txn_log ≡ none
      → u.txn_id ≢ t.txn_id
      → length f.smr_log + length (prepare_records t.txn_id t.write_records) ≤ 2 ^ 31
      → (f1 f2 g h : Factory) × (tm_prepare net s f
          ≡ some (send_response "Ok" (record s { input = ms }), f1))
        × (tm_prepare net s' f1 ≡ some (send_response "Ok" (record s' { input = ms' }), f2))
        × (commit_txn net eng t.txn_id f2 ≡ some g)
        × (commit_txn net eng u.txn_id g ≡ some h)
        × (g.customer_record ≡ place (prepare_records t.txn_id t.write_records) f.customer_record)
        × (h.customer_record ≡ g.customer_record)
  both_voted s s' f t u ms ms' e m e' m' v cur cur' fresh ne room =
      let f1 = prepared net t f in
      let f2 = prepared net u f1 in
      let v2 = prepared-IsReady net u f1 (prepared-IsReady net t f v) in
      let held : log_or_empty (find t.txn_id f2.txn_log)
          ≡ prepare_records t.txn_id t.write_records =
        ap log_or_empty (
          find-insert_ne t.txn_id u.txn_id (prepare_records u.txn_id u.write_records) f1.txn_log ne)
        ∙ prepared_held net t f fresh in
      let (g, runs, c) =
        commit_txn_applies net eng t.txn_id f2 v2.queue v2.settled v2.writable (rw held room) in
      let (g', h, runs', _, lost, same) =
        commit_txn_forgets net eng t.txn_id u.txn_id f2 (λ p. ne (sym p))
          (found-HasId t.txn_id f2.txn_log v2.filed) v2.queue v2.settled v2.writable
          (rw held room) in
      (
        f1,
        f2,
        g',
        h,
        tm_prepare_ok net s f t ms e m v.writable cur,
        tm_prepare_ok net s' f1 u ms' e' m' v.writable cur',
        runs',
        lost,
        ap (λ (k : Factory). k.customer_record) (some-injective g' g (sym runs' ∙ runs))
            ∙ c.customers
            ∙ ap (λ l. place l f.customer_record) held,
        same,
      )

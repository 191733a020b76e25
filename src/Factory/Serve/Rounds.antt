-- ===== src/Factory/Serve/Rounds.antt =====
-- The rounds of `ReceiveIDMsgAndInitiateFlow` (ServerThread.cpp).
use two_phase_commit_protoco.Base.{ℕ, suc, ◌≡◌, refl, true, some, List, [], ◌∷◌, ◌++◌, arith, All}
use two_phase_commit_protoco.Base.Int.{ℤ}
use two_phase_commit_protoco.Base.Text.{Text}
use two_phase_commit_protoco.Map.{insert}
use two_phase_commit_protoco.Messages.Transaction.{Transaction}
use two_phase_commit_protoco.Net
use two_phase_commit_protoco.Net.{Net, Message, Answer, failed, closed, got}
use two_phase_commit_protoco.ServerStub.{ServerStub, send_response}
use two_phase_commit_protoco.Factory.State.{Factory}
use two_phase_commit_protoco.Factory.Persistence.{
  update_value, store_txn_log_record, store_txn_log_in_txn_map, rows, prepare_records,
}
use two_phase_commit_protoco.Factory.Manager.{
  abort_record, peer_prepare, commit_txn, tm_commit, abort_txn, tm_abort,
}
use two_phase_commit_protoco.Factory.Serve.{
  Role, prepare, commit, abort, unknown, role_of, flow, receive_id_msg_and_initiate_flow,
  pr_prepare,
}
use two_phase_commit_protoco.Factory.Manager.Vote.{Current, prepared, tm_prepare_ok}

-- What `PeerPrepare` leaves: the orders are in the log and at the end of the log file.
abbrev pub replicated : Transaction → Factory → Factory
replicated txn f =
    let records = prepare_records txn.txn_id txn.write_records in
    record f {
      txn_log = insert txn.txn_id records f.txn_log;
      disk = record f.disk { log_file = some (rows f.disk.log_file ++ records) };
    }

-- What an abort leaves: one more record under the id and in the log file.
abbrev pub aborted : ℤ → Factory → Factory
aborted id f = record f {
  txn_log = (update_value f.txn_log id (abort_record id)).1;
  disk = record f.disk { log_file = some (rows f.disk.log_file ++ abort_record id ∷ []) };
}

pub abort_txn_lem :
    (id : ℤ) (f : Factory) → f.disk.writable ≡ true → abort_txn id f ≡ some (aborted id f)
unfolding abort_txn
abort_txn_lem id f w = rw w refl

module _ (net : Net) (eng : ℤ) where
  -- One round of the dispatcher on a text and a flow that goes on.
  pub goes_on :
      (n : ℕ) (t : Text) (ms : List Message) (r : Role) (s s' : ServerStub) (f g : Factory)
      → s.input ≡ Net.text t ∷ ms
      → role_of t ≡ r
      → flow net eng r (record s { input = ms }) f ≡ some (true, s', g)
      → receive_id_msg_and_initiate_flow net (suc n) eng s f
        ≡ receive_id_msg_and_initiate_flow net n eng s' g
  unfolding receive_id_msg_and_initiate_flow
  goes_on n t ms r s s' f g e role step = ground arith

  -- The connection has ended, and what lies in the buffer is no command.
  pub ends :
      (n : ℕ) (s : ServerStub) (f : Factory)
      → s.input ≡ []
      → role_of s.stray_text ≡ unknown
      → receive_id_msg_and_initiate_flow net (suc n) eng s f ≡ some (s, f)
  unfolding receive_id_msg_and_initiate_flow flow
  ends n s f e stray = ground arith

  pub flow_prepare_ok :
      (s : ServerStub) (f : Factory) (t : Transaction) (ms : List Message)
      → s.input ≡ Net.txn t ∷ ms
      → s.mallocs ≡ true
      → f.disk.writable ≡ true
      → All (Current f.customer_record) t.read_records
      → flow net eng prepare s f
        ≡ some (true, send_response "Ok" (record s { input = ms }), prepared net t f)
  unfolding flow
  flow_prepare_ok s f t ms e m w h = rw (tm_prepare_ok net s f t ms e m w h) refl

  pub flow_commit :
      (s : ServerStub) (f g : Factory) (id : ℤ) (ms : List Message)
      → s.input ≡ Net.number id ∷ ms
      → commit_txn net eng id f ≡ some g
      → flow net eng commit s f
        ≡ some (true, send_response "Done commit" (record s { input = ms }), g)
  unfolding flow tm_commit
  flow_commit s f g id ms e runs = ground arith

  pub flow_abort :
      (s : ServerStub) (f g : Factory) (id : ℤ) (ms : List Message)
      → s.input ≡ Net.number id ∷ ms
      → abort_txn id f ≡ some g
      → flow net eng abort s f
        ≡ some (true, send_response "Done abort" (record s { input = ms }), g)
  unfolding flow tm_abort
  flow_abort s f g id ms e runs = ground arith

  pub flow_pr_prepare :
      (s : ServerStub) (f : Factory) (t : Transaction) (ms : List Message)
      → s.input ≡ Net.txn t ∷ ms
      → s.mallocs ≡ true
      → f.disk.writable ≡ true
      → flow net eng pr_prepare s f
        ≡ some (true, send_response "Ok" (record s { input = ms }), replicated t f)
  unfolding flow peer_prepare store_txn_log_in_txn_map store_txn_log_record
  flow_pr_prepare s f t ms e m w = rw (e, m, w) refl

-- ===== src/Factory/Restart.antt =====
-- The transaction log after a restart (ServerThread.cpp: `recovery_txn_log` after `TMPrepare` and
-- `TMAbort`).
use two_phase_commit_protoco.Base.{
  ◌≡◌, ◌≢◌, true, some, refl, sym, ap, ◌∙◌, none, List, [], ◌∷◌, ◌++◌, append-nil, append_assoc,
  All,
}
use two_phase_commit_protoco.Base.Int.{ℤ}
use two_phase_commit_protoco.Map.{Map, find, put, insert}
use two_phase_commit_protoco.Map.Laws.{find-put_self, insert_new, put-put}
use two_phase_commit_protoco.Messages.Replication.{PeerServersInfo}
use two_phase_commit_protoco.Messages.Transaction.{Transaction}
use two_phase_commit_protoco.Net
use two_phase_commit_protoco.Net.{Net, Message, Answer, failed, closed, got}
use two_phase_commit_protoco.Factory.State.{TxnLogRequest, Factory}
use two_phase_commit_protoco.Factory.Persistence.{update_value, rows, prepare_records, replay_log}
use two_phase_commit_protoco.Factory.Start.{make_factory}
use two_phase_commit_protoco.Factory.Recovery.{started_log, replay_log-append}
use two_phase_commit_protoco.Factory.Persistence.Filed.{HasId, prepare_records-HasId}
use two_phase_commit_protoco.Factory.Manager.Vote.{Current, prepared, tm_prepare_ok}
use two_phase_commit_protoco.Factory.Manager.{tm_prepare}
use two_phase_commit_protoco.ServerStub.{ServerStub, send_response}

update_value_old :
    (k : ℤ) (old : List TxnLogRequest) (v : TxnLogRequest) (d : Map (List TxnLogRequest))
    → (update_value (put k old d) k v).1 ≡ put k (old ++ v ∷ []) d
unfolding update_value
update_value_old k old v d =
    rw (find-put_self k old d, update_value) (put-put k old (old ++ v ∷ []) d)

update_value_new :
    (k : ℤ) (v : TxnLogRequest) (d : Map (List TxnLogRequest))
    → find k d ≡ none
    → (update_value d k v).1 ≡ put k (v ∷ []) d
unfolding update_value
update_value_new k v d h = rw (h, update_value) (insert_new k (v ∷ []) d h)

replay_step :
    (id : ℤ) (r : TxnLogRequest) (rs : List TxnLogRequest) (d : Map (List TxnLogRequest))
    → HasId id r
    → replay_log (r ∷ rs) d ≡ replay_log rs (update_value d id r).1
unfolding replay_log
replay_step id r rs d h = ap (λ k. replay_log rs (update_value d k r).1) h

replay_one_id :
    (id : ℤ) (rs seen : List TxnLogRequest) (d : Map (List TxnLogRequest))
    → All (HasId id) rs
    → replay_log rs (put id seen d) ≡ put id (seen ++ rs) d
replay_one_id id [] seen d h = unfold replay_log in ap (λ l. put id l d) (sym (append-nil seen))
replay_one_id id (r ∷ rs) seen d (h, hs) =
    replay_step id r rs (put id seen d) h
    ∙ ap (replay_log rs) (update_value_old id seen r d)
    ∙ replay_one_id id rs (seen ++ r ∷ []) d hs
    ∙ ap (λ l. put id l d) (append_assoc seen (r ∷ []) rs)

-- The rows of the log file lead to the transaction log in memory.
abbrev pub IsRecoverable : Factory → Type 0
IsRecoverable f = replay_log (rows f.disk.log_file) [] ≡ f.txn_log

replay_new :
    (id : ℤ) (recs : List TxnLogRequest) (d : Map (List TxnLogRequest))
    → recs ≢ []
    → All (HasId id) recs
    → find id d ≡ none
    → replay_log recs d ≡ insert id recs d
replay_new id [] d some_orders h fresh = absurd (some_orders refl)
replay_new id (r ∷ rs) d some_orders (h, hs) fresh =
    replay_step id r rs d h
    ∙ ap (replay_log rs) (update_value_new id r d fresh)
    ∙ replay_one_id id rs (r ∷ []) d hs
    ∙ sym (insert_new id (r ∷ rs) d fresh)

-- `TMPrepare` of a transaction that arrives, with memory to receive it, of a new id, with at least one
-- order that is valid at its front, whose reads are current, and with a log file that can be opened,
-- ends with the vote "Ok" and its orders in the transaction log. If the log file has led to the
-- transaction log before, it does so then, and a node that is started on the files has the same
-- transaction log.
pub prepared_survives :
    (net : Net) (peers : List PeerServersInfo) (s : ServerStub) (t : Transaction)
    (ms : List Message) (f : Factory)
    → s.input ≡ Net.txn t ∷ ms
    → s.mallocs ≡ true
    → f.disk.writable ≡ true
    → All (Current f.customer_record) t.read_records
    → IsRecoverable f
    → find t.txn_id f.txn_log ≡ none
    → prepare_records t.txn_id t.write_records ≢ []
    → (g : Factory) × (tm_prepare net s f ≡ some (send_response "Ok" (record s { input = ms }), g))
      × (find t.txn_id g.txn_log ≡ some (prepare_records t.txn_id t.write_records))
      × IsRecoverable g
      × ((make_factory peers g.disk).txn_log ≡ g.txn_log)
prepared_survives net peers s t ms f e m w cur v fresh some_orders =
    let recs = prepare_records t.txn_id t.write_records in
    let whole = rows f.disk.log_file ++ recs in
    let path : replay_log whole [] ≡ insert t.txn_id recs f.txn_log =
      replay_log-append (rows f.disk.log_file) recs []
      ∙ ap (replay_log recs) v
      ∙ replay_new t.txn_id recs f.txn_log some_orders
          (prepare_records-HasId t.txn_id t.write_records) fresh in
    (
      prepared net t f,
      tm_prepare_ok net s f t ms e m w cur,
      ap (find t.txn_id) (insert_new t.txn_id recs f.txn_log fresh)
          ∙ find-put_self t.txn_id recs f.txn_log,
      path,
      started_log peers (prepared net t f).disk whole refl ∙ path,
    )

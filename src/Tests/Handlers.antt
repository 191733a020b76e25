-- ===== src/Tests/Handlers.antt =====
-- The handlers of a resource manager at concrete inputs.
use two_phase_commit_protoco.Base.{
  List, ℕ, ◌≡◌, ◌≢◌, refl, inl, inr, true, some, [], ◌∷◌, arith, All,
}
use two_phase_commit_protoco.Base.Int.{pos}
use two_phase_commit_protoco.Base.Text.{codes}
use two_phase_commit_protoco.Map.{find, put}
use two_phase_commit_protoco.Messages.Transaction.{Transaction}
use two_phase_commit_protoco.Net
use two_phase_commit_protoco.Net.{Net, Message, Answer, failed, closed, got}
use two_phase_commit_protoco.ClientStub.{new_stub}
use two_phase_commit_protoco.ServerStub.{ServerStub, send_response}
use two_phase_commit_protoco.Factory.State.{Peer, TxnLogRequest, Factory}
use two_phase_commit_protoco.Factory.Persistence.{prepare_records, replay_log}
use two_phase_commit_protoco.Factory.Manager.{copy_tranlog_replica, tm_prepare, commit_txn}
use two_phase_commit_protoco.Factory.Serve.{unknown, role_of, engineer_ifa_thread}
use two_phase_commit_protoco.Tests.Data.{
  net_ok, fresh_backup, backup_info, manager, transfer, outdated, connection,
}
use two_phase_commit_protoco.Factory.Start.{new_peer, make_factory}
use two_phase_commit_protoco.Factory.Admin.Settled.{IsSettled}
use two_phase_commit_protoco.Factory.Manager.Vote.{Current}
use two_phase_commit_protoco.Factory.Manager.Copy.{EachCopied, copy_tranlog_replica_skips}
use two_phase_commit_protoco.Factory.Serve.Failover.{backup_commits}
use two_phase_commit_protoco.Factory.Serve.TwoPhase.{prepare_then_commit}
use two_phase_commit_protoco.Factory.Manager.ReusedId.{prepare_reused_id}
use two_phase_commit_protoco.Factory.Restart.{IsRecoverable, prepared_survives}

manager-IsSettled : IsSettled manager
manager-IsSettled = record { at_last = refl; at_committed = refl }

transfer-Current : All (Current manager.customer_record) transfer.read_records
unfolding find
transfer-Current = (inr refl, tt)

abbrev committing : ServerStub
committing = connection (
    Net.text (codes "TMPrepare")
    ∷ Net.txn transfer
    ∷ Net.text (codes "TMCommit")
    ∷ Net.number (pos 0)
    ∷ [])

abbrev aborting : ServerStub
aborting = connection (
    Net.text (codes "TMPrepare")
    ∷ Net.txn transfer
    ∷ Net.text (codes "TMAbort")
    ∷ Net.number (pos 0)
    ∷ [])

-- The two connections to a backup that takes over.
abbrev copying : ServerStub
copying = connection (Net.text (codes "PrPrepare") ∷ Net.txn transfer ∷ [])

abbrev deciding : ServerStub
deciding = connection (Net.text (codes "TMCommit") ∷ Net.number (pos 0) ∷ [])

fresh_backup-IsSettled : IsSettled fresh_backup
fresh_backup-IsSettled = record { at_last = refl; at_committed = refl }

no_command : role_of [] ≡ unknown
unfolding role_of
no_command = refl

prepare_then_commit_example :
    (g : Factory) × (engineer_ifa_thread net_ok (pos 1) committing manager
      ≡ some (send_response "Done commit" (send_response "Ok" (connection [])), g))
    × (g.customer_record ≡ (pos 0, pos 11) ∷ [])
    × (g.disk.cust_rec_file ≡ some ((pos 0, pos 11) ∷ []))
unfolding prepare_records put find
prepare_then_commit_example =
    prepare_then_commit net_ok (pos 1) committing manager transfer refl refl no_command refl refl
      manager-IsSettled transfer-Current refl (omega arith)

backup_commits_example :
    (f1 g : Factory) × (engineer_ifa_thread net_ok (pos 1) copying fresh_backup
      ≡ some (send_response "Ok" (connection []), f1))
    × (engineer_ifa_thread net_ok (pos 1) deciding f1
        ≡ some (send_response "Done commit" (connection []), g))
    × (g.customer_record ≡ (pos 0, pos 11) ∷ [])
    × (g.disk.cust_rec_file ≡ some ((pos 0, pos 11) ∷ []))
unfolding prepare_records put find
backup_commits_example =
    backup_commits net_ok (pos 1) copying deciding fresh_backup transfer refl refl refl no_command
      no_command refl refl fresh_backup-IsSettled refl (omega arith)

outdated-not-Current : ¬ All (Current manager.customer_record) outdated.read_records
unfolding find
outdated-not-Current (inl e, _) = cc
outdated-not-Current (inr e, _) = ground arith

-- A manager that holds two prepared transactions, 0 and 5.
abbrev prepared_record : ℕ → ℕ → ℕ → TxnLogRequest
prepared_record id customer order = record {
  txn_id = pos id;
  txn_operation = pos 1;
  customer_id = pos customer;
  last_order_num = pos order;
  customer_opr = pos 1;
}

abbrev two_prepared : Factory
two_prepared = record manager {
  txn_log = (pos 0, prepared_record 0 0 11 ∷ []) ∷ (pos 5, prepared_record 5 7 1 ∷ []) ∷ [];
}

two_prepared-IsSettled : IsSettled two_prepared
two_prepared-IsSettled = record { at_last = refl; at_committed = refl }

-- The id of transaction 5 again, with the orders of `transfer`.
abbrev again : Transaction
again = record transfer { txn_id = pos 5 }

prepare_reused_id_example :
    (f1 g : Factory) × (tm_prepare net_ok (connection (Net.txn again ∷ [])) two_prepared
      ≡ some (send_response "Ok" (connection []), f1))
    × (commit_txn net_ok (pos 1) (pos 5) f1 ≡ some g)
    × (g.customer_record ≡ (pos 0, pos 10) ∷ (pos 7, pos 1) ∷ [])
unfolding find put
prepare_reused_id_example =
    prepare_reused_id net_ok (pos 1) (connection (Net.txn again ∷ [])) two_prepared again []
      (prepared_record 5 7 1 ∷ []) refl refl refl refl two_prepared-IsSettled transfer-Current refl
      (omega arith)

one_order : prepare_records (pos 0) transfer.write_records ≢ []
unfolding prepare_records
one_order e = cc

prepared_survives_example :
    (g : Factory) × (tm_prepare net_ok (connection (Net.txn transfer ∷ [])) manager
      ≡ some (send_response "Ok" (connection []), g))
    × (find transfer.txn_id g.txn_log
        ≡ some (prepare_records transfer.txn_id transfer.write_records))
    × IsRecoverable g
    × ((make_factory [] g.disk).txn_log ≡ g.txn_log)
unfolding find replay_log
prepared_survives_example =
    prepared_survives net_ok [] (connection (Net.txn transfer ∷ [])) transfer [] manager refl refl
      refl transfer-Current refl refl one_order

-- The manager with an open connection to one peer, and none to another one.
abbrev connected : Factory
connected = record manager {
  peers =
      record (new_peer backup_info) { node = record new_stub { fd = pos 3; is_initialized = true } }
      ∷ new_peer backup_info
      ∷ [];
}

copy_tranlog_replica_skips_example :
    (qs : List Peer) × (copy_tranlog_replica net_ok transfer connected
      ≡ record connected { peers = qs })
    × EachCopied net_ok transfer connected.peers qs
copy_tranlog_replica_skips_example =
    copy_tranlog_replica_skips net_ok transfer connected
      (record { sends = λ fd k. refl; mallocs = λ k. refl }) (refl, (refl, tt))

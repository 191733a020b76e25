-- ===== src/Tests/Serving.antt =====
-- Whole connections and sequences of messages at concrete inputs.
use two_phase_commit_protoco.Base.{◌≡◌, refl, inl, some, List, [], ◌∷◌, All}
use two_phase_commit_protoco.Base.Int.{pos}
use two_phase_commit_protoco.Base.Text.{codes}
use two_phase_commit_protoco.Map.{find}
use two_phase_commit_protoco.Messages.Order.{CustomerOrder}
use two_phase_commit_protoco.Messages.Record.{new_record, make_record}
use two_phase_commit_protoco.Messages.Transaction.{Transaction}
use two_phase_commit_protoco.Net
use two_phase_commit_protoco.Net.{Net, Message, Answer, failed, closed, got}
use two_phase_commit_protoco.ServerStub.{ServerStub, send_response}
use two_phase_commit_protoco.Factory.State.{Factory}
use two_phase_commit_protoco.Factory.Persistence.{recovery_txn_log, recovery_cust_rec}
use two_phase_commit_protoco.Factory.Start.{make_factory, set_factory_id}
use two_phase_commit_protoco.Factory.Manager.{tm_prepare}
use two_phase_commit_protoco.Factory.Manager.Vote.{Current, prepared, tm_prepare_ok}
use two_phase_commit_protoco.Factory.Ready.{IsReady}
use two_phase_commit_protoco.Factory.Ready.Steps.{prepare, Reachable, here, next, started-IsReady}
use two_phase_commit_protoco.Factory.Serve.{customer_answer, read_engineer_flow}
use two_phase_commit_protoco.Factory.Serve.Reads.{read_then_prepare}
use two_phase_commit_protoco.Tests.Data.{net_ok, disk, manager, order_to, transfer, connection}

-- The request to read customer 0, and one for a customer that is not known.
abbrev read_requests : List CustomerOrder
read_requests =
    record (order_to 0 0) { request_type = pos 2 }
    ∷ record (order_to 9 0) { request_type = pos 2 }
    ∷ []

abbrev reading : ServerStub
reading = connection (
    Net.order (record (order_to 0 0) { request_type = pos 2 })
    ∷ Net.order (record (order_to 9 0) { request_type = pos 2 })
    ∷ [])

abbrev informed : Transaction
informed = record transfer {
  len_read_records = pos 2;
  read_records = make_record (pos 0) (pos 10) ∷ new_record ∷ [];
}

read_then_prepare_example :
    (read_engineer_flow manager.customer_record reading
      ≡ some (record reading {
        input = [];
        replies = Net.customer (make_record (pos 0) (pos 10)) ∷ Net.customer new_record ∷ [];
      }))
    × (tm_prepare net_ok (connection (Net.txn informed ∷ [])) manager
        ≡ some (send_response "Ok" (connection []), prepared net_ok informed manager))
unfolding find customer_answer
read_then_prepare_example =
    read_then_prepare net_ok manager reading (connection (Net.txn informed ∷ [])) read_requests
      informed [] refl refl refl ((refl, refl), ((refl, refl), tt)) refl refl refl

abbrev refused : ServerStub
refused = connection (Net.text (codes "TMPrepare") ∷ Net.txn transfer ∷ [])

-- A resource manager that has been started on no files, and has then been asked to prepare.
abbrev started : Factory
started = set_factory_id (make_factory [] disk) (pos 0)

nothing_read : All (Current started.customer_record) transfer.read_records
unfolding make_factory recovery_txn_log recovery_cust_rec find
nothing_read = (inl refl, tt)

started_prepare : Reachable net_ok (pos 1) started (prepared net_ok transfer started)
unfolding make_factory recovery_txn_log recovery_cust_rec
started_prepare = next started started (prepared net_ok transfer started) (here started) (
    prepare (connection (Net.txn transfer ∷ [])) (send_response "Ok" (connection [])) started
      (prepared net_ok transfer started)
      (tm_prepare_ok net_ok (connection (Net.txn transfer ∷ [])) started transfer [] refl refl refl
        nothing_read))

started-IsReady_example : IsReady (prepared net_ok transfer started)
started-IsReady_example =
    started-IsReady net_ok (pos 1) [] disk (pos 0) (prepared net_ok transfer started) refl
      started_prepare

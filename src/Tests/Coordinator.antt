-- ===== src/Tests/Coordinator.antt =====
-- The transaction manager at concrete inputs.
use two_phase_commit_protoco.Base.{
  arith, inl, inr, ◌≡◌, refl, ◌⊎◌, true, some, List, [], ◌∷◌, map, All,
}
use two_phase_commit_protoco.Base.Int.{pos, inc}
use two_phase_commit_protoco.Base.Text.{codes, eqb_text}
use two_phase_commit_protoco.Messages.Replication.{PeerServersInfo}
use two_phase_commit_protoco.Messages.Transaction.{set_txn_id}
use two_phase_commit_protoco.Net
use two_phase_commit_protoco.Net.{Net, Message, Answer, failed, closed, got}
use two_phase_commit_protoco.ClientStub.{
  ClientStub, new_stub, init, send_id_msg, send_txn_prepare_request, send_txn_id,
}
use two_phase_commit_protoco.ServerStub.{ServerStub, send_response}
use two_phase_commit_protoco.Tests.Data.{
  net_ok, net_no, net_down, backup_info, transfer, connection,
}
use two_phase_commit_protoco.TransactionManager.{
  connect_rms, prepare_rm, prepare_rms, told_rm, decide_rm, decide_rms, run_phases,
  transaction_manager,
}
use two_phase_commit_protoco.TransactionManager.Told.{IsServed}
use two_phase_commit_protoco.TransactionManager.Decision.{
  Consents, transaction_manager_commits, transaction_manager_aborts,
}
use two_phase_commit_protoco.TransactionManager.Main.{
  serve_clients, AllAnswered, serve_clients-AllAnswered,
}
use two_phase_commit_protoco.TransactionManager.Agreement.{
  Unsent, transaction_manager_agrees, transaction_manager_unreached,
}

abbrev request : ServerStub
request = connection (Net.txn transfer ∷ [])

abbrev clusters : List PeerServersInfo
clusters = backup_info ∷ record backup_info { id = pos 2 } ∷ []

-- A socket that has just been connected.
abbrev fresh_node : ClientStub
fresh_node = record new_stub { fd = pos 3; is_initialized = true; calls = 1 }

net_ok-IsServed : IsServed net_ok fresh_node
net_ok-IsServed = record {
  open_socket = refl;
  sends = λ k. refl;
  mallocs = λ k. refl;
  keeps_open = λ k e. cc e;
}

net_no-IsServed : IsServed net_no fresh_node
net_no-IsServed = record {
  open_socket = refl;
  sends = λ k. refl;
  mallocs = λ k. refl;
  keeps_open = λ k e. cc e;
}

net_ok-Consents : All (Consents net_ok) (fresh_node ∷ fresh_node ∷ [])
net_ok-Consents =
    ((net_ok-IsServed, unfold eqb_text in refl), ((net_ok-IsServed, unfold eqb_text in refl), tt))

transaction_manager_commits_example :
    (told : List ClientStub) × (transaction_manager net_ok clusters request (pos 4)
      ≡ some (send_response "Success" (connection []), inc (pos 4), told))
    × (map (λ n. n.sent) told
        ≡ map
            (λ _.
              Net.text (codes "TMPrepare")
              ∷ Net.txn (set_txn_id transfer (pos 4))
              ∷ Net.text (codes "TMCommit")
              ∷ Net.number (pos 4)
              ∷ [])
            (fresh_node ∷ fresh_node ∷ []))
unfolding connect_rms init
transaction_manager_commits_example =
    transaction_manager_commits net_ok clusters request (pos 4) transfer []
      (fresh_node ∷ fresh_node ∷ []) refl refl refl net_ok-Consents

transaction_manager_aborts_example :
    let abort = Net.text (codes "TMAbort") ∷ Net.number (pos 4) ∷ [] in
    let asked = Net.text (codes "TMPrepare") ∷ Net.txn (set_txn_id transfer (pos 4)) ∷ abort in
    (told : List ClientStub) × (transaction_manager net_no clusters request (pos 4)
      ≡ some (send_response "Failed" (connection []), inc (pos 4), told))
    × (map (λ n. n.sent) told ≡ asked ∷ abort ∷ [])
unfolding connect_rms init
transaction_manager_aborts_example =
    transaction_manager_aborts net_no clusters request (pos 4) transfer [] [] (fresh_node ∷ [])
      fresh_node refl refl refl tt (net_no-IsServed, unfold eqb_text in refl) (net_no-IsServed, tt)

abbrev told : List ClientStub
told =
    map (λ n. (told_rm net_ok true (pos 4) (prepare_rm net_ok (set_txn_id transfer (pos 4)) n).1).1)
      (fresh_node ∷ fresh_node ∷ [])

transaction_manager_agrees_example :
    All (Unsent net_ok (codes "TMAbort")) told ⊎ All (Unsent net_ok (codes "TMCommit")) told
unfolding transaction_manager run_phases decide_rms decide_rm connect_rms prepare_rms prepare_rm
    told_rm init send_id_msg send_txn_prepare_request send_txn_id eqb_text
transaction_manager_agrees_example =
    transaction_manager_agrees net_ok clusters request (send_response "Success" (connection []))
      (pos 4) (inc (pos 4)) told refl

transaction_manager_unreached_example :
    (transaction_manager net_down clusters request (pos 4)
      ≡ some
          (send_response "Failed" (connection []), inc (pos 4), (connect_rms net_down clusters).1))
    × All (λ n. n.sent ≡ []) (connect_rms net_down clusters).1
unfolding connect_rms init
transaction_manager_unreached_example =
    transaction_manager_unreached net_down clusters request (pos 4) transfer [] refl refl refl

-- A client while all can be reached, one while a node refuses, and one while nothing can be reached.
abbrev three_clients : List (Net × ServerStub)
three_clients = (net_ok, request) ∷ (net_no, request) ∷ (net_down, request) ∷ []

serve_clients-AllAnswered_example :
    (us : List ServerStub) × (serve_clients clusters three_clients (pos 0) ≡ some (us, pos 3))
    × AllAnswered clusters three_clients us
unfolding connect_rms init
serve_clients-AllAnswered_example =
    serve_clients-AllAnswered clusters three_clients 0
      (
        ((transfer, [], refl), refl, inr (net_ok-IsServed, (net_ok-IsServed, tt))),
        (
          ((transfer, [], refl), refl, inr (net_no-IsServed, (net_no-IsServed, tt))),
          (((transfer, [], refl), refl, inl refl), tt),
        ),
      )
      (omega arith)

-- ===== src/TransactionManager.antt =====
-- TransactionManager.cpp: `transaction_manager`, which runs one transaction of a client over all
-- resource managers.
pub mod Told
pub mod Decision
pub mod Agreement
pub mod Main
use two_phase_commit_protoco.Base.{
  Bool, true, false, Option, none, some, List, [], ◌∷◌, map, ◌>>=◌, if◌then◌else◌,
}
use two_phase_commit_protoco.Base.Int.{ℤ, pos, eqb_ℤ, inc}
use two_phase_commit_protoco.Base.Text.{Text, codes, eqb_text}
use two_phase_commit_protoco.Messages.Replication.{PeerServersInfo}
use two_phase_commit_protoco.Messages.Transaction.{Transaction, set_txn_id}
use two_phase_commit_protoco.Net.{Net}
use two_phase_commit_protoco.ClientStub.{
  ClientStub, new_stub, init, send_id_msg, send_txn_prepare_request, send_txn_id,
}
use two_phase_commit_protoco.ServerStub.{ServerStub, receive_txn_request, send_response}

module _ (net : Net) where
  -- The primary of a cluster, or else its backup: whether one was reached, and the socket.
  unfoldable pub connect_rm : PeerServersInfo → Bool × ClientStub
  connect_rm rm =
      let (r, node) = init net rm.ip rm.port new_stub in
      let (q, backup) = init net rm.backup_ip rm.backup_port node in
      if eqb_ℤ r (pos 0)
      then (if eqb_ℤ q (pos 0) then (false, backup) else (true, backup))
      else (true, node)

  -- The loop ends at the first cluster that cannot be reached.
  unfoldable pub connect_rms : List PeerServersInfo → Bool × List ClientStub
  unfolding connect_rm
  connect_rms [] = (true, [])
  connect_rms (rm ∷ rms) =
      let (reached, node) = connect_rm rm in
      let (all, nodes) = connect_rms rms in
      if reached then (all, node ∷ nodes) else (false, node ∷ [])

  unfoldable pub prepare_rm : Transaction → ClientStub → Text × ClientStub
  prepare_rm txn node =
      send_txn_prepare_request net txn (send_id_msg net (codes "TMPrepare") node).1

  -- `allOk`, and the nodes: the loop ends at the first "No".
  unfoldable pub prepare_rms : Transaction → List ClientStub → Bool × List ClientStub
  unfolding prepare_rm
  prepare_rms txn [] = (true, [])
  prepare_rms txn (node ∷ nodes) =
      let (response, asked) = prepare_rm txn node in
      let (ok, others) = prepare_rms txn nodes in
      if eqb_text response (codes "No") then (false, asked ∷ nodes) else (ok, asked ∷ others)

  -- The node once it has been sent the decision and the id, and has been read from.
  unfoldable pub told_rm : Bool → ℤ → ClientStub → Option Text × ClientStub
  told_rm ok id node =
      send_txn_id net id (send_id_msg net (if ok then codes "TMCommit" else codes "TMAbort") node).1

  -- The answer is not looked at, but without one `SendTxnId` ends without a `return`.
  unfoldable pub decide_rm : Bool → ℤ → ClientStub → Option ClientStub
  unfolding told_rm
  decide_rm ok id node =
      let (answer, told) = told_rm ok id node in answer >>= λ (_ : Text). some told

  unfoldable pub decide_rms : Bool → ℤ → List ClientStub → Option (List ClientStub)
  unfolding decide_rm
  decide_rms ok id [] = some []
  decide_rms ok id (node ∷ nodes) = do
    told ← decide_rm ok id node
    others ← decide_rms ok id nodes
    some (told ∷ others)

  -- The second phase, and the answer to the client.
  unfoldable pub run_phases :
      Transaction → List ClientStub → ServerStub → Option (ServerStub × List ClientStub)
  unfolding prepare_rms decide_rms
  run_phases txn nodes s = do
    let (ok, asked) = prepare_rms txn nodes
    told ← decide_rms ok txn.txn_id asked
    some (if ok then send_response "Success" s else send_response "Failed" s, told)

  -- `id` is the global `transaction_id`. The result is the client's connection, the global and the
  -- nodes; `none` is a receive that ends without a `return`.
  unfoldable pub transaction_manager :
      List PeerServersInfo → ServerStub → ℤ → Option (ServerStub × ℤ × List ClientStub)
  transaction_manager rms stub id = do
    let (received, s) = receive_txn_request stub
    request ← received
    let txn = set_txn_id request id
    let (all, nodes) = connect_rms rms
    let result = do (t, told) ← run_phases txn nodes s; some (t, inc id, told)
    if all then result else some (send_response "Failed" s, inc id, nodes)

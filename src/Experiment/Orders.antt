-- ===== src/Experiment/Orders.antt =====
-- The orders of the experiment (Experimental.cpp: `experiment`; ClientThread.cpp:
-- `ThreadBodyReadRequestSingle`, `ThreadBodyWriteRequest`).
use two_phase_commit_protoco.Base.{
  Bool, ℕ, suc, ◌≤◌, ◌≡◌, refl, ap, ◌∙◌, String, true, false, List, [], ◌∷◌, length, arith,
  if◌then◌else◌,
}
use two_phase_commit_protoco.Base.Int.{ℤ, pos, minus_one, eqb_ℤ}
use two_phase_commit_protoco.Base.Text.{codes}
use two_phase_commit_protoco.Map.{Map, put}
use two_phase_commit_protoco.Messages.Order.{new_order, set_order}
use two_phase_commit_protoco.Messages.Record.{CustomerRecord}
use two_phase_commit_protoco.Messages.Transaction.{Transaction}
use two_phase_commit_protoco.Net.{Net}
use two_phase_commit_protoco.ClientStub.{ClientStub, new_stub, init, send_id_msg, read_record}
use two_phase_commit_protoco.Factory.Persistence.{prepare_records}
use two_phase_commit_protoco.Factory.Manager.Commit.{place}
use two_phase_commit_protoco.Client.{
  last_read, set_last_order_of, write_loop, thread_body_write_request,
  thread_body_read_request_single, client_transaction,
}

one_at_most :
    (b c : Bool) (s s1 s2 : ClientStub) (r : CustomerRecord)
    → let out : ClientStub × List CustomerRecord =
        if b then (s, []) else if c then (s2, r ∷ []) else (s1, []) in
      length out.1 ≤ 1
one_at_most true c s s1 s2 r = omega arith
one_at_most false true s s1 s2 r = omega arith
one_at_most false false s s1 s2 r = omega arith

few_reads :
    (net : Net) (ip : String) (port customer : ℤ)
    → length (thread_body_read_request_single net ip port customer (pos 3) []).1 ≤ 1
unfolding thread_body_read_request_single
few_reads net ip port customer =
    let (r, s) = init net ip port new_stub in
    let (sent, s1) = send_id_msg net (codes "CLIENT") s in
    let (last, s2) = read_record net (set_order new_order customer minus_one (pos 2)) s1 in
    one_at_most (eqb_ℤ r (pos 0)) sent s s1 s2 last

last_order_unread :
    (k : ℕ) (reads : List CustomerRecord)
    → length reads ≤ 1
    → set_last_order_of (pos (suc k)) reads ≡ pos 0
unfolding set_last_order_of last_read
last_order_unread k [] h = refl
last_order_unread k (r ∷ []) h = refl
last_order_unread k (r ∷ r' ∷ rs) h = absurd (omega arith)

-- The read of the experiment is the first of its reads, but the orders look for it at the place of
-- the customer. Whatever a customer other than 0 has as its last order and whatever was read, the
-- experiment makes one order for it, with the number 1, and once it is applied the last order is 1.
pub experiment_resets :
    (net : Net) (ip : String) (port id : ℤ) (k : ℕ) (g : Transaction) (customers : Map ℤ)
    → let customer = pos (suc k) in
      let reads = (thread_body_read_request_single net ip port customer (pos 3) []).1 in
      let writes = thread_body_write_request customer (pos 1) (pos 1) reads [] in
      let t = client_transaction g reads writes in
      place (prepare_records id t.write_records) customers ≡ put customer (pos 1) customers
unfolding thread_body_write_request client_transaction
experiment_resets net ip port id k g customers =
    let reads = (thread_body_read_request_single net ip port (pos (suc k)) (pos 3) []).1 in
    let unread = last_order_unread k reads (few_reads net ip port (pos (suc k))) in
    ap (λ last. place (prepare_records id (write_loop 1 1 (pos (suc k)) last (pos 1) [])) customers)
      unread
    ∙ (unfold write_loop prepare_records in refl)

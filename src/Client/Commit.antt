-- ===== src/Client/Commit.antt =====
-- The orders of a client, through both phases at a resource manager (ClientThread.cpp:
-- `ThreadBodyWriteRequest`; ServerThread.cpp: `TMPrepare`, `TMCommit`).
use two_phase_commit_protoco.Base.{
  ℕ, suc, ◌+◌, ◌^◌, ◌≤◌, ◌≡◌, ap, ◌∙◌, true, none, some, [], ◌∷◌, length, All,
}
use two_phase_commit_protoco.Base.Int.{ℤ, pos}
use two_phase_commit_protoco.Base.Text.{codes}
use two_phase_commit_protoco.Map.{find}
use two_phase_commit_protoco.Messages.Order.{is_valid}
use two_phase_commit_protoco.Messages.Record.{CustomerRecord}
use two_phase_commit_protoco.Messages.Transaction.{Transaction}
use two_phase_commit_protoco.Net
use two_phase_commit_protoco.Net.{Net, Message, Answer, failed, closed, got}
use two_phase_commit_protoco.ServerStub.{ServerStub, send_response}
use two_phase_commit_protoco.Factory.State.{Factory}
use two_phase_commit_protoco.Factory.Persistence.{prepare_records}
use two_phase_commit_protoco.Factory.Admin.Settled.{IsSettled}
use two_phase_commit_protoco.Factory.Manager.Commit.{place}
use two_phase_commit_protoco.Factory.Manager.Vote.{Current}
use two_phase_commit_protoco.Factory.Serve.{unknown, role_of, engineer_ifa_thread}
use two_phase_commit_protoco.Factory.Serve.TwoPhase.{prepare_then_commit}
use two_phase_commit_protoco.Client.{last_read, thread_body_write_request}
use two_phase_commit_protoco.Client.Orders.{orders_reach}

-- A client that has read the last order `m` of a customer sends a transaction of a new id whose
-- writes are its `n` + 1 orders for that customer, and whose reads are all current at a resource
-- manager with nothing pending, no request waiting, files that can be opened, memory to receive the
-- transaction and no command left in the buffer at the end. On the messages of the transaction
-- manager, in their order, the connection there ends with the votes "Ok" and "Done commit", and the
-- customer's last order is then `m` + `n` + 1. The id of the customer is not -1, and the order
-- numbers and the indices of the log are `int`s.
pub orders_committed :
    (net : Net) (eng : ℤ) (s : ServerStub) (f : Factory) (t : Transaction) (c type : ℤ) (n m : ℕ)
    (r : CustomerRecord)
    → s.input
      ≡ Net.text (codes "TMPrepare")
        ∷ Net.txn t
        ∷ Net.text (codes "TMCommit")
        ∷ Net.number t.txn_id
        ∷ []
    → s.mallocs ≡ true
    → role_of s.stray_text ≡ unknown
    → f.disk.writable ≡ true
    → f.arq ≡ []
    → IsSettled f
    → All (Current f.customer_record) t.read_records
    → find t.txn_id f.txn_log ≡ none
    → length f.smr_log + length (prepare_records t.txn_id t.write_records) ≤ 2 ^ 31
    → last_read c t.read_records ≡ some r
    → r.last_order ≡ pos m
    → is_valid (record { customer_id = c; order_number = pos 0; request_type = type }) ≡ true
    → 1 + suc n + m ≤ 2 ^ 31
    → t.write_records ≡ thread_body_write_request c (pos (suc n)) type t.read_records []
    → (g : Factory) × (engineer_ifa_thread net eng s f
        ≡ some (send_response "Done commit" (send_response "Ok" (record s { input = [] })), g))
      × (find c g.customer_record ≡ some (pos (m + n + 1)))
orders_committed net eng s f t c type n m r e mem stray w q v cur fresh room read last valid fits
      own =
    let (g, runs, customers, file) =
      prepare_then_commit net eng s f t e mem stray w q v cur fresh room in
    (
      g,
      runs,
      ap (find c) customers
          ∙ ap (λ os. find c (place (prepare_records t.txn_id os) f.customer_record)) own
          ∙ orders_reach t.txn_id c type n m t.read_records r f.customer_record read last valid
              fits,
    )

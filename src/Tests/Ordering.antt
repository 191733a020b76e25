-- ===== src/Tests/Ordering.antt =====
-- A client at concrete inputs.
use two_phase_commit_protoco.Base.{ℕ, ◌≡◌, refl, inr, some, List, [], ◌∷◌, arith}
use two_phase_commit_protoco.Base.Int.{pos}
use two_phase_commit_protoco.Base.Text.{codes}
use two_phase_commit_protoco.Map.{find}
use two_phase_commit_protoco.Messages.Record.{CustomerRecord, make_record}
use two_phase_commit_protoco.Net
use two_phase_commit_protoco.Net.{Net, Message, Answer, failed, closed, got}
use two_phase_commit_protoco.ServerStub.{ServerStub, send_response}
use two_phase_commit_protoco.Factory.State.{Factory}
use two_phase_commit_protoco.Factory.Persistence.{prepare_records}
use two_phase_commit_protoco.Factory.Serve.{role_of, engineer_ifa_thread}
use two_phase_commit_protoco.Client.{
  last_read, set_last_order_of, write_loop, thread_body_write_request, write_stage, Request,
}
use two_phase_commit_protoco.Client.Threads.{write_threads, push_next, run_schedule}
use two_phase_commit_protoco.Client.Threads.Commute.{run_schedule-any_order}
use two_phase_commit_protoco.Factory.Manager.Commit.{place}
use two_phase_commit_protoco.Client.Commit.{orders_committed}
use two_phase_commit_protoco.Tests.Data.{net_ok, manager, transfer, connection}

-- Customer 0 was read at order 10.
abbrev one_read : List CustomerRecord
one_read = make_record (pos 0) (pos 10) ∷ []

-- Two customers with two orders each; the threads take turns, and the second one begins.
abbrev two_each : Request
two_each = record {
  request_type = pos 1;
  ip = "tm";
  port = pos 16000;
  num_customers = pos 2;
  num_orders = pos 2;
}

abbrev turns : List ℕ
turns = 1 ∷ 0 ∷ 0 ∷ 0 ∷ 1 ∷ []

run_schedule-any_order_example :
    find (pos 0) (
      place
        (prepare_records (pos 4) (run_schedule turns (write_threads 2 0 two_each one_read) []).1)
        ((pos 0, pos 10) ∷ []))
    ≡ find (pos 0) (
        place
          (prepare_records (pos 4) (write_stage 2 0 two_each one_read []))
          ((pos 0, pos 10) ∷ []))
unfolding write_threads run_schedule push_next thread_body_write_request write_loop
run_schedule-any_order_example =
    run_schedule-any_order turns 2 two_each one_read (pos 0) (pos 4) ((pos 0, pos 10) ∷ [])
      (refl, (refl, tt))

abbrev ordering : ServerStub
ordering = connection (
    Net.text (codes "TMPrepare")
    ∷ Net.txn transfer
    ∷ Net.text (codes "TMCommit")
    ∷ Net.number (pos 0)
    ∷ [])

orders_committed_example :
    (g : Factory) × (engineer_ifa_thread net_ok (pos 1) ordering manager
      ≡ some (send_response "Done commit" (send_response "Ok" (connection [])), g))
    × (find (pos 0) g.customer_record ≡ some (pos 11))
unfolding find prepare_records role_of last_read set_last_order_of write_loop
    thread_body_write_request
orders_committed_example =
    orders_committed net_ok (pos 1) ordering manager transfer (pos 0) (pos 1) 0 10
      (make_record (pos 0) (pos 10)) refl refl refl refl refl
      (record { at_last = refl; at_committed = refl }) (inr refl, tt) refl (omega arith) refl refl
      refl (omega arith) refl

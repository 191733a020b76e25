-- ===== src/Tests/Experiments.antt =====
-- The experiment, two interleaved votes, and the bytes of a transaction, at concrete inputs.
use two_phase_commit_protoco.Base.{
  ℕ, ◌+◌, ◌*◌, ◌≤◌, ◌≡◌, refl, inl, inr, String, true, false, some, [], ◌∷◌, if◌then◌else◌, arith,
  ◌==◌, Bool, Bool-cases,
}
use two_phase_commit_protoco.Base.Int.{ℤ, pos}
use two_phase_commit_protoco.Base.Text.{codes, eqb_text}
use two_phase_commit_protoco.Map.{find, put}
use two_phase_commit_protoco.Messages.Transaction.{Transaction}
use two_phase_commit_protoco.Net
use two_phase_commit_protoco.Net.{Net, Message, Answer, failed, closed, got}
use two_phase_commit_protoco.ServerStub.{send_response}
use two_phase_commit_protoco.Factory.State.{Factory}
use two_phase_commit_protoco.Factory.Persistence.{prepare_records}
use two_phase_commit_protoco.Factory.Manager.{tm_prepare, commit_txn}
use two_phase_commit_protoco.Factory.Manager.Commit.{place}
use two_phase_commit_protoco.Factory.Ready.{IsReady}
use two_phase_commit_protoco.Factory.Ready.Interleaved.{both_voted}
use two_phase_commit_protoco.Client.{
  thread_body_write_request, thread_body_read_request_single, client_transaction,
}
use two_phase_commit_protoco.Messages.Transaction.{marshal}
use two_phase_commit_protoco.Messages.Transaction.Wire.{network_bytes, fields_of, marshal-fields}
use two_phase_commit_protoco.Experiment.{Servers, Draw, experiment_main}
use two_phase_commit_protoco.Experiment.Aborts.{Outcome, aborts_over, experiment_main-counts}
use two_phase_commit_protoco.Experiment.Orders.{experiment_resets}
use two_phase_commit_protoco.Tests.Data.{
  net_ok, net_down, answering, manager, order_to, transfer, connection,
}

-- The second client of each round does not reach the transaction manager; the others are refused.
abbrev draw : ℕ → ℕ → Draw
draw i j = record {
  net = if j == 1 then net_down else answering (codes "Failed");
  garbage = transfer;
  rand = i + j;
}

abbrev is_refused : ℕ → ℕ → Bool
is_refused i j = if j == 1 then false else true

-- Every argument is read as 3.
abbrev three : String → ℤ
three s = pos 3

abbrev servers : Servers
servers = record { tmip = "tm"; tmport = pos 3; rmip = "rm"; rmport = pos 3 }

outcomes : (i j : ℕ) → Outcome servers (draw i j).net (is_refused i j)
unfolding eqb_text
outcomes i j = elim (Bool-cases (j == 1)) [
  | inl e ↦ rw e (inl (refl, refl))
  | inr e ↦ rw e (inr (pos 3, codes "Failed", refl, refl, refl, refl, refl))
]

experiment_main-counts_example :
    (experiment_main three ("tm" ∷ "16000" ∷ "rm" ∷ "16000" ∷ "3" ∷ []) draw
      ≡ some (aborts_over is_refused 3 10 0))
    × (aborts_over is_refused 3 10 0 ≤ 10 * 3)
experiment_main-counts_example =
    experiment_main-counts three "tm" "16000" "rm" "16000" "3" [] draw is_refused 3 refl outcomes

experiment_resets_example :
    place
      (prepare_records
        (pos 4)
        (client_transaction transfer
          (thread_body_read_request_single net_ok "rm" (pos 16000) (pos 2) (pos 3) []).1
          (thread_body_write_request
            (pos 2)
            (pos 1)
            (pos 1)
            (thread_body_read_request_single net_ok "rm" (pos 16000) (pos 2) (pos 3) []).1
            [])).write_records)
      ((pos 2, pos 40) ∷ [])
    ≡ put (pos 2) (pos 1) ((pos 2, pos 40) ∷ [])
experiment_resets_example =
    experiment_resets net_ok "rm" (pos 16000) (pos 4) 1 transfer ((pos 2, pos 40) ∷ [])

marshal-fields_example : marshal transfer ≡ network_bytes (fields_of transfer)
marshal-fields_example = marshal-fields transfer

-- Another transaction that has read the same order of customer 0.
abbrev rival : Transaction
rival = record transfer { txn_id = pos 1; write_records = order_to 0 15 ∷ [] }

manager-IsReady : IsReady manager
manager-IsReady = record {
  settled = record { at_last = refl; at_committed = refl };
  queue = refl;
  writable = refl;
  sorted = (tt, tt);
  filed = tt;
}

both_voted_example :
    (f1 f2 g h : Factory) × (tm_prepare net_ok (connection (Net.txn transfer ∷ [])) manager
      ≡ some (send_response "Ok" (connection []), f1))
    × (tm_prepare net_ok (connection (Net.txn rival ∷ [])) f1
        ≡ some (send_response "Ok" (connection []), f2))
    × (commit_txn net_ok (pos 1) (pos 0) f2 ≡ some g)
    × (commit_txn net_ok (pos 1) (pos 1) g ≡ some h)
    × (g.customer_record
        ≡ place (prepare_records (pos 0) (order_to 0 11 ∷ [])) manager.customer_record)
    × (h.customer_record ≡ g.customer_record)
unfolding find prepare_records
both_voted_example =
    both_voted net_ok (pos 1) (connection (Net.txn transfer ∷ [])) (connection (Net.txn rival ∷ []))
      manager transfer rival [] [] refl refl refl refl manager-IsReady (inr refl, tt) (inr refl, tt)
      refl (ground arith) (omega arith)

-- ===== src/Tests/Replication.antt =====
-- Replication at concrete inputs.
use mathlib.Core.Option
use two_phase_commit_protoco.Base.{◌≡◌, refl, true, some, List, [], ◌∷◌, ◌++◌, map, arith, ◌>>=◌}
use two_phase_commit_protoco.Base.Int.{pos, minus_one, inc, dec}
use two_phase_commit_protoco.Base.Text.{codes, eqb_text}
use two_phase_commit_protoco.Map.{put}
use two_phase_commit_protoco.Messages.Replication.{MapOp, ReplicationRequest, make_request}
use two_phase_commit_protoco.Net
use two_phase_commit_protoco.Net.{Net, Message, Answer, failed, closed, got}
use two_phase_commit_protoco.ClientStub.{new_stub}
use two_phase_commit_protoco.Factory.State.{Peer, Factory}
use two_phase_commit_protoco.Factory.Admin.{
  update_customer_record, become_primary, replicate_to, append_op,
}
use two_phase_commit_protoco.Factory.Backup.{append_request, follow, primary_lost, ifa_flow}
use two_phase_commit_protoco.Tests.Data.{
  net_ok, op_at, backup_info, manager, fresh_backup, connection,
}
use two_phase_commit_protoco.Factory.Admin.Settled.{IsSettled}
use two_phase_commit_protoco.Factory.Admin.CatchUp.{IsAligned, become_primary_skips}
use two_phase_commit_protoco.Factory.Backup.Replica.{
  replay, live_requests, all_requests, follow_all,
}
use two_phase_commit_protoco.Factory.Admin.{send_all_requests}
use two_phase_commit_protoco.ClientStub.{ClientStub, new_stub, send_replication_req}
use two_phase_commit_protoco.Factory.Backup.Late.{IsAnswering, late_backup_loses}
use two_phase_commit_protoco.Factory.Backup.Stream.{Answers, request_for, primary_feeds_backup}
use two_phase_commit_protoco.Factory.Backup.Flow.{
  done_replies, ifa_flow_follows, ifa_flow_replicates,
}

manager-IsSettled : IsSettled manager
manager-IsSettled = record { at_last = refl; at_committed = refl }

fresh_backup-IsSettled : IsSettled fresh_backup
fresh_backup-IsSettled = record { at_last = refl; at_committed = refl }

-- A backup with two operations pending, on customers 7 and 8.
abbrev pending : Factory
pending = record fresh_backup {
  smr_log = op_at 7 1 ∷ op_at 8 1 ∷ [];
  last_index = pos 1;
  committed_index = minus_one;
}

pending-IsAligned : IsAligned pending
pending-IsAligned = record {
  committed = 0;
  at_committed = refl;
  bounded = omega arith;
  at_last = refl;
  room = omega arith;
}

become_primary_skips_example :
    (g : Factory) × (become_primary net_ok pending ≡ some g)
    × (g.committed_index ≡ g.last_index)
    × (g.customer_record ≡ put (pos 8) (pos 1) pending.customer_record)
unfolding pending-IsAligned
become_primary_skips_example =
    become_primary_skips net_ok pending (op_at 7 1 ∷ []) (op_at 8 1) pending-IsAligned refl
      (omega arith)

-- A node that has just been connected.
abbrev fresh_node : ClientStub
fresh_node = record new_stub { fd = pos 3; is_initialized = true }

fresh_node-IsAnswering : IsAnswering net_ok fresh_node
fresh_node-IsAnswering = record {
  open_socket = refl;
  sends = λ k. refl;
  answers = λ k. (codes "Ok", refl);
}

late_backup_loses_example :
    let old = op_at 7 1 ∷ op_at 8 1 ∷ [] in
    let all_sent = send_all_requests net_ok (pos 0) old fresh_node in
    let request = make_request (pos 0) (pos 2) (pos 2) (op_at 9 1) in
    let next = (send_replication_req net_ok request all_sent).1 in
    (rs : List ReplicationRequest) × (h : Factory) × (log : List MapOp) × (last : MapOp)
    × (next.sent ≡ map Net.replication rs)
    × (old ≡ log ++ last ∷ [])
    × (follow_all rs fresh_backup ≡ some h)
    × (h.smr_log ≡ old ++ op_at 9 1 ∷ [])
    × (h.customer_record ≡ replay (log ++ op_at 9 1 ∷ []) [])
late_backup_loses_example =
    late_backup_loses net_ok fresh_node (pos 0) (op_at 7 1) (op_at 9 1) (op_at 8 1 ∷ [])
      fresh_backup fresh_node-IsAnswering fresh_backup-IsSettled refl (omega arith)

-- The loss by evaluation: customer 8 is not in the backup's map.
late_backup_run :
    Option.map
      (λ (f : Factory). f.customer_record)
      (follow_all (all_requests (pos 0) 0 (op_at 7 1 ∷ op_at 8 1 ∷ [])) fresh_backup
        >>= follow (make_request (pos 0) (pos 2) (pos 2) (op_at 9 1)))
    ≡ some ((pos 7, pos 1) ∷ (pos 9, pos 1) ∷ [])
unfolding follow append_request update_customer_record put dec inc
late_backup_run = refl

abbrev live_peer : Peer
live_peer = record {
  info = backup_info;
  node = record new_stub { fd = pos 3; is_initialized = true };
  live = true;
}

live_peer-Answers : Answers net_ok (codes "Ok") live_peer
unfolding eqb_text
live_peer-Answers = record {
  live = refl;
  open_socket = refl;
  hands_over = refl;
  brings = refl;
  no_failure = refl;
}

-- A backup in the manager's state.
abbrev mirror : Factory
mirror = record manager { factory_id = pos 1; primary_id = pos 0 }

mirror-IsSettled : IsSettled mirror
mirror-IsSettled = record { at_last = refl; at_committed = refl }

primary_feeds_backup_example :
    let f1 = append_op (op_at 0 11) manager in
    let p1 = replicate_to net_ok f1 (op_at 0 11) live_peer in
    (b1 : Factory) × (p1.node.sent ≡ Net.replication (request_for f1 (op_at 0 11)) ∷ [])
    × (p1.live ≡ true)
    × (follow (request_for f1 (op_at 0 11)) mirror ≡ some b1)
    × (b1.smr_log ≡ f1.smr_log)
    × (b1.customer_record ≡ f1.customer_record)
    × IsSettled b1
primary_feeds_backup_example =
    primary_feeds_backup net_ok manager mirror (op_at 0 11) live_peer (codes "Ok") manager-IsSettled
      mirror-IsSettled refl refl (omega arith) live_peer-Answers

abbrev two_requests : List ReplicationRequest
two_requests = live_requests (pos 0) 0 (op_at 7 1 ∷ op_at 8 1 ∷ [])

ifa_flow_replicates_example :
    (g : Factory) × (ifa_flow (connection (map Net.replication two_requests)) fresh_backup
      ≡ some (record (connection []) { replies = done_replies two_requests [] }, primary_lost g))
    × IsSettled g
    × (g.smr_log ≡ op_at 7 1 ∷ op_at 8 1 ∷ [])
    × (g.customer_record ≡ replay (op_at 7 1 ∷ op_at 8 1 ∷ []) [])
ifa_flow_replicates_example =
    ifa_flow_replicates (pos 0) (op_at 7 1 ∷ op_at 8 1 ∷ [])
      (connection (map Net.replication two_requests)) fresh_backup refl fresh_backup-IsSettled
      (omega arith) refl

abbrev first_two : Factory
first_two = record fresh_backup {
  customer_record = (pos 7, pos 1) ∷ (pos 8, pos 1) ∷ [];
  smr_log = op_at 7 1 ∷ op_at 8 1 ∷ [];
  last_index = pos 1;
  committed_index = pos 1;
  primary_id = pos 0;
}

ifa_flow_follows_example :
    ifa_flow (connection (map Net.replication two_requests)) fresh_backup
    ≡ some (
      record (connection []) { replies = done_replies two_requests [] },
      record first_two { primary_id = minus_one },
    )
unfolding follow append_request update_customer_record put inc
ifa_flow_follows_example =
    ifa_flow_follows two_requests (connection (map Net.replication two_requests)) fresh_backup
      first_two refl (refl, (refl, tt)) refl

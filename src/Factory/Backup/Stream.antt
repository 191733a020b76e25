-- ===== src/Factory/Backup/Stream.antt =====
-- The primary's side of replication joined to the backup's (ServerThread.cpp: `AdminThread`,
-- `IFAFlow`).
use two_phase_commit_protoco.Base.{
  subst, ℕ, ◌+◌, ◌^◌, ◌<◌, ◌≡◌, ap, true, false, some, [], ◌∷◌, ◌++◌, length, arith,
}
use two_phase_commit_protoco.Base.Int.{pos, inc-index_of}
use two_phase_commit_protoco.Base.Text.{Text, codes, eqb_text}
use two_phase_commit_protoco.Map.{put}
use two_phase_commit_protoco.Messages.Replication.{MapOp, ReplicationRequest, make_request}
use two_phase_commit_protoco.Net
use two_phase_commit_protoco.Net.{Net, Message, Answer, failed, closed, got}
use two_phase_commit_protoco.ClientStub.Laws.{send_replication_req_open}
use two_phase_commit_protoco.Factory.State.{Peer, Factory}
use two_phase_commit_protoco.Factory.Admin.{update_customer_record, replicate_to, append_op}
use two_phase_commit_protoco.Factory.Backup.{append_request, follow}
use two_phase_commit_protoco.Factory.Admin.Settled.{IsSettled}
use two_phase_commit_protoco.Factory.Backup.Replica.{followed, follow_live, followed-IsSettled}

-- A peer that the primary believes alive, over an open connection that hands over the next message
-- and brings back the text `reply`, which is not "FAILED".
pub record Answers (net : Net) (reply : Text) (p : Peer) : Type 0 where
  pub live : p.live ≡ true
  pub open_socket : p.node.is_initialized ≡ true
  pub hands_over : net.sends p.node.fd p.node.calls ≡ true
  pub brings : net.texts p.node.fd (p.node.calls + 1) ≡ got reply
  pub no_failure : eqb_text reply (codes "FAILED") ≡ false

-- The request for an operation that has just been appended.
abbrev pub request_for : Factory → MapOp → ReplicationRequest
request_for f op = make_request f.factory_id f.committed_index f.last_index op

replicate_to_live :
    (net : Net) (f : Factory) (op : MapOp) (p : Peer) (reply : Text)
    → Answers net reply p
    → let after = replicate_to net f op p in
      (after.node.sent ≡ p.node.sent ++ Net.replication (request_for f op) ∷ [])
      × (after.live ≡ true)
unfolding replicate_to
replicate_to_live net f op p reply a = ground (
  arith,
  a.live,
  a.no_failure,
  send_replication_req_open net (request_for f op) p.node a.open_socket a.hands_over a.brings,
)

append_op_request :
    (f : Factory) (op : MapOp)
    → IsSettled f
    → length f.smr_log < 2 ^ 31
    → request_for (append_op op f) op
      ≡ make_request f.factory_id (pos (length f.smr_log)) (pos (length f.smr_log)) op
unfolding append_op
append_op_request f op v room = rw (v.at_committed, v.at_last, inc-index_of (length f.smr_log) room)

-- A primary with nothing pending that appends an operation sends a live peer exactly one request,
-- and a backup that has the primary's log and customers from before has those from after once it
-- has followed that request.
pub primary_feeds_backup :
    (net : Net) (f b : Factory) (op : MapOp) (p : Peer) (reply : Text)
    → IsSettled f
    → IsSettled b
    → b.smr_log ≡ f.smr_log
    → b.customer_record ≡ f.customer_record
    → length f.smr_log < 2 ^ 31
    → Answers net reply p
    → let f1 = append_op op f in
      let p1 = replicate_to net f1 op p in
      (b1 : Factory) × (p1.node.sent ≡ p.node.sent ++ Net.replication (request_for f1 op) ∷ [])
      × (p1.live ≡ true)
      × (follow (request_for f1 op) b ≡ some b1)
      × (b1.smr_log ≡ f1.smr_log)
      × (b1.customer_record ≡ f1.customer_record)
      × IsSettled b1
unfolding append_op append_request update_customer_record
primary_feeds_backup net f b op p reply vf vb log customers room a =
    let f1 = append_op op f in
    let (sent, alive) = replicate_to_live net f1 op p reply a in
    let short : length b.smr_log < 2 ^ 31 = omega (arith, ap length log) in
    (
      followed f.factory_id op b,
      sent,
      alive,
      rw (append_op_request f op vf room) (
          subst
            (λ (k : ℕ).
              follow (make_request f.factory_id (pos k) (pos k) op) b
              ≡ some (followed f.factory_id op b))
            (ap length log) (follow_live f.factory_id op b)),
      ap (λ l. l ++ op ∷ []) log,
      ap (put op.arg1 op.arg2) customers,
      followed-IsSettled f.factory_id op b short vb,
    )

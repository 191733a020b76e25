-- ===== src/Factory/Backup/Late.antt =====
-- A primary that sends its whole log to a backup that connects late, and the next operation
-- (ServerThread.cpp: `sendAllRequests` and `AdminThread` at the primary, `IFAFlow` at the backup).
use mathlib.Core.Option.{some-injective}
use two_phase_commit_protoco.Base.{
  ℕ, suc, ◌+◌, ◌^◌, ◌<◌, ◌≡◌, refl, sym, ap, ◌∙◌, true, some, List, [], ◌∷◌, ◌++◌, append-nil,
  append_assoc, map, length, arith, Option-cases, subst, ◌>>=◌, inl, inr,
}
use two_phase_commit_protoco.Base.Int.{ℤ, pos, dec}
use two_phase_commit_protoco.Base.Text.{Text}
use two_phase_commit_protoco.Messages.Replication.{MapOp, ReplicationRequest, make_request}
use two_phase_commit_protoco.Net
use two_phase_commit_protoco.Net.{Net, Message, Answer, failed, closed, got}
use two_phase_commit_protoco.ClientStub.{ClientStub, send_replication_req}
use two_phase_commit_protoco.ClientStub.Laws.{send_replication_req_open}
use two_phase_commit_protoco.Factory.State.{Factory}
use two_phase_commit_protoco.Factory.Admin.{send_requests_from, send_all_requests}
use two_phase_commit_protoco.Factory.Admin.Settled.{IsSettled}
use two_phase_commit_protoco.Factory.Backup.{follow}
use two_phase_commit_protoco.Factory.Backup.Replica.{replay, all_requests, follow_all}
use two_phase_commit_protoco.Factory.Backup.Lag.{late_backup_goes_on}

follow_all-append :
    (rs : List ReplicationRequest) (r : ReplicationRequest) (f g h : Factory)
    → follow_all rs f ≡ some g
    → follow r g ≡ some h
    → follow_all (rs ++ r ∷ []) f ≡ some h
follow_all-append [] r f g h e step = ap (follow_all (r ∷ [])) (some-injective f g e) ∙ rw step refl
follow_all-append (q ∷ rs) r f g h e step = elim (Option-cases (follow q f)) [
  | inl e0 ↦ cc (rw e0 at e)
  | inr (f1, e0) ↦ rw e0 (follow_all-append rs r f1 g h (rw e0 at e) step)
]

follow_all-bind :
    (rs : List ReplicationRequest) (r : ReplicationRequest) (f h : Factory)
    → (follow_all rs f >>= λ g. follow r g) ≡ some h
    → follow_all (rs ++ r ∷ []) f ≡ some h
follow_all-bind rs r f h e = elim (Option-cases (follow_all rs f)) [
  | inl e0 ↦ cc (rw e0 at e)
  | inr (g, e0) ↦ follow_all-append rs r f g h e0 (rw e0 at e)
]

map-snoc :
    (rs : List ReplicationRequest) (r : ReplicationRequest)
    → map Net.replication rs ++ Net.replication r ∷ [] ≡ map Net.replication (rs ++ r ∷ [])
map-snoc [] r = refl
map-snoc (q ∷ rs) r = ap (λ l. Net.replication q ∷ l) (map-snoc rs r)

module _ (net : Net) where
  -- The socket is open, hands over what is sent, and each of its receives brings an answer.
  pub record IsAnswering (s : ClientStub) : Type 0 where
    pub open_socket : s.is_initialized ≡ true
    pub sends : (k : ℕ) → net.sends s.fd k ≡ true
    pub answers : (k : ℕ) → (t : Text) × (net.texts s.fd k ≡ got t)

  abbrev after : ReplicationRequest → ClientStub → ClientStub
  after r s = record s { calls = s.calls + 1 + 1; sent = s.sent ++ Net.replication r ∷ [] }

  request_open :
      (r : ReplicationRequest) (s : ClientStub)
      → IsAnswering s
      → (send_replication_req net r s).1 ≡ after r s
  request_open r s v =
      let (t, e) = v.answers (s.calls + 1) in
      ap (λ (p : Text × ClientStub). p.1)
        (send_replication_req_open net r s v.open_socket (v.sends s.calls) e)

  after-IsAnswering :
      (r : ReplicationRequest) (s : ClientStub) → IsAnswering s → IsAnswering (after r s)
  after-IsAnswering r s v = record {
    open_socket = v.open_socket;
    sends = v.sends;
    answers = v.answers;
  }

  -- What `sendAllRequests` hands over.
  requests-sent :
      (fid : ℤ) (i : ℕ) (ops : List MapOp) (s : ClientStub)
      → IsAnswering s
      → IsAnswering (send_requests_from net fid i ops s)
        × ((send_requests_from net fid i ops s).sent
            ≡ s.sent ++ map Net.replication (all_requests fid i ops))
  unfolding send_requests_from
  requests-sent fid i [] s v = (v, sym (append-nil s.sent))
  requests-sent fid i (op ∷ ops) s v =
      let r = make_request fid (dec (pos i)) (pos i) op in
      let (open_still, sent) =
        requests-sent fid (i + 1) ops (after r s) (after-IsAnswering r s v) in
      let same : i + 1 ≡ suc i = omega arith in
      let step : send_requests_from net fid (i + 1) ops (send_replication_req net r s).1
          ≡ send_requests_from net fid (i + 1) ops (after r s) =
        ap (send_requests_from net fid (i + 1) ops) (request_open r s v) in
      (
        subst IsAnswering (sym step) open_still,
        ap (λ (x : ClientStub). x.sent) step
            ∙ sent
            ∙ append_assoc s.sent (Net.replication r ∷ [])
                (map Net.replication (all_requests fid (i + 1) ops))
            ∙ ap (λ k. s.sent ++ Net.replication r ∷ map Net.replication (all_requests fid k ops))
                same,
      )

  -- A primary with a log that is not empty sends all of it to a backup with an empty log that
  -- connects late, over a connection that hands over what is sent and brings answers, and then the
  -- live request for the operation `new`, as long as the indices are `int`s. The backup that follows
  -- these requests one by one has the log of the primary, with `new` at its end, but its customers
  -- are those without the last operation of the log that it was sent.
  pub late_backup_loses :
      (node : ClientStub) (fid : ℤ) (op new : MapOp) (ops : List MapOp) (f : Factory)
      → IsAnswering node
      → IsSettled f
      → f.smr_log ≡ []
      → 1 + length ops < 2 ^ 31
      → let n = pos (length (op ∷ ops)) in
        let all_sent = send_all_requests net fid (op ∷ ops) node in
        let next = (send_replication_req net (make_request fid n n new) all_sent).1 in
        (rs : List ReplicationRequest) × (h : Factory) × (log : List MapOp) × (last : MapOp)
        × (next.sent ≡ node.sent ++ map Net.replication rs)
        × (op ∷ ops ≡ log ++ last ∷ [])
        × (follow_all rs f ≡ some h)
        × (h.smr_log ≡ op ∷ ops ++ new ∷ [])
        × (h.customer_record ≡ replay (log ++ new ∷ []) f.customer_record)
  unfolding send_all_requests
  late_backup_loses node fid op new ops f v settled empty room =
      let n = pos (length (op ∷ ops)) in
      let r = make_request fid n n new in
      let rs = all_requests fid 0 (op ∷ ops) in
      let all_sent = send_requests_from net fid 0 (op ∷ ops) node in
      let (open_still, sent) = requests-sent fid 0 (op ∷ ops) node v in
      let (h, log, last, whole, runs, held, customers) =
        late_backup_goes_on fid op new ops f settled empty room in
      (
        rs ++ r ∷ [],
        h,
        log,
        last,
        ap (λ (s : ClientStub). s.sent) (request_open r all_sent open_still)
            ∙ ap (λ l. l ++ Net.replication r ∷ []) sent
            ∙ append_assoc node.sent (map Net.replication rs) (Net.replication r ∷ [])
            ∙ ap (λ l. node.sent ++ l) (map-snoc rs r),
        whole,
        follow_all-bind rs r f h runs,
        held,
        customers,
      )

-- ===== src/Factory/Backup/Flow.antt =====
-- The loop of `IFAFlow` (ServerThread.cpp) on a stream of requests.
use mathlib.Core.Option.{some-injective}
use two_phase_commit_protoco.Base.{
  ℕ, zero, suc, ◌+◌, ◌^◌, ◌≤◌, ◌<◌, ◌≡◌, refl, ap, ◌∙◌, inl, inr, false, some, List, [], ◌∷◌, ◌++◌,
  map, length, length-map, arith, All, Option-cases,
}
use two_phase_commit_protoco.Base.Int.{ℤ, minus_one, eqb_ℤ}
use two_phase_commit_protoco.Base.Text.{codes}
use two_phase_commit_protoco.Messages.Replication.{MapOp, ReplicationRequest}
use two_phase_commit_protoco.Net
use two_phase_commit_protoco.Net.{Net, Message, Answer, failed, closed, got}
use two_phase_commit_protoco.ServerStub.{ServerStub, send_response}
use two_phase_commit_protoco.Factory.State.{Factory}
use two_phase_commit_protoco.Factory.Backup.{follow, primary_lost, ifa_loop, ifa_flow}
use two_phase_commit_protoco.Factory.Admin.Settled.{IsSettled}
use two_phase_commit_protoco.Factory.Backup.Replica.{
  replay, live_requests, follow_all, follow_all_live,
}

-- One round of the backup's loop.
ifa_step :
    (n : ℕ) (r : ReplicationRequest) (ms : List Message) (s : ServerStub) (f g : Factory)
    → s.input ≡ Net.replication r ∷ ms
    → eqb_ℤ r.factory_id minus_one ≡ false
    → follow r f ≡ some g
    → ifa_loop (suc n) s f ≡ ifa_loop n (send_response "DONE" (record s { input = ms })) g
unfolding ifa_loop
ifa_step n r ms s f g e alive step = ground arith

ifa_end :
    (n : ℕ) (s : ServerStub) (f : Factory)
    → s.input ≡ []
    → ifa_loop (suc n) s f ≡ some (s, primary_lost f)
unfolding ifa_loop
ifa_end n s f e = ground arith

-- The request does not stand for the end of the connection.
abbrev pub FromFactory : ReplicationRequest → Type 0
FromFactory r = eqb_ℤ r.factory_id minus_one ≡ false

-- One "DONE" for each request.
abbrev pub done_replies : List ReplicationRequest → List Message → List Message
done_replies [] sent = sent
done_replies (r ∷ rs) sent = done_replies rs (sent ++ Net.text (codes "DONE") ∷ [])

ifa_loop_follows :
    (rs : List ReplicationRequest) (n : ℕ) (s : ServerStub) (f g : Factory)
    → s.input ≡ map Net.replication rs
    → All FromFactory rs
    → follow_all rs f ≡ some g
    → length rs < n
    → ifa_loop n s f
      ≡ some (record s { input = []; replies = done_replies rs s.replies }, primary_lost g)
ifa_loop_follows rs zero s f g e own runs lt = absurd (omega arith)
ifa_loop_follows [] (suc n) s f g e own runs lt =
    ifa_end n s f e
    ∙ ap (λ (l : List Message). some (record s { input = l }, primary_lost f)) e
    ∙ ap (λ h. some (record s { input = [] }, primary_lost h)) (some-injective f g runs)
ifa_loop_follows (r ∷ rs) (suc n) s f g e (o, own) runs lt = elim (Option-cases (follow r f)) [
  | inl e0 ↦ cc (rw e0 at runs)
  | inr (h, e0) ↦
      ifa_step n r (map Net.replication rs) s f h e o e0
      ∙ ifa_loop_follows rs n (send_response "DONE" (record s { input = map Net.replication rs })) h
          g refl own (rw e0 at runs) (omega arith)
]

-- `IFAFlow` on a stream of requests ends, answers each with "DONE", and leaves the state that
-- follows from them one by one, but for the id of the primary, which is -1.
pub ifa_flow_follows :
    (rs : List ReplicationRequest) (s : ServerStub) (f g : Factory)
    → s.input ≡ map Net.replication rs
    → All FromFactory rs
    → follow_all rs f ≡ some g
    → ifa_flow s f
      ≡ some (
        record s { input = []; replies = done_replies rs s.replies },
        record g { primary_id = minus_one },
      )
unfolding ifa_flow
ifa_flow_follows rs s f g e own runs =
    ifa_loop_follows rs (suc (length s.input)) s f g e own runs
      (omega (arith, ap length e, length-map rs Net.replication))

FromFactory-live_requests :
    (fid : ℤ) (n : ℕ) (ops : List MapOp)
    → eqb_ℤ fid minus_one ≡ false
    → All FromFactory (live_requests fid n ops)
FromFactory-live_requests fid n [] h = tt
FromFactory-live_requests fid n (op ∷ ops) h = (h, FromFactory-live_requests fid (suc n) ops h)

-- A backup that has applied its whole log and is sent the requests of a live primary, whose id is
-- not -1, up to the end of the connection, ends up, as long as the indices are `int`s, with the
-- operations at the end of its log and applied to its customers in order, and with nothing pending.
pub ifa_flow_replicates :
    (fid : ℤ) (ops : List MapOp) (s : ServerStub) (f : Factory)
    → eqb_ℤ fid minus_one ≡ false
    → IsSettled f
    → length f.smr_log + length ops ≤ 2 ^ 31
    → s.input ≡ map Net.replication (live_requests fid (length f.smr_log) ops)
    → let rs = live_requests fid (length f.smr_log) ops in
      (g : Factory) × (ifa_flow s f
        ≡ some (record s { input = []; replies = done_replies rs s.replies }, primary_lost g))
      × IsSettled g
      × (g.smr_log ≡ f.smr_log ++ ops)
      × (g.customer_record ≡ replay ops f.customer_record)
ifa_flow_replicates fid ops s f alive v room e =
    let rs = live_requests fid (length f.smr_log) ops in
    let (g, runs, settled, log, customers) =
      follow_all_live fid ops f (length f.smr_log) refl v room in
    (
      g,
      ifa_flow_follows rs s f g e (FromFactory-live_requests fid (length f.smr_log) ops alive) runs,
      settled,
      log,
      customers,
    )

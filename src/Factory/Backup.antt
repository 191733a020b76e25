-- ===== src/Factory/Backup.antt =====
-- The backup's part of replication (ServerThread.cpp: `IFAFlow`). `none` is the exception of
-- `vector::at`, which nothing catches.
pub mod Replica
pub mod Lag
pub mod Late
pub mod Stream
pub mod Flow
use two_phase_commit_protoco.Base.{
  ℕ, zero, suc, Bool, true, false, not, Option, none, some, List, [], ◌∷◌, ◌++◌, length, ◌>>=◌,
  if◌then◌else◌,
}
use two_phase_commit_protoco.Base.Int.{ℤ, pos, minus_one, eqb_ℤ, ltb_ℤ, inc}
use two_phase_commit_protoco.Messages.Replication.{MapOp, ReplicationRequest}
use two_phase_commit_protoco.ServerStub.{ServerStub, receive_replication_req, send_response}
use two_phase_commit_protoco.Factory.State.{Factory}
use two_phase_commit_protoco.Factory.Admin.{at, update_customer_record}

-- The new entry of the log.
unfoldable pub append_request : ReplicationRequest → Factory → Factory
append_request req f = record f {
  primary_id = req.factory_id;
  smr_log = f.smr_log ++ req.oprn ∷ [];
  last_index = inc f.last_index;
}

-- One round of the loop for a request of a primary that is alive.
unfoldable pub follow : ReplicationRequest → Factory → Option Factory
unfolding append_request update_customer_record
follow req f =
    let g = append_request req f in
    if ltb_ℤ req.committed_index (pos 0)
    then some g
    else (do op ← at req.committed_index g.smr_log; some (update_customer_record op g))

abbrev pub primary_lost : Factory → Factory
primary_lost f = record f { primary_id = minus_one }

-- The loop, with fuel.
unfoldable pub ifa_loop : ℕ → ServerStub → Factory → Option (ServerStub × Factory)
unfolding follow
ifa_loop zero stub f = none
ifa_loop (suc n) stub f =
    let (req, s) = receive_replication_req stub in
    elim (eqb_ℤ req.factory_id minus_one) [
      | true ↦ some (s, primary_lost f)
      | false ↦ elim (follow req f) [ none ↦ none | some g ↦ ifa_loop n (send_response "DONE" s) g ]
    ]

-- Each round takes a message, and the loop ends where none is left.
unfoldable pub ifa_flow : ServerStub → Factory → Option (ServerStub × Factory)
unfolding ifa_loop
ifa_flow stub f = ifa_loop (suc (length stub.input)) stub f

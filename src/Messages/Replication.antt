-- ===== src/Messages/Replication.antt =====
-- `struct MapOp`, `struct peer_servers_info` and `class ReplicationRequest` (Messages.h,
-- Messages.cpp).
use two_phase_commit_protoco.Base.{String}
use two_phase_commit_protoco.Base.Int.{ℤ, minus_one}

pub record MapOp : Type 0 where
  pub opcode : ℤ
  pub arg1 : ℤ
  pub arg2 : ℤ

pub record PeerServersInfo : Type 0 where
  pub id : ℤ
  pub ip : String
  pub port : ℤ
  pub backup_ip : String
  pub backup_port : ℤ

pub record ReplicationRequest : Type 0 where
  pub factory_id : ℤ
  pub committed_index : ℤ
  pub last_index : ℤ
  pub oprn : MapOp

-- The constructor with arguments.
abbrev pub make_request : ℤ → ℤ → ℤ → MapOp → ReplicationRequest
make_request fid cidx lidx op = record {
  factory_id = fid;
  committed_index = cidx;
  last_index = lidx;
  oprn = op;
}

-- The constructor without arguments leaves `oprn` as it finds it: `garbage`.
abbrev pub empty_request : MapOp → ReplicationRequest
empty_request garbage = record {
  factory_id = minus_one;
  committed_index = minus_one;
  last_index = minus_one;
  oprn = garbage;
}

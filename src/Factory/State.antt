-- ===== src/Factory/State.antt =====
-- The state of `class LaptopFactory` (ServerThread.h): a resource manager.
use two_phase_commit_protoco.Base.{Bool, Option, List}
use two_phase_commit_protoco.Base.Int.{ℤ}
use two_phase_commit_protoco.Map.{Map}
use two_phase_commit_protoco.Messages.Laptop.{LaptopInfo}
use two_phase_commit_protoco.Messages.Replication.{MapOp, PeerServersInfo}
use two_phase_commit_protoco.ClientStub.{ClientStub}

-- The promise is not a field: a call of `create_regular_laptop` returns what it is set to.
pub record AdminRequest : Type 0 where
  pub laptop : LaptopInfo
  pub customer_id : ℤ
  pub last_order_num : ℤ

pub record TxnLogRequest : Type 0 where
  pub txn_id : ℤ
  pub txn_operation : ℤ
  pub customer_id : ℤ
  pub last_order_num : ℤ
  pub customer_opr : ℤ

-- `peers[i]`, `peerNodes[i]` and `livePeers[i]`.
pub record Peer : Type 0 where
  pub info : PeerServersInfo
  pub node : ClientStub
  pub live : Bool

-- The two files in the server's directory, row by row; `none` is a file that is not there.
pub record Disk : Type 0 where
  pub log_file : Option (List TxnLogRequest)
  pub cust_rec_file : Option (List (ℤ × ℤ))
  -- whether the directory lets the server open its files for writing
  pub writable : Bool

pub record Factory : Type 0 where
  pub arq : List AdminRequest
  pub customer_record : Map ℤ
  pub smr_log : List MapOp
  pub last_index : ℤ
  pub committed_index : ℤ
  pub primary_id : ℤ
  pub factory_id : ℤ
  pub peers : List Peer
  pub txn_log : Map (List TxnLogRequest)
  pub disk : Disk

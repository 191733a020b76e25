-- ===== src/Factory/Start.antt =====
-- The start of a resource manager (ServerThread.cpp: the constructor, `setFactoryId`).
use two_phase_commit_protoco.Base.{false, List, [], map}
use two_phase_commit_protoco.Base.Int.{ℤ, minus_one}
use two_phase_commit_protoco.Messages.Replication.{PeerServersInfo}
use two_phase_commit_protoco.ClientStub.{new_stub}
use two_phase_commit_protoco.Factory.State.{Peer, Disk, Factory}
use two_phase_commit_protoco.Factory.Persistence.{recovery_txn_log, recovery_cust_rec}

abbrev pub new_peer : PeerServersInfo → Peer
new_peer info = record { info = info; node = new_stub; live = false }

-- The members before the files are read. `peer_count` is the length of `peers_input`, as `main`
-- passes them.
abbrev pub initial_factory : List PeerServersInfo → Disk → Factory
initial_factory peers_input disk = record {
  arq = [];
  customer_record = [];
  smr_log = [];
  last_index = minus_one;
  committed_index = minus_one;
  primary_id = minus_one;
  factory_id = minus_one;
  peers = map new_peer peers_input;
  txn_log = [];
  disk = disk;
}

unfoldable pub make_factory : List PeerServersInfo → Disk → Factory
unfolding recovery_txn_log recovery_cust_rec
make_factory peers_input disk =
    recovery_txn_log (recovery_cust_rec (initial_factory peers_input disk))

abbrev pub set_factory_id : Factory → ℤ → Factory
set_factory_id f id = record f { factory_id = id }
